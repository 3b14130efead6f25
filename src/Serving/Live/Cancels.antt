-- ===== src/Serving/Live/Cancels.antt =====
-- src/minigpt/serving.py: `cancel` on a live dense engine.
use mini_gpt.Prelude.{
  ◌≡◌, refl, sym, ◌∙◌, ap, String, none, some, Bool, true, false, List, [], ◌∷◌, ◌++◌, arith,
  str_eq, eq_iff, Bool-cases, inl, inr, ◌⊎◌, Option-cases, not,
}
use mini_gpt.Prelude.Int.{ℤ, is_negative}
use mini_gpt.Dict.{get}
use mini_gpt.Exec.{Error, err, unknown_request, bad_config, Ends, Ends-if, returns, raises}
use mini_gpt.Serving.Types.{RequestState, Engine, EngineEvent, cancellation_requested}
use mini_gpt.Serving.State.{holds, add_once, emit_event, state_of, is_terminal}
use mini_gpt.Serving.Admission.{cancel}
use mini_gpt.Serving.Live.Invariant.{IsLive}
use mini_gpt.Serving.Live.Progress.{Extends-refl, Later-refl, Advanced, Advanced-refl}
use mini_gpt.Serving.Live.Requests.{state_found}

negative : {b : Bool} → not b ≡ false → b ≡ true
negative {b = true} h = refl
negative {b = false} h = absurd (ground (arith, h))

holds-append : (js ks : List String) (id : String) → holds js id ≡ true → holds (js ++ ks) id ≡ true
holds-append [] ks id h = absurd (ground (arith, h))
holds-append (j ∷ js) ks id h = elim (Bool-cases (str_eq j id)) [
  | inl same ↦ rw same refl
  | inr other ↦ rw other (holds-append js ks id (sym (rw other refl) ∙ h))
]

holds_end : (js : List String) (id : String) → holds (js ++ id ∷ []) id ≡ true
holds_end [] id = rw ((eq_iff id id).1 refl) refl
holds_end (j ∷ js) id = elim (Bool-cases (str_eq j id)) [
  | inl same ↦ rw same refl
  | inr other ↦ rw other (holds_end js id)
]

holds-add_once : (js : List String) (id : String) → holds (add_once js id) id ≡ true
holds-add_once js id = elim (Bool-cases (holds js id)) [
  | inl there ↦ rw there there
  | inr absent ↦ rw absent (holds_end js id)
]

add_once_keeps :
    (js : List String) (id j : String) → holds js j ≡ true → holds (add_once js id) j ≡ true
add_once_keeps js id j h = elim (Bool-cases (holds js id)) [
  | inl there ↦ rw there h
  | inr absent ↦ rw absent (holds-append js (id ∷ []) j h)
]

module _ {T : Type 0} where
  -- The request is named among the cancellations to be applied, beside those that were, and no
  -- request has changed.
  pub record Pending (id : String) (e e' : Engine T) : Type 0 where
    pub named : holds e'.pending_cancellations id ≡ true
    pub others :
        (j : String)
        → holds e.pending_cancellations j ≡ true
        → holds e'.pending_cancellations j ≡ true
    pub states : e'.states ≡ e.states
    pub waiting : e'.waiting_ids ≡ e.waiting_ids
    pub active : e'.active_ids ≡ e.active_ids

  -- The last event of the log is the new one, and it tells of this cancellation.
  pub record Logged (id : String) (timestamp : ℤ) (e e' : Engine T) : Type 0 where
    pub event : EngineEvent
    pub appended : e'.events ≡ e.events ++ event ∷ []
    pub kind : event.event_type ≡ cancellation_requested
    pub request : event.request_id ≡ id
    pub time : event.timestamp ≡ timestamp

  -- What a cancellation that returns has done to a known request.
  pub record Requested (id : String) (timestamp : ℤ) (e e' : Engine T) : Type 0 where
    pub state : RequestState T
    pub known : get e.states id ≡ some state
    pub outcome :
        ((is_terminal state.status ≡ true) × (e' ≡ e))
        ⊎ ((is_terminal state.status ≡ false) × Pending id e e' × Logged id timestamp e e')

  -- Why a cancellation raises.
  pub record Refused (id : String) (timestamp : ℤ) (e : Engine T) (x : Error) (e' : Engine T)
      : Type 0 where
    pub outcome :
        ((x ≡ unknown_request) × (get e.states id ≡ none) × (e' ≡ e))
        ⊎ ((x ≡ bad_config) × (is_negative timestamp ≡ true) × Pending id e e')

  state_missing :
      (e : Engine T) (id : String)
      → get e.states id ≡ none
      → state_of id e ≡ (err unknown_request, e)
  unfolding state_of
  state_missing e id h = rw (h, state_of) refl

  abbrev pended : String → Engine T → Engine T
  pended id e = record e { pending_cancellations = add_once e.pending_cancellations id }

  pended-Pending :
      (id : String) (e e' : Engine T)
      → e'.pending_cancellations ≡ add_once e.pending_cancellations id
      → e'.states ≡ e.states
      → e'.waiting_ids ≡ e.waiting_ids
      → e'.active_ids ≡ e.active_ids
      → Pending id e e'
  pended-Pending id e e' p states waiting active = record {
    named = ap (λ js. holds js id) p ∙ holds-add_once e.pending_cancellations id;
    others = λ j h. ap (λ js. holds js j) p ∙ add_once_keeps e.pending_cancellations id j h;
    states = states;
    waiting = waiting;
    active = active;
  }

  -- On a live dense engine `cancel` leaves the engine live, with no request changed but by
  -- advancing. Where it returns, the request is known: if it had ended, the engine is as it was,
  -- and if not, the request is among the cancellations to be applied, beside those that were,
  -- states and queues are as they were, and the log has one more event, a cancellation request of
  -- that request at that time. It raises only for an unknown request, with the engine as it was,
  -- or for a negative time, and then the request is among the cancellations to be applied all the
  -- same, with states and queues as they were.
  pub cancel-Requested :
      (id : String) (timestamp : ℤ) (e : Engine T)
      → IsLive e
      → Ends
          (λ _ e'. IsLive e' × Advanced e e' × Requested id timestamp e e')
          (λ x e'. IsLive e' × Advanced e e' × Refused id timestamp e x e')
          (cancel id timestamp e)
  unfolding cancel emit_event
  cancel-Requested id timestamp e l = elim (Option-cases (get e.states id)) [
    | inl absent ↦
        rw (state_missing e id absent)
          (raises (l, Advanced-refl e, record { outcome = inl (refl, absent, refl) }))
    | inr (s, found) ↦ rw (state_found e id s found) (
        Ends-if (is_terminal s.status)
          (λ ended.
            returns (
              l,
              Advanced-refl e,
              record { state = s; known = found; outcome = inl (ended, refl) },
            ))
          (λ live. elim (Bool-cases (not (is_negative timestamp))) [
            | inl p ↦ rw p (
                returns (
                  l,
                  record { config = refl; kept = λ j t h. (t, h, Later-refl t); log = (_, refl) },
                  record {
                    state = s;
                    known = found;
                    outcome = inr (
                      live,
                      pended-Pending id e _ refl refl refl refl,
                      record {
                        event = _;
                        appended = refl;
                        kind = refl;
                        request = (l.sound id s found).named;
                        time = refl;
                      },
                    );
                  },
                ))
            | inr p ↦ rw p (
                raises (
                  l,
                  record {
                    config = refl;
                    kept = λ j t h. (t, h, Later-refl t);
                    log = Extends-refl e.events;
                  },
                  record {
                    outcome =
                        inr
                          (refl, negative p, pended-Pending id e (pended id e) refl refl refl refl);
                  },
                ))
          ]))
  ]
