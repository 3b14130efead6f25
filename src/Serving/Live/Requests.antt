-- ===== src/Serving/Live/Requests.antt =====
-- The transitions of one request in a dense engine.
use mini_gpt.Prelude.{
  ℕ, ◌≤◌, ◌≡◌, refl, sym, ◌∙◌, ap, String, Option, none, some, Bool, true, false, arith,
}
use mini_gpt.Prelude.Int.{ℤ}
use mathlib.Core.Path.{subst}
use mini_gpt.Dict.{get, put, get-put_self, get-put_ne}
use mini_gpt.Exec.{Result, ok, Returns, returns, continue}
use mini_gpt.Serving.Types.{
  RequestStatus, waiting, prefilling, decoding, preempted, recomputing, finished, cancelled, failed,
  EngineEventType, finished_event, failed_event, cancelled_event, Detail, RequestState, id_of,
  Engine,
}
use mini_gpt.Serving.State.{
  is_terminal, emit_event, emit, save, state_of, cleared, clear_growth_blocked_of, leave_queues,
  release_resident, retire, finish_state, fail_state,
}
use mini_gpt.Serving.Live.Invariant.{queue_bit, service_bit, Scheduled, IsLive}
use mini_gpt.Serving.Live.Moves.{queue_bit_bound, Scheduled-keep, Scheduled-retire}
use mini_gpt.Serving.Live.Progress.{Extends, Extends-refl, Extends-trans, Later-live, Updated}

terminal_out :
    (status : RequestStatus)
    → is_terminal status ≡ true
    → (queue_bit status ≡ 0) × (service_bit status ≡ 0)
terminal_out waiting h = cc
terminal_out prefilling h = cc
terminal_out decoding h = cc
terminal_out preempted h = cc
terminal_out recomputing h = cc
terminal_out finished h = (refl, refl)
terminal_out cancelled h = (refl, refl)
terminal_out failed h = (refl, refl)

pub in_service : (status : RequestStatus) → service_bit status ≡ 1 → is_terminal status ≡ false
in_service waiting h = refl
in_service prefilling h = refl
in_service decoding h = refl
in_service preempted h = refl
in_service recomputing h = refl
in_service finished h = absurd (omega (arith, h))
in_service cancelled h = absurd (omega (arith, h))
in_service failed h = absurd (omega (arith, h))

module _ {T : Type 0} where
  -- A request that ended, in the given status.
  abbrev pub ended : RequestState T → RequestStatus → Option Detail → ℤ → RequestState T
  ended s status reason timestamp = record (cleared s) {
    status = status;
    failure_reason = reason;
    finish_time = some timestamp;
  }

  -- The engine without the request that ended.
  abbrev pub left_by : RequestState T → RequestState T → Engine T → Engine T
  left_by s s' e = clear_growth_blocked_of (id_of s) (save s' (leave_queues (id_of s) e))

  retire_dense :
      (s s' : RequestState T) (e : Engine T)
      → e.pool ≡ none
      → retire s s' e ≡ (ok tt, left_by s s' e)
  unfolding retire release_resident leave_queues clear_growth_blocked_of
  retire_dense s s' e h = rw h refl

  pub state_found :
      (e : Engine T) (id : String) (s : RequestState T)
      → get e.states id ≡ some s
      → state_of id e ≡ (ok s, e)
  unfolding state_of
  state_found e id s h = rw (h, state_of) refl

  -- An event changes nothing but the log and the peaks.
  pub Updated-emit :
      (id : String) (s : RequestState T) (e e' : Engine T) (kind : EngineEventType)
      (t : RequestState T) (timestamp : ℤ) (token : Option ℕ) (detail : Option Detail)
      (fallback : Bool)
      → Updated id s e e'
      → Updated id s e (emit_event kind t timestamp token detail fallback e')
  unfolding emit_event
  Updated-emit id s e e' kind t timestamp token detail fallback u = record {
    new = u.new;
    live = u.live;
    config = u.config;
    here = u.here;
    others = u.others;
    later = u.later;
    log = Extends-trans e.events u.log (_, refl);
  }

  -- The object of a request in service is replaced by one that is in service too.
  pub save-Updated :
      (e : Engine T) (s s' : RequestState T)
      → IsLive e
      → get e.states (id_of s) ≡ some s
      → service_bit s.status ≡ 1
      → service_bit s'.status ≡ 1
      → s'.request ≡ s.request
      → s'.cached_tokens ≤ s.reserved_cache_tokens
      → s'.reserved_cache_tokens ≡ s.reserved_cache_tokens
      → Extends s.generated_tokens s'.generated_tokens
      → Updated (id_of s) s e (save s' e)
  save-Updated e s s' l h at at' r c v g = record {
    new = s';
    live =
        subst (λ k. Scheduled e.config e.pool (put e.states k s') e.waiting_ids e.active_ids)
          (ap (λ q. q.request_id) (sym r))
          (Scheduled-keep e.config e.pool e.states e.waiting_ids e.active_ids (id_of s) s s' l h
            (record {
              named = ap (λ q. q.request_id) r;
              bounded = omega (arith, c, v);
              idle = λ o. absurd (omega (arith, at', o));
            })
            (omega (arith, at, at', queue_bit_bound s.status, queue_bit_bound s'.status))
            (at' ∙ sym at) (omega (arith, v)));
    config = refl;
    here =
        subst (λ k. get (put e.states k s') (id_of s) ≡ some s') (ap (λ q. q.request_id) (sym r))
          (get-put_self e.states (id_of s) s');
    others = λ j o.
        subst (λ k. get (put e.states k s') j ≡ get e.states j) (ap (λ q. q.request_id) (sym r))
          (get-put_ne e.states (id_of s) j s' o);
    later = Later-live s s' (in_service s.status at) r g;
    log = Extends-refl e.events;
  }

  -- A live request ends, and leaves the queues.
  leave-Updated :
      (e : Engine T) (s : RequestState T) (status : RequestStatus) (reason : Option Detail)
      (timestamp : ℤ)
      → IsLive e
      → get e.states (id_of s) ≡ some s
      → is_terminal s.status ≡ false
      → is_terminal status ≡ true
      → Updated (id_of s) s e (left_by s (ended s status reason timestamp) e)
  unfolding leave_queues clear_growth_blocked_of
  leave-Updated e s status reason timestamp l h live over = record {
    new = ended s status reason timestamp;
    live =
        Scheduled-retire e.config e.pool e.states e.waiting_ids e.active_ids (id_of s) s
          (ended s status reason timestamp) l h
          (record { named = refl; bounded = omega arith; idle = λ _. refl })
          ((terminal_out status over).0) ((terminal_out status over).1) refl;
    config = refl;
    here = get-put_self e.states (id_of s) (ended s status reason timestamp);
    others = λ j. get-put_ne e.states (id_of s) j (ended s status reason timestamp);
    later =
        Later-live s (ended s status reason timestamp) live refl (Extends-refl s.generated_tokens);
    log = Extends-refl e.events;
  }

  -- The call returns, and was a step of the given request.
  abbrev pub Updates : RequestState T → Engine T → Result (Unit {0}) × Engine T → Type 0
  Updates s e r = Returns (λ _ e'. Updated (id_of s) s e e') r

  module _ (e : Engine T) (s : RequestState T) (timestamp : ℤ) (l : IsLive e)
      (h : get e.states (id_of s) ≡ some s) (live : is_terminal s.status ≡ false) where
    ends :
        (status : RequestStatus) (reason : Option Detail) (kind : EngineEventType)
        (detail : Option Detail)
        → is_terminal status ≡ true
        → Updated (id_of s) s e (
            emit_event kind
              (ended s status reason timestamp)
              timestamp
              none
              detail
              false
              (left_by s (ended s status reason timestamp) e))
    ends status reason kind detail over =
        Updated-emit (id_of s) s e (left_by s (ended s status reason timestamp) e) kind
          (ended s status reason timestamp) timestamp none detail false
          (leave-Updated e s status reason timestamp l h live over)

    pub finish_state-Updates : Updates s e (finish_state s timestamp e)
    unfolding finish_state
    finish_state-Updates =
        rw (retire_dense s (ended s finished s.failure_reason timestamp) e l.dense)
          (returns (ends finished s.failure_reason finished_event none refl))

    pub fail_state-Updates : (reason : Detail) → Updates s e (fail_state s timestamp reason e)
    unfolding fail_state
    fail_state-Updates reason =
        rw (retire_dense s (ended s failed (some reason) timestamp) e l.dense)
          (returns (ends failed (some reason) failed_event (some reason) refl))

    -- A cancellation that is due.
    pub cancel-Updates : Updates s e (
        continue
          (retire s (ended s cancelled s.failure_reason timestamp) e).0
          (λ _ e. (
            ok tt,
            emit cancelled_event (ended s cancelled s.failure_reason timestamp) timestamp e,
          ))
          (retire s (ended s cancelled s.failure_reason timestamp) e).1)
    cancel-Updates =
        rw (retire_dense s (ended s cancelled s.failure_reason timestamp) e l.dense)
          (returns (ends cancelled s.failure_reason cancelled_event none refl))
