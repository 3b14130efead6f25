-- ===== src/Serving/Live/Reach.antt =====
-- The engines that callers can bring about: a new dense engine, and then submissions, cancellations
-- and ticks in any order, with an executor that may answer differently each time.
use mini_gpt.Prelude.{
  ◌≡◌, refl, sym, ◌∙◌, ap, String, Option, none, some, [], ◌∷◌, ◌++◌, arith, bit, str_eq, eq_iff,
  Bool-cases, inl, inr, Option-cases, is_some,
}
use mini_gpt.Prelude.Int.{ℤ}
use mathlib.Core.Path.{subst}
use mini_gpt.Dict.{get, put, contains-get, get-put_ne}
use mini_gpt.Exec.{Result, Error, Ends, Ends-mono, returns, raises}
use mini_gpt.PagedKvCache.Prefix.{Hashing}
use mini_gpt.Serving.Types.{EngineConfig, GenerationRequest, RequestState, new_state, Engine}
use mini_gpt.Serving.Construct.{new_engine_state}
use mini_gpt.Serving.State.{emit_event, submit}
use mini_gpt.Serving.Admission.{cancel}
use mini_gpt.Serving.Execute.{Executor}
use mini_gpt.Serving.Tick.{tick}
use mini_gpt.Serving.Live.Tally.{tally, tally-append}
use mini_gpt.Serving.Live.Sums.{sum_over-put}
use mini_gpt.Serving.Live.Invariant.{
  queue_bit, service_bit, place, Scheduled, Scheduled-put, IsLive,
}
use mini_gpt.Serving.Live.Progress.{Later-refl, Advanced, Advanced-refl, Advanced-trans}
use mini_gpt.Serving.Live.Ticks.{tick-Runs}
use mini_gpt.Serving.Live.Cancels.{cancel-Requested}

module _ {T : Type 0} where
  -- A new engine has no request.
  pub new_engine-IsLive : (config : EngineConfig) → IsLive (new_engine_state {T = T} config none)
  unfolding get
  new_engine-IsLive config = record {
    dense = refl;
    sound = λ id s e. cc;
    queued = λ id. refl;
    serving = λ id. refl;
    within_budget = omega arith;
    within_active = omega arith;
  }

  submitted-Scheduled :
      (e : Engine T) (r : GenerationRequest)
      → IsLive e
      → get e.states r.request_id ≡ none
      → Scheduled e.config e.pool
          (put e.states r.request_id (new_state r))
          (e.waiting_ids ++ r.request_id ∷ [])
          e.active_ids
  submitted-Scheduled e r l absent =
      Scheduled-put e.config e.pool e.states e.waiting_ids e.active_ids
        (e.waiting_ids ++ r.request_id ∷ []) e.active_ids r.request_id (new_state r) l
        (record { named = refl; bounded = omega arith; idle = λ _. refl })
        (λ j. elim (Bool-cases (str_eq r.request_id j)) [
          | inl same ↦ rw same (
              omega (
                arith,
                tally-append j e.waiting_ids (r.request_id ∷ []),
                ap bit same,
                subst (λ k. tally k e.waiting_ids ≡ 0) ((eq_iff r.request_id j).0 same)
                    (l.queued r.request_id ∙ ap (place queue_bit) absent),
              ))
          | inr other ↦
              rw other
                (omega (arith, tally-append j e.waiting_ids (r.request_id ∷ []), ap bit other))
        ])
        (λ j. elim (Bool-cases (str_eq r.request_id j)) [
          | inl same ↦ rw same (
              subst (λ k. tally k e.active_ids ≡ 0) ((eq_iff r.request_id j).0 same)
                (l.serving r.request_id ∙ ap (place service_bit) absent))
          | inr other ↦ rw other refl
        ])
        (omega (
          arith,
          l.within_budget,
          sum_over-put (λ u. u.reserved_cache_tokens) e.states r.request_id (new_state r)
              e.active_ids (omega arith),
        ))
        l.within_active

  kept_by_put :
      (e : Engine T) (r : GenerationRequest)
      → get e.states r.request_id ≡ none
      → (id : String) (s : RequestState T) → get e.states id ≡ some s
      → get (put e.states r.request_id (new_state r)) id ≡ some s
  kept_by_put e r absent id s h = elim (Bool-cases (str_eq r.request_id id)) [
    | inl same ↦
        absurd (
          none-some (subst (λ k. get e.states k ≡ none) ((eq_iff r.request_id id).0 same) absent) h)
    | inr other ↦ get-put_ne e.states r.request_id id (new_state r) other ∙ h
  ]
    where
      none-some : {A : Type 0} {o : Option A} {a : A} → o ≡ none → o ≡ some a → ⊥
      none-some p q = cc

  -- On a live dense engine `submit` either raises and leaves the engine as it was, or returns
  -- with a live engine that has only advanced.
  pub submit-Runs :
      (r : GenerationRequest) (e : Engine T)
      → IsLive e
      → Ends (λ _ e'. IsLive e' × Advanced e e') (λ _ e'. e' ≡ e) (submit r e)
  unfolding submit emit_event
  submit-Runs r e l = elim (Option-cases (get e.states r.request_id)) [
    | inl absent ↦ rw (contains-get e.states r.request_id ∙ ap is_some absent) (
        returns (
          submitted-Scheduled e r l absent,
          record {
            config = refl;
            kept = λ id s h. (s, kept_by_put e r absent id s h, Later-refl s);
            log = (_, refl);
          },
        ))
    | inr (s, found) ↦ rw (contains-get e.states r.request_id ∙ ap is_some found) (raises refl)
  ]

-- What a caller does to the engine.
pub data Call (T : Type 0) : Type 0 where
  submits : GenerationRequest → Call T
  cancels : String → ℤ → Call T
  ticks : Executor T → ℤ → Call T

module _ {T : Type 0} (hashing : Hashing) where
  -- The engine that a call leaves, whether it returns or raises.
  unfoldable pub after : Call T → Engine T → Engine T
  unfolding submit cancel tick
  after (submits r) e = (submit r e).1
  after (cancels id timestamp) e = (cancel id timestamp e).1
  after (ticks executor tick_time) e = (tick hashing executor tick_time e).1

  -- What calls in any order lead to.
  pub data Reaches : Engine T → Engine T → Type 0 where
    start : {e : Engine T} → Reaches e e
    next : {e e' : Engine T} (c : Call T) → Reaches e e' → Reaches e (after c e')

  unchanged :
      (e : Engine T) → IsLive e → (x : Error) (e' : Engine T) → e' ≡ e → IsLive e' × Advanced e e'
  unchanged e l x e' same = subst (λ w. IsLive w × Advanced e w) (sym same) (l, Advanced-refl e)

  left_by_either :
      {A : Type 0} {P : Engine T → Type 0} {r : Result A × Engine T}
      → Ends (λ _. P) (λ _. P) r
      → P r.1
  left_by_either (returns q) = q
  left_by_either (raises q) = q

  after-Runs :
      (c : Call T) (e : Engine T)
      → IsLive e
      → e.config.scheduler.prefill_chunk_tokens ≡ none
      → IsLive (after c e) × Advanced e (after c e)
  unfolding after
  after-Runs (submits r) e l plain =
      left_by_either (Ends-mono (submit-Runs r e l) (λ _ _ q. q) (unchanged e l))
  after-Runs (cancels id timestamp) e l plain = left_by_either {P = λ w. IsLive w × Advanced e w} (
      Ends-mono (cancel-Requested id timestamp e l) (λ _ e' (l', a, _). (l', a))
        (λ _ e' (l', a, _). (l', a)))
  after-Runs (ticks executor tick_time) e l plain =
      left_by_either
        (Ends-mono (tick-Runs hashing executor tick_time e l plain) (λ _ _ q. q) (unchanged e l))

  -- From a live dense engine without chunks, whatever calls of submit, cancel and tick are made
  -- in any order, with any executor at each tick, the engine is live: every request stands
  -- exactly once in the queue that its status names, cached tokens stay within reservations, and
  -- reservations and active requests stay within the limits of the configuration. The
  -- configuration stays, each request keeps its object with its request, its generated tokens are
  -- only appended to, an ended request does not change, and the event log is only appended to.
  pub Reaches-Advanced :
      {e e' : Engine T}
      → IsLive e
      → e.config.scheduler.prefill_chunk_tokens ≡ none
      → Reaches e e'
      → IsLive e' × Advanced e e'
  Reaches-Advanced {e} l plain start = (l, Advanced-refl e)
  Reaches-Advanced {e} l plain (next {e' = e1} c path) =
      let (l1, a1) = Reaches-Advanced l plain path in
      let (l2, a2) =
        after-Runs c e1 l1 (ap (λ k. k.scheduler.prefill_chunk_tokens) a1.config ∙ plain) in
      (l2, Advanced-trans a1 a2)
