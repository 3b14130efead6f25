-- ===== src/Serving/Pressure.antt =====
-- src/minigpt/serving.py: reservations that grow before an operation, and preemption under K/V
-- pressure.
use mini_gpt.Prelude.{
  ℕ, ◌+◌, ◌-◌, String, Option, none, some, Bool, true, false, List, [], ◌∷◌, ◌++◌, ◌&&◌, ◌||◌, not,
  ltb, leb, ◌==◌, str_eq, if◌then◌else◌, length, take,
}
use mini_gpt.Prelude.Int.{ℤ, pos, max_ℤ, eq_ℤ}
use mini_gpt.Dict.{get, contains}
use mini_gpt.Exec.{Exec, ok, err, bad_config, pure, guard, ◌>>=◌, ◌>>◌}
use mini_gpt.PagedKvCache.Types.{PagedKvCachePool}
use mini_gpt.PagedKvCache.Checks.{verify_invariants}
use mini_gpt.PagedKvCache.Reservation.{required_blocks, can_grow_reservation, grow_reservation}
use mini_gpt.PagedKvCache.Requests.{release}
use mini_gpt.PagedKvCache.Prefix.{Hashing}
use mini_gpt.Serving.Types.{
  preempted, preempted_event, reservation_grown, reservation_growth_blocked, Detail, grown,
  growth_refused, pressure_growth, pressure_head, RequestState, id_of, all_tokens, Engine,
}
use mini_gpt.Serving.State.{
  holds, remove_one, is_decoding, is_recomputing, last_tokens, reservation_for,
  reserved_cache_tokens, emit_detail, emit_event, save, state_of, cleared, on_pool,
  clear_growth_blocked_of,
}
use mini_gpt.Serving.Admission.{waiting_head_needs_kv}
use mini_gpt.Serving.Execute.{Executor}

-- PagedAttentionExecutor.recompute_model_work
abbrev pub recompute_model_work : {T : Type 0} → ℕ → RequestState T → ℕ
recompute_model_work block_size s =
    length (last_tokens block_size (take (length (all_tokens s) - 1) (all_tokens s)))

-- PagedAttentionExecutor._validate_decode_state, whether it finds no error. The executor's pool is
-- the engine's.
abbrev pub validate_decode_state :
    {T : Type 0} → ℕ → Option (PagedKvCachePool T) → RequestState T → Bool
validate_decode_state block_size none s = false
validate_decode_state block_size (some p) s =
    not (length s.generated_tokens == 0)
    && (ltb 0 s.cached_tokens && elim (get p.tables (id_of s)) [
      | none ↦ false
      | some t ↦ (t.cache_length == s.cached_tokens) && leb s.cached_tokens block_size
    ])

-- PagedAttentionExecutor.decode_model_work
abbrev pub decode_model_work : {T : Type 0} → ℕ → Option (PagedKvCachePool T) → RequestState T → ℕ
decode_model_work block_size pool s =
    if not (validate_decode_state block_size pool s)
    then 0
    else if leb block_size s.cached_tokens
    then length (last_tokens block_size (all_tokens s))
    else 1

abbrev pub happened_at : Option ℤ → ℤ → Bool
happened_at none time = false
happened_at (some t) time = eq_ℤ t time

abbrev pub last_time : List ℤ → ℤ → ℤ
last_time [] time = time
last_time (t ∷ ts) time = last_time ts t

abbrev clear_if : String → Option String → Option String
clear_if id none = none
clear_if id (some j) = if str_eq j id then none else some j

module _ {T : Type 0} where
  -- _operation_reservation_target
  unfoldable pub operation_target : Executor T → RequestState T → Exec (Engine T) ℕ
  operation_target executor s e =
      if not executor.direct
      then (err bad_config, e)
      else if is_recomputing s.status
      then (ok (recompute_model_work executor.block_size s), e)
      else if not (is_decoding s.status)
      then (err bad_config, e)
      else if leb e.config.block_size s.cached_tokens
      then (ok (length (last_tokens e.config.block_size (all_tokens s))), e)
      else (ok (s.cached_tokens + 1), e)

  -- The growth was refused, by the budget of tokens or by the pool.
  unfoldable pub block_growth : RequestState T → ℕ → Bool → Bool → Bool → ℤ → Engine T → Engine T
  unfolding emit_event
  block_growth s target logical physical record_blocked tick_time e =
      if record_blocked
      then (let s' = record s {
        reservation_growth_blocked_count = s.reservation_growth_blocked_count + 1;
      } in
          emit_detail reservation_growth_blocked s' tick_time
            (growth_refused s.reserved_cache_tokens target logical physical)
            (record (save s' e) {
              growth_blocked_request_id = some (id_of s);
              growth_blocked_target_tokens = target;
            }))
      else e

  unfoldable pub grow_state : RequestState T → PagedKvCachePool T → ℕ → ℕ → ℤ → Exec (Engine T) Bool
  unfolding grow_reservation clear_growth_blocked_of emit_event
  grow_state s p target target_blocks tick_time = do
    on_pool p (grow_reservation (id_of s) (pos target_blocks))
    let s' = record s {
      reserved_cache_tokens = target;
      reserved_cache_blocks = target_blocks;
      reservation_growth_count = s.reservation_growth_count + 1;
      reservation_growth_tokens = s.reservation_growth_tokens + (target - s.reserved_cache_tokens);
    }
    λ e. (
      ok true,
      emit_detail reservation_grown s' tick_time
          (grown s.reserved_cache_tokens target s.reserved_cache_blocks target_blocks)
          (clear_growth_blocked_of (id_of s) (save s' e)),
    )

  -- What `_ensure_operation_reservation` does with a target above the current reservation.
  unfoldable pub try_growth :
      RequestState T → PagedKvCachePool T → ℕ → Bool → ℤ → Exec (Engine T) Bool
  unfolding can_grow_reservation reserved_cache_tokens block_growth grow_state required_blocks
  try_growth s p target record_blocked tick_time e =
      let target_blocks = required_blocks p target in
      let logical =
        leb (reserved_cache_tokens e + (target - s.reserved_cache_tokens))
          e.config.scheduler.max_cached_tokens in
      (do
        physical ← on_pool p (can_grow_reservation (id_of s) (pos target_blocks))
        λ e.
            if logical && physical
            then grow_state s p target target_blocks tick_time e
            else (ok false, block_growth s target logical physical record_blocked tick_time e))
        e

  -- _ensure_operation_reservation
  unfoldable pub ensure_operation_reservation :
      Executor T → RequestState T → ℤ → Bool → Exec (Engine T) Bool
  unfolding operation_target reservation_for clear_growth_blocked_of try_growth
  ensure_operation_reservation executor s tick_time record_blocked e =
      if not e.config.scheduler.lazy_kv_reservation then (ok true, e) else elim e.pool [
        | none ↦ (err bad_config, e)
        | some p ↦
            (do
              target ← operation_target executor s
              guard (leb target (reservation_for e.config.block_size s.request)) bad_config
              λ e.
                  if leb target s.reserved_cache_tokens
                  then (ok true, clear_growth_blocked_of (id_of s) e)
                  else try_growth s p target record_blocked tick_time e)
              e
      ]

  -- The part of `_preempt_state` after its two guards.
  unfoldable pub suspend :
      RequestState T → PagedKvCachePool T → ℤ → Detail → Exec (Engine T) (Unit {0})
  unfolding release verify_invariants clear_growth_blocked_of emit_event clear_if
  suspend s p tick_time pressure = do
    on_pool p (release (id_of s))
    let s' = record (cleared s) { preemption_count = s.preemption_count + 1; status = preempted }
    λ e. (
      ok tt,
      emit_detail preempted_event s' (max_ℤ tick_time (last_time s.token_timestamps tick_time))
          pressure
          (clear_growth_blocked_of (id_of s) (record (save s' e) {
            active_ids = remove_one e.active_ids (id_of s);
            waiting_ids = e.waiting_ids ++ id_of s ∷ [];
            chunk_schedule_cursor = clear_if (id_of s) e.chunk_schedule_cursor;
            chunk_resume_decode = clear_if (id_of s) e.chunk_resume_decode;
          })),
    )
    λ e. elim e.pool [ none ↦ (ok tt, e) | some q ↦ on_pool q verify_invariants e ]

  -- _preempt_state
  unfoldable pub preempt_state : RequestState T → ℤ → Detail → Exec (Engine T) (Unit {0})
  unfolding suspend
  preempt_state s tick_time pressure e = elim e.pool [
    | none ↦ (err bad_config, e)
    | some p ↦
        if contains p.tables (id_of s) && is_decoding s.status
        then suspend s p tick_time pressure e
        else (err bad_config, e)
  ]

  abbrev is_victim : String → ℤ → RequestState T → Bool
  is_victim blocked_id tick_time s =
      not (str_eq (id_of s) blocked_id)
      && (is_decoding s.status && not (happened_at s.last_recompute_time tick_time))

  -- The states of the active list that pass a test, in its order.
  unfoldable pub active_states :
      (RequestState T → Bool) → List String → Exec (Engine T) (List (RequestState T))
  unfolding state_of
  active_states test [] = pure []
  active_states test (id ∷ ids) = do
    s ← state_of id
    rest ← active_states test ids
    pure (if test s then s ∷ rest else rest)

  abbrev pub first_with : (RequestState T → Bool) → List (RequestState T) → Option (RequestState T)
  first_with test [] = none
  first_with test (s ∷ ss) = if test s then some s else first_with test ss

  -- A candidate that decoded in this tick, or else the first.
  abbrev pub choose_victim : ℤ → List (RequestState T) → Option (RequestState T)
  choose_victim tick_time ss =
      elim (first_with (λ s. happened_at s.last_decode_tick tick_time) ss) [
        | some s ↦ some s
        | none ↦ first_with (λ s. true) ss
      ]

  abbrev is_growing : Option (RequestState T) → List String → String → Bool
  is_growing none active id = false
  is_growing (some s) active id =
      holds active id && (is_decoding s.status || is_recomputing s.status)

  -- What `_maybe_preempt_growth_pressure` does for a blocked request.
  unfoldable pub relieve_growth : Executor T → ℤ → String → Exec (Engine T) Bool
  unfolding active_states preempt_state ensure_operation_reservation state_of
      clear_growth_blocked_of is_victim is_growing
  relieve_growth executor tick_time blocked_id e =
      if not (is_growing (get e.states blocked_id) e.active_ids blocked_id)
      then (ok true, clear_growth_blocked_of blocked_id e)
      else (do
        candidates ← active_states (is_victim blocked_id tick_time) e.active_ids
        elim (choose_victim tick_time candidates) [
          | none ↦ pure true
          | some victim ↦ (do
            preempt_state victim tick_time pressure_growth
            λ e. (
              ok tt,
              record e { growth_pressure_preemptions = e.growth_pressure_preemptions + 1 },
            )
            blocked ← state_of blocked_id
            ensure_operation_reservation executor blocked tick_time false
            pure true)
        ])
          e

  -- _maybe_preempt_growth_pressure
  unfoldable pub maybe_preempt_growth : Executor T → ℤ → Exec (Engine T) Bool
  unfolding relieve_growth
  maybe_preempt_growth executor tick_time e = elim e.growth_blocked_request_id [
    | none ↦ (ok false, e)
    | some id ↦ relieve_growth executor tick_time id e
  ]

  -- The first request that decoded in this tick and was not recomputed in it gives way to the head
  -- of the queue.
  unfoldable pub preempt_first : ℤ → List String → Exec (Engine T) (Unit {0})
  unfolding state_of preempt_state
  preempt_first tick_time [] = pure tt
  preempt_first tick_time (id ∷ ids) = do
    s ← state_of id
    if is_decoding s.status
          && (happened_at s.last_decode_tick tick_time
              && not (happened_at s.last_recompute_time tick_time))
        then preempt_state s tick_time pressure_head
        else preempt_first tick_time ids

  -- _maybe_preempt_for_pressure
  unfoldable pub maybe_preempt_for_pressure : Hashing → Executor T → ℤ → Exec (Engine T) (Unit {0})
  unfolding maybe_preempt_growth waiting_head_needs_kv preempt_first
  maybe_preempt_for_pressure hashing executor tick_time e =
      if not e.config.scheduler.kv_preemption
      then (ok tt, e)
      else (do
        handled ← maybe_preempt_growth executor tick_time
        if handled then pure tt else (do
          needed ← waiting_head_needs_kv hashing
          if needed then (λ e. preempt_first tick_time e.active_ids e) else pure tt))
          e
