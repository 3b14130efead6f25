-- ===== src/Serving/Tick/Steps.antt =====
-- src/minigpt/serving.py: recomputation, and what surrounds the run of prefill chunks.
use mini_gpt.Prelude.{
  ℕ, ◌+◌, String, Option, none, some, Bool, true, List, [], ◌∷◌, map, ◌&&◌, ◌||◌, ◌==◌,
  if◌then◌else◌, is_none, length,
}
use mini_gpt.Prelude.Int.{ℤ, pos, negsuc, ◌+ℤ◌}
use mini_gpt.Exec.{Exec, ok, bad_config, pure, guard, on_error, ◌>>=◌, ◌>>◌}
use mini_gpt.PagedKvCache.Reservation.{table_of}
use mini_gpt.PagedKvCache.Requests.{write_prefill}
use mini_gpt.Serving.Types.{
  RequestStatus, decoding, recompute_started, resumed, prefill_started, prefill_chunk_started,
  prefill_chunk_finished, raised, recompute_failed, recomputed, chunk_start, chunk_end,
  RequestState, ExecutionResult, CacheRecomputeResult, Engine,
}
use mini_gpt.Serving.State.{
  holds, is_decoding, is_recomputing, emit_event, emit, emit_detail, save, state_of, fail_state,
}
use mini_gpt.Serving.Execute.{Executor}
use mini_gpt.Serving.Commit.{with_pool}

abbrev pub first_id : List String → Option String
first_id [] = none
first_id (id ∷ ids) = some id

-- The identifiers that are not among the excluded ones.
abbrev pub without : List String → List String → List String
without excluded [] = []
without excluded (id ∷ ids) =
    if holds excluded id then without excluded ids else id ∷ without excluded ids

abbrev pub is_operating : RequestStatus → Bool
is_operating status = is_decoding status || is_recomputing status

abbrev pub ids_of : List (String × ℕ) → List String
ids_of chunks = map (λ c. c.0) chunks

module _ {T : Type 0} where
  -- The identifiers whose prompt is in the pool as a whole.
  unfoldable pub exact_ids : List String → Exec (Engine T) (List String)
  unfolding state_of table_of
  exact_ids [] = pure []
  exact_ids (id ∷ ids) = do
    s ← state_of id
    t ← with_pool (table_of id)
    rest ← exact_ids ids
    pure (if t.cache_length == length s.request.prompt_tokens then id ∷ rest else rest)

  -- A recomputed cache was written: the request decodes again.
  unfoldable pub resume : RequestState T → CacheRecomputeResult T → ℤ → Engine T → Engine T
  unfolding emit_event
  resume s r tick_time e =
      let s' = record s {
        kv_cache = some [];
        cached_tokens = r.cache_length;
        recompute_tokens = s.recompute_tokens + r.cache_length;
        resume_count = s.resume_count + 1;
        last_recompute_time = some tick_time;
        status = decoding;
      } in
      emit_detail resumed s' (tick_time +ℤ r.latency_seconds) (recomputed r.cache_length)
        (save s' e)

  -- _execute_recompute
  unfoldable pub execute_recompute : Executor T → ℤ → String → Exec (Engine T) (Unit {0})
  unfolding state_of emit_event fail_state write_prefill resume
  execute_recompute executor tick_time id = do
    s ← state_of id
    guard (executor.direct && is_recomputing s.status) bad_config
    λ e. (ok tt, emit recompute_started s tick_time e)
    let r = executor.recompute_cache s
    let time = tick_time +ℤ r.latency_seconds
    elim r.error [
      | some reason ↦ fail_state s time reason
      | none ↦ elim r.cache [
        | none ↦ fail_state s time recompute_failed
        | some cache ↦ (do
          failure ←
              on_error (do with_pool (write_prefill id cache); pure none)
                (λ x. pure (some (raised x)))
          elim failure [
            | some reason ↦ fail_state s time reason
            | none ↦ (λ e. (ok tt, resume s r tick_time e))
          ])
      ]
    ]

  -- prefill_start_time and the events that announce a chunk
  unfoldable pub start_chunk : ℤ → String → ℕ → Exec (Engine T) (Unit {0})
  unfolding state_of emit_event table_of
  start_chunk tick_time id n = do
    s ← state_of id
    let s' =
        if is_none s.prefill_start_time then record s { prefill_start_time = some tick_time } else s
    λ e. (
      ok tt,
      if is_none s.prefill_start_time then emit prefill_started s' tick_time (save s' e) else e,
    )
    t ← with_pool (table_of id)
    λ e. (
      ok tt,
      emit_detail prefill_chunk_started s' tick_time
          (chunk_start t.cache_length (t.cache_length + n)) e,
    )

  unfoldable pub start_chunks : ℤ → List (String × ℕ) → Exec (Engine T) (Unit {0})
  unfolding start_chunk
  start_chunks tick_time [] = pure tt
  start_chunks tick_time ((id, n) ∷ chunks) = do
    start_chunk tick_time id n
    start_chunks tick_time chunks

  -- The event of a prompt's last chunk. The length of its result is not negative here.
  unfoldable pub finish_chunk : RequestState T → ExecutionResult T → ℤ → Engine T → Engine T
  unfolding emit_event
  finish_chunk s r tick_time e = elim r.error [
    | some reason ↦ e
    | none ↦
        if r.prefill_complete
        then emit_detail prefill_chunk_finished s (tick_time +ℤ r.latency_seconds)
            (chunk_end s.cached_tokens (elim r.cache_tokens [ pos n ↦ n | negsuc n ↦ 0 ]) true) e
        else e
  ]
