-- ===== src/Serving/Tick/Chunked.antt =====
-- src/minigpt/serving.py: `_tick_chunked` and its phases.
use mini_gpt.Prelude.{
  ℕ, ◌+◌, ◌-◌, ◌%◌, String, Option, none, some, Bool, true, false, List, [], ◌∷◌, ◌++◌, map, leb,
  ◌==◌, if◌then◌else◌, length,
}
use mini_gpt.Prelude.Int.{ℤ}
use mini_gpt.Exec.{Exec, ok, bad_config, pure, guard, ◌>>=◌, ◌>>◌}
use mini_gpt.PagedKvCache.Prefix.{Hashing}
use mini_gpt.Serving.Types.{malformed_results, ExecutionResult, Engine}
use mini_gpt.Serving.State.{
  holds, is_empty, is_prefilling, is_recomputing, state_of, clear_growth_blocked, fail_state,
}
use mini_gpt.Serving.Admission.{apply_cancellations, admit}
use mini_gpt.Serving.Execute.{Executor, result_for, has_duplicates, apply_result}
use mini_gpt.Serving.Commit.{
  with_pool, ids_with, states_of, commit_paged_result, execute, failures_on_error,
}
use mini_gpt.Serving.Pressure.{decode_model_work}
use mini_gpt.Serving.Chunks.{rotate_chunked_ids, select_prefill, select_decode}
use mini_gpt.Serving.Tick.Steps.{
  first_id, without, is_operating, ids_of, exact_ids, execute_recompute, start_chunks, finish_chunk,
}

module _ {T : Type 0} (hashing : Hashing) (executor : Executor T) where
  unfoldable pub handle_chunk : List (ExecutionResult T) → ℤ → String → Exec (Engine T) (Unit {0})
  unfolding state_of fail_state commit_paged_result finish_chunk apply_result
  handle_chunk results tick_time id = do
    s ← state_of id
    if has_duplicates results
        then fail_state s tick_time malformed_results
        else elim (result_for id results) [
          | none ↦ fail_state s tick_time malformed_results
          | some r ↦ (do
            r' ← commit_paged_result hashing s r true tick_time
            λ e. (ok tt, finish_chunk s r' tick_time e)
            apply_result s r' tick_time true)
        ]

  unfoldable pub handle_chunks :
      List (ExecutionResult T) → ℤ → List String → Exec (Engine T) (Unit {0})
  unfolding handle_chunk
  handle_chunks results tick_time [] = pure tt
  handle_chunks results tick_time (id ∷ ids) = do
    handle_chunk results tick_time id
    handle_chunks results tick_time ids

  -- _execute_prefill_chunks, of requests with the lengths of their chunks
  unfoldable pub execute_prefill_chunks : ℤ → List (String × ℕ) → Exec (Engine T) (Unit {0})
  unfolding ids_with start_chunks states_of handle_chunks
  execute_prefill_chunks tick_time chunks = do
    ids ← ids_with is_prefilling (ids_of chunks)
    guard (length ids == length chunks) bad_config
    start_chunks tick_time chunks
    states ← states_of ids
    handle_chunks
        (failures_on_error states (executor.prefill_chunks states (map (λ c. c.1) chunks)))
        tick_time ids

  abbrev pub execute_some : ℤ → Bool → List String → Exec (Engine T) (Unit {0})
  execute_some tick_time prefill ids =
      if is_empty ids then pure tt else execute hashing executor tick_time prefill ids

  -- _execute_chunked_decode_fifo, with the batch that was collected so far
  unfoldable pub execute_fifo : ℤ → List String → List String → Exec (Engine T) (Unit {0})
  unfolding state_of execute execute_recompute
  execute_fifo tick_time batch [] = execute_some tick_time false batch
  execute_fifo tick_time batch (id ∷ ids) = do
    s ← state_of id
    work ← λ e. (ok (decode_model_work executor.block_size e.pool s), e)
    if is_recomputing s.status
        then (do
          execute_some tick_time false batch
          execute_recompute executor tick_time id
          execute_fifo tick_time [] ids)
        else if work == 1
        then execute_fifo tick_time (batch ++ id ∷ []) ids
        else (do
          execute_some tick_time false batch
          execute hashing executor tick_time false (id ∷ [])
          execute_fifo tick_time [] ids)

  -- _select_chunked_prefill
  unfoldable pub select_chunked_prefill :
      ℕ → List String → List String → ℕ → Exec (Engine T) (List (String × ℕ))
  unfolding select_prefill
  select_chunked_prefill chunk_size ids excluded budget = do
    block_size ← with_pool (λ p. (ok p.config.block_tokens, p))
    select_prefill executor.prefill_config chunk_size block_size excluded budget [] ids

  -- The end of a prefill phase: its chunks run, and the first request without one is pending.
  unfoldable pub prefill_phase :
      ℕ → ℤ → List String → List String → ℕ → Exec (Engine T) (Option String)
  unfolding select_chunked_prefill execute_prefill_chunks
  prefill_phase chunk_size tick_time candidates excluded budget = do
    chunks ← select_chunked_prefill chunk_size candidates excluded budget
    if is_empty (ids_of chunks) then pure tt else execute_prefill_chunks tick_time chunks
    pure (first_id (without (ids_of chunks) (without excluded candidates)))

  -- _run_chunked_prefill_phase: the request that is still pending
  unfoldable pub run_prefill_phase : ℕ → ℤ → List String → ℕ → Exec (Engine T) (Option String)
  unfolding exact_ids prefill_phase execute
  run_prefill_phase chunk_size tick_time ids budget e =
      let ordered = rotate_chunked_ids e.chunk_schedule_cursor ids in
      (do
        exact ← exact_ids ordered
        execute_some tick_time true exact
        prefill_phase chunk_size tick_time (without exact ordered) [] budget)
        e

  -- _run_chunked_prefill_first
  unfoldable pub run_prefill_first :
      ℕ → ℤ → List String → List String → ℕ → Exec (Engine T) (Unit {0})
  unfolding run_prefill_phase
  run_prefill_first chunk_size tick_time live_prefill live_decode budget = do
    pending ← run_prefill_phase chunk_size tick_time live_prefill budget
    λ e. (
      ok tt,
      record e {
        chunk_schedule_cursor = elim e.chunk_resume_decode [
          | some id ↦
              if holds live_decode id
              then some id
              else if is_empty live_decode
              then pending
              else first_id live_decode
          | none ↦ if is_empty live_decode then pending else first_id live_decode
        ];
        chunk_resume_decode = none;
      },
    )

  -- A decode had to wait: the next tick begins with a prefill, or with that decode.
  unfoldable pub defer_decode : String → List String → Engine T → Engine T
  defer_decode id [] e = record e { chunk_schedule_cursor = some id }
  defer_decode id (j ∷ js) e = record e {
    chunk_resume_decode = some id;
    chunk_schedule_cursor = some j;
  }

  -- The tick past cancellation and admission, where no prefill has its turn first.
  unfoldable pub run_decode_first :
      ℕ → ℤ → List String → List String → ℕ → Exec (Engine T) (Unit {0})
  unfolding select_decode execute_fifo exact_ids execute prefill_phase defer_decode
  run_decode_first chunk_size tick_time live_prefill live_decode budget e =
      let ordered = rotate_chunked_ids e.chunk_schedule_cursor live_decode in
      (do
        chosen ← select_decode executor tick_time budget ordered
        if is_empty chosen.0 then pure tt else execute_fifo tick_time [] chosen.0
        elim chosen.2 [
          | some id ↦ (λ e. (ok tt, defer_decode id live_prefill e))
          | none ↦ (do
            exact ← exact_ids live_prefill
            execute hashing executor tick_time true exact
            pending ← prefill_phase chunk_size tick_time live_prefill exact (budget - chosen.1)
            λ e. (ok tt, record e { chunk_schedule_cursor = pending }))
        ])
        e

  abbrev is_cursor_in : Option String → List String → Bool
  is_cursor_in none ids = false
  is_cursor_in (some id) ids = holds ids id

  -- _tick_chunked, for a configured chunk size and budget
  unfoldable pub tick_chunked : ℕ → ℕ → ℤ → Exec (Engine T) (Unit {0})
  unfolding ids_with apply_cancellations admit run_prefill_first run_decode_first is_cursor_in
  tick_chunked chunk_size budget tick_time = do
    guard executor.direct bad_config
    block_size ← with_pool (λ p. (ok p.config.block_tokens, p))
    λ e. (ok tt, clear_growth_blocked e)
    guard (chunk_size % block_size == 0) bad_config
    λ e. guard (leb (e.config.scheduler.max_active_requests - 1 + block_size) budget) bad_config e
    prefill_ids ← λ e. ids_with is_prefilling e.active_ids e
    decode_ids ← λ e. ids_with is_operating e.active_ids e
    apply_cancellations tick_time
    admit hashing tick_time
    live_prefill ← ids_with is_prefilling prefill_ids
    live_decode ← ids_with is_operating decode_ids
    λ e.
        if is_cursor_in e.chunk_schedule_cursor live_prefill
        then run_prefill_first chunk_size tick_time live_prefill live_decode budget e
        else run_decode_first chunk_size tick_time live_prefill live_decode budget e
