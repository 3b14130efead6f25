-- ===== src/Serving/Tick.antt =====
-- src/minigpt/serving.py: the ticks of the engine, and `run_until_idle`.
pub mod Steps
pub mod Chunked
use mini_gpt.Prelude.{
  ℕ, zero, suc, ◌+◌, ◌-◌, ◌%◌, String, Option, none, some, Bool, true, false, List, [], ◌∷◌, ◌++◌,
  map, ◌&&◌, ◌||◌, not, leb, ◌==◌, if◌then◌else◌, is_none, length,
}
use mini_gpt.Prelude.Int.{ℤ, pos, negsuc, ◌+ℤ◌, leb_ℤ, is_negative}
use mini_gpt.Dict.{Dict}
use mini_gpt.Exec.{Exec, ok, err, bad_config, runaway, pure, raise, guard, on_error, ◌>>=◌, ◌>>◌}
use mini_gpt.PagedKvCache.Reservation.{table_of}
use mini_gpt.PagedKvCache.Requests.{write_prefill, release_all}
use mini_gpt.PagedKvCache.Prefix.{Hashing}
use mini_gpt.Serving.Types.{
  RequestStatus, decoding, recompute_started, resumed, prefill_started, prefill_chunk_started,
  prefill_chunk_finished, raised, recompute_failed, recomputed, malformed_results, chunk_start,
  chunk_end, RequestState, ExecutionResult, CacheRecomputeResult, Engine,
}
use mini_gpt.Serving.State.{
  holds, is_empty, is_prefilling, is_decoding, is_recomputing, emit_event, emit, emit_detail, save,
  state_of, cleared, clear_growth_blocked, update_peaks, fail_state,
}
use mini_gpt.Serving.Admission.{apply_cancellations, admit}
use mini_gpt.Serving.Execute.{Executor, result_for, has_duplicates, apply_result}
use mini_gpt.Serving.Commit.{
  with_pool, ids_with, states_of, commit_paged_result, execute, failures_on_error,
}
use mini_gpt.Serving.Pressure.{decode_model_work, maybe_preempt_for_pressure}
use mini_gpt.Serving.Chunks.{rotate_chunked_ids, select_prefill, select_decode}
use mini_gpt.Serving.Tick.Chunked.{tick_chunked}

abbrev pub is_monotonic : Option ℤ → ℤ → Bool
is_monotonic none tick_time = true
is_monotonic (some last) tick_time = leb_ℤ last tick_time

module _ {T : Type 0} where
  abbrev pub is_idle : Engine T → Bool
  is_idle e = is_empty e.waiting_ids && is_empty e.active_ids

module _ {T : Type 0} (hashing : Hashing) (executor : Executor T) where
  -- The tick of an engine without chunks.
  unfoldable pub tick_plain : ℤ → Exec (Engine T) (Unit {0})
  unfolding ids_with apply_cancellations admit execute update_peaks
  tick_plain tick_time = do
    prefill_ids ← λ e. ids_with is_prefilling e.active_ids e
    decode_ids ← λ e. ids_with is_decoding e.active_ids e
    apply_cancellations tick_time
    admit hashing tick_time
    execute hashing executor tick_time true prefill_ids
    execute hashing executor tick_time false decode_ids
    λ e. (ok tt, update_peaks e)

  abbrev budget_of : Option ℕ → Exec (Engine T) ℕ
  budget_of none = raise bad_config
  budget_of (some budget) = pure budget

  unfoldable pub tick : ℤ → Exec (Engine T) (Unit {0})
  unfolding tick_chunked tick_plain maybe_preempt_for_pressure is_monotonic budget_of
  tick tick_time = do
    guard (not (is_negative tick_time)) bad_config
    λ e. guard (is_monotonic e.last_tick_time tick_time) bad_config e
    λ e. (ok tt, record e { last_tick_time = some tick_time })
    λ e. elim e.config.scheduler.prefill_chunk_tokens [
      | none ↦ tick_plain tick_time e
      | some chunk_size ↦
          (do
            budget ← budget_of e.config.scheduler.max_scheduled_tokens
            tick_chunked hashing executor chunk_size budget tick_time
            maybe_preempt_for_pressure hashing executor tick_time
            λ e. (ok tt, update_peaks e))
            e
    ]

  -- The loop of `run_until_idle`, for the ticks that are left.
  unfoldable pub run_ticks : ℤ → ℤ → ℕ → Exec (Engine T) (Unit {0})
  unfolding tick
  run_ticks time tick_seconds zero e = if is_idle e then (ok tt, e) else (err runaway, e)
  run_ticks time tick_seconds (suc left) e =
      if is_idle e
      then (ok tt, e)
      else (do tick time; run_ticks (time +ℤ tick_seconds) tick_seconds left) e

  unfoldable pub run_until_idle : ℤ → ℤ → ℤ → Exec (Engine T) (Unit {0})
  unfolding run_ticks
  run_until_idle start_time (pos (suc tick_seconds)) (pos (suc max_ticks)) =
      if is_negative start_time
      then raise bad_config
      else run_ticks start_time (pos (suc tick_seconds)) (suc max_ticks)
  run_until_idle start_time tick_seconds max_ticks = raise bad_config

module _ {T : Type 0} where
  abbrev pub clear_states : Dict (RequestState T) → Dict (RequestState T)
  clear_states [] = []
  clear_states ((id, s) ∷ states) = (id, cleared s) ∷ clear_states states

  abbrev release_pool : Exec (Engine T) (Unit {0})
  release_pool e = elim e.pool [ none ↦ (ok tt, e) | some p ↦ with_pool release_all e ]

  -- release_all_cache_resources
  unfoldable pub release_all_cache_resources : Exec (Engine T) (Unit {0})
  unfolding release_all release_pool
  release_all_cache_resources = do
    release_pool
    λ e. (
      ok tt,
      record (clear_growth_blocked e) {
        states = clear_states e.states;
        active_ids = [];
        waiting_ids = [];
        pending_cancellations = [];
        chunk_schedule_cursor = none;
        chunk_resume_decode = none;
      },
    )
