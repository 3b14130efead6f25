-- ===== src/Serving/Construct.antt =====
-- src/minigpt/serving.py: `ServingEngine.__init__` and `_validate_chunked_engine`.
use mini_gpt.Prelude.{
  ℕ, ◌+◌, ◌-◌, ◌%◌, max, Option, none, some, Bool, false, [], ◌&&◌, ◌||◌, not, leb, ◌==◌,
  if◌then◌else◌, is_none, is_some,
}
use mini_gpt.Exec.{Result, ok, err, bad_config}
use mini_gpt.PagedKvCache.Types.{dense, paged, PagedKvCacheConfig, PagedKvCachePool}
use mini_gpt.Serving.Types.{EngineConfig, Engine}
use mini_gpt.Serving.Execute.{Executor}

abbrev pub same_config : PagedKvCacheConfig → PagedKvCacheConfig → Bool
same_config a b = (a.block_tokens == b.block_tokens) && (a.num_blocks == b.num_blocks)

module _ {T : Type 0} where
  -- The chunk size, the budget and the executor's batches fit the pool's blocks.
  unfoldable pub chunks_ok : EngineConfig → Executor T → ℕ → ℕ → Option ℕ → Bool
  chunks_ok config executor block_tokens chunk_size none = false
  chunks_ok config executor block_tokens chunk_size (some budget) =
      (chunk_size % block_tokens == 0)
      && (leb chunk_size config.block_size
          && (leb (max config.block_size (config.scheduler.max_active_requests - 1 + block_tokens))
                budget
              && leb block_tokens executor.prefill_config.max_batch_tokens))

  -- _validate_chunked_engine
  unfoldable pub chunked_engine_ok : EngineConfig → Executor T → Option (PagedKvCachePool T) → Bool
  unfolding chunks_ok
  chunked_engine_ok config executor pool = elim config.scheduler.prefill_chunk_tokens [
    | none ↦ not config.scheduler.kv_preemption && not config.scheduler.lazy_kv_reservation
    | some chunk_size ↦ elim pool [
      | none ↦ false
      | some p ↦
          (not config.scheduler.lazy_kv_reservation || config.scheduler.kv_preemption)
          && (executor.direct
              && chunks_ok config executor p.config.block_tokens chunk_size
                  config.scheduler.max_scheduled_tokens)
    ]
  ]

  -- The pool is there just where the backend is paged, with the configured shape.
  unfoldable pub backend_ok : EngineConfig → Option (PagedKvCachePool T) → Bool
  backend_ok config pool = elim config.kv_cache_backend [
    | dense ↦ is_none pool
    | paged ↦ elim pool [
      | none ↦ false
      | some p ↦ elim config.paged_kv_cache [ none ↦ false | some c ↦ same_config p.config c ]
    ]
  ]

  abbrev pub new_engine_state : EngineConfig → Option (PagedKvCachePool T) → Engine T
  new_engine_state config pool = record {
    config = config;
    pool = pool;
    states = [];
    waiting_ids = [];
    active_ids = [];
    pending_cancellations = [];
    events = [];
    last_tick_time = none;
    peaks = record {
      active = 0;
      waiting = 0;
      cached = 0;
      reserved = 0;
      lifetime_reserved = 0;
      overcommitted = 0;
    };
    chunk_schedule_cursor = none;
    chunk_resume_decode = none;
    growth_blocked_request_id = none;
    growth_blocked_target_tokens = 0;
    growth_pressure_preemptions = 0;
  }

  -- `shares_pool` says that a direct executor works on the pool that the engine is given.
  unfoldable pub new_engine :
      EngineConfig → Executor T → Option (PagedKvCachePool T) → Bool → Result (Engine T)
  unfolding chunked_engine_ok backend_ok
  new_engine config executor pool shares_pool =
      if (executor.block_size == config.block_size)
        && (backend_ok config pool
            && ((not executor.direct || shares_pool)
                && ((not config.scheduler.lazy_kv_reservation || (executor.direct && is_some pool))
                    && chunked_engine_ok config executor pool)))
      then ok (new_engine_state config pool)
      else err bad_config
