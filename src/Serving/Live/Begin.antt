-- ===== src/Serving/Live/Begin.antt =====
-- The engines that the constructor returns without a pool.
use mini_gpt.Prelude.{
  ◌≡◌, refl, Option, none, Bool, true, false, arith, Bool-cases, Option-cases, inl, inr, ◌==◌, ◌&&◌,
  ◌||◌, not,
}
use mini_gpt.PagedKvCache.Types.{PagedKvCachePool}
use mini_gpt.Serving.Types.{EngineConfig, Engine}
use mini_gpt.Serving.Construct.{new_engine, backend_ok, chunked_engine_ok}
use mini_gpt.Serving.Execute.{Executor}
use mini_gpt.Serving.Valid.{Checked, and_right}
use mini_gpt.Serving.Live.Invariant.{IsLive}
use mini_gpt.Serving.Live.Reach.{new_engine-IsLive, Reaches, Reaches-Advanced}
use mini_gpt.Serving.Live.Progress.{Advanced}
use mini_gpt.PagedKvCache.Prefix.{Hashing}
use mini_gpt.Exec.{ok}
use mathlib.Core.Path.{subst}

module _ {T : Type 0} (config : EngineConfig) (executor : Executor T) (shares_pool : Bool) where
  abbrev no_pool : Option (PagedKvCachePool T)
  no_pool = none

  abbrev checks : Bool
  checks =
      (executor.block_size == config.block_size)
      && (backend_ok config no_pool
          && ((not executor.direct || shares_pool)
              && ((not config.scheduler.lazy_kv_reservation || (executor.direct && false))
                  && chunked_engine_ok config executor no_pool)))

  -- Chunks need a pool.
  unchunked :
      chunked_engine_ok config executor none ≡ true → config.scheduler.prefill_chunk_tokens ≡ none
  unfolding chunked_engine_ok
  unchunked passed = elim (Option-cases config.scheduler.prefill_chunk_tokens) [
    | inl e ↦ e
    | inr (n, e) ↦ absurd (ground (arith, passed))
  ]

  pub new_engine-Dense :
      Checked
        (λ e. IsLive e × (e.config.scheduler.prefill_chunk_tokens ≡ none))
        (new_engine config executor none shares_pool)
  unfolding new_engine
  new_engine-Dense = elim (Bool-cases checks) [
    | inr failed ↦ rw failed refl
    | inl passed ↦ rw passed (
      new_engine-IsLive config,
      unchunked (
          and_right (not config.scheduler.lazy_kv_reservation || (executor.direct && false)) _ (
            and_right (not executor.direct || shares_pool) _ (
              and_right (backend_ok config no_pool) _
                (and_right (executor.block_size == config.block_size) _ passed)))),
    )
  ]

  -- From an engine that the constructor returns for no pool, whatever calls of submit, cancel and
  -- tick are made in any order, with any executor at each tick, the engine is live: every waiting
  -- or active request stands exactly once in the queue that its status names and an ended one in
  -- none, cached tokens stay within reservations, and reservations and active requests stay
  -- within the limits of the configuration. And it has only advanced: the configuration stays,
  -- each request keeps its object with its request, its generated tokens are only appended to, an
  -- ended request does not change, and the event log is only appended to.
  pub new_engine-Advanced :
      (hashing : Hashing) {e e' : Engine T}
      → new_engine config executor no_pool shares_pool ≡ ok e
      → Reaches hashing e e'
      → IsLive e' × Advanced e e'
  new_engine-Advanced hashing made path =
      let (l, plain) =
        subst (Checked (λ e. IsLive e × (e.config.scheduler.prefill_chunk_tokens ≡ none))) made
          new_engine-Dense in
      Reaches-Advanced hashing l plain path
