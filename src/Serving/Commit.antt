-- ===== src/Serving/Commit.antt =====
-- src/minigpt/serving.py: `_commit_paged_result`, which writes the cache of a result to the pool, and
-- `_execute`, the phase of a tick that runs the executor.
use mini_gpt.Prelude.{
  ℕ, ◌*◌, String, Option, none, some, Bool, true, false, List, [], ◌∷◌, ◌++◌, map, ◌&&◌, ◌||◌, not,
  ◌==◌, if◌then◌else◌, is_some, is_none,
}
use mini_gpt.Prelude.Int.{ℤ, pos, ◌+ℤ◌, eq_ℤ}
use mini_gpt.Exec.{
  Exec, Result, ok, err, bad_config, runtime_error, pure, raise, guard, on_error, ◌>>=◌, ◌>>◌,
}
use mini_gpt.PagedKvCache.Types.{PagedKvCachePool}
use mini_gpt.PagedKvCache.Reservation.{table_of}
use mini_gpt.PagedKvCache.Storage.{KvCache, LayerKvCache, CacheTensor}
use mini_gpt.PagedKvCache.Requests.{write_prefill, append, append_delta, materialize}
use mini_gpt.PagedKvCache.Rebuild.{rebuild, write_prefill_suffix}
use mini_gpt.PagedKvCache.Prefix.{Hashing}
use mini_gpt.PagedKvCache.Prefix.Promote.{promote_prompt_blocks}
use mini_gpt.Serving.Types.{
  RequestStatus, prefill_started, prefix_promote, raised, malformed_results, promoted, RequestState,
  id_of, ExecutionResult, failure, Engine,
}
use mini_gpt.Serving.State.{
  is_empty, is_prefilling, is_decoding, emit_event, emit, emit_detail, save, state_of, on_pool,
  fail_state,
}
use mini_gpt.Serving.Admission.{pool_prefix_enabled, emit_prefix_evictions, emit_each_eviction}
use mini_gpt.Serving.Execute.{Executor, result_for, has_duplicates, apply_result}

abbrev pub concat : {A : Type 0} → List (List A) → List A
concat [] = []
concat (xs ∷ xss) = xs ++ concat xss

abbrev pub expected_status : Bool → RequestStatus → Bool
expected_status true status = is_prefilling status
expected_status false status = is_decoding status

abbrev pub bind_result : {A B : Type 0} → Result A → (A → Result B) → Result B
bind_result (ok a) f = f a
bind_result (err x) f = err x

module _ {T : Type 0} where
  -- A call of a method of the pool that must be there.
  abbrev pub with_pool : {A : Type 0} → Exec (PagedKvCachePool T) A → Exec (Engine T) A
  with_pool m e = elim e.pool [ none ↦ (err bad_config, e) | some p ↦ on_pool p m e ]

  -- _require_prefix_prefill_logits
  abbrev pub require_logits : Option (List T) → Exec (Engine T) (List T)
  require_logits none = raise runtime_error
  require_logits (some rows) = pure rows

  -- request_cache, and _require_paged_cache_length
  unfoldable pub require_length : String → ℤ → Exec (Engine T) (Unit {0})
  unfolding table_of
  require_length id cache_tokens = do
    t ← with_pool (table_of id)
    guard (eq_ℤ (pos t.cache_length) cache_tokens) runtime_error

  -- _write_paged_result_without_prefix_promotion
  unfoldable pub write_result :
      RequestState T → ExecutionResult T → KvCache T → Bool → Exec (Engine T) (Unit {0})
  unfolding write_prefill rebuild append append_delta
  write_result s r cache true = with_pool (write_prefill (id_of s) cache)
  write_result s r cache false =
      if r.used_fallback
      then with_pool (rebuild (id_of s) cache)
      else if r.cache_is_delta
      then with_pool (append_delta (id_of s) cache)
      else with_pool (append (id_of s) cache)

  -- replace(result, cache=())
  abbrev pub without_cache : ExecutionResult T → ExecutionResult T
  without_cache r = record r { cache = some [] }

  -- What follows every successful write.
  unfoldable pub confirm_write :
      RequestState T → ExecutionResult T → ℤ → Exec (Engine T) (ExecutionResult T)
  unfolding require_length emit_prefix_evictions
  confirm_write s r tick_time = do
    require_length (id_of s) r.cache_tokens
    emit_prefix_evictions s (tick_time +ℤ r.latency_seconds)
    pure (without_cache r)

module _ {T : Type 0} (hashing : Hashing) where
  -- The prompt's blocks are written, and promoted to the prefix cache.
  unfoldable pub write_and_promote :
      RequestState T → ExecutionResult T → KvCache T → ℤ → ℕ → List T → Exec (Engine T) (Unit {0})
  unfolding write_prefill_suffix promote_prompt_blocks emit_event emit_each_eviction
  write_and_promote s r cache tick_time prefix_tokens logits = do
    let time = tick_time +ℤ r.latency_seconds
    with_pool (write_prefill_suffix (id_of s) cache)
    promotion ←
        with_pool
          (promote_prompt_blocks hashing (id_of s) s.request.prompt_tokens prefix_tokens logits)
    let blocks = promotion.promoted_blocks
    let duplicates = promotion.duplicate_private_blocks_released
    λ e. (
      ok tt,
      if (blocks == 0) && (duplicates == 0)
          then e
          else emit_detail prefix_promote s time (promoted blocks duplicates) e,
    )
    λ e. (ok tt, emit_each_eviction s time promotion.evicted_prefix_hashes e)

  -- The `try` block of `_commit_paged_result`.
  unfoldable pub write_cache_result :
      RequestState T
      → ExecutionResult T
      → KvCache T
      → Bool
      → ℤ
      → Exec (Engine T) (ExecutionResult T)
  unfolding write_prefill_suffix confirm_write write_and_promote write_result
  write_cache_result s r cache prefill tick_time e =
      let promotes = prefill && pool_prefix_enabled e.pool in
      if prefill
        && (r.cache_is_delta && (not r.prefill_complete || not (pool_prefix_enabled e.pool)))
      then (do with_pool (write_prefill_suffix (id_of s) cache); confirm_write s r tick_time) e
      else if promotes && r.cache_is_delta
      then (do
        current ← require_logits r.prefill_logits
        block_tokens ← with_pool (λ p. (ok p.config.block_tokens, p))
        write_and_promote s r cache tick_time (s.prefix_hit_blocks * block_tokens)
            (concat s.prefill_logits_chunks ++ current)
        confirm_write s r tick_time)
          e
      else if promotes
      then (do
        current ← require_logits r.prefill_logits
        write_and_promote s r cache tick_time r.prefill_prefix_tokens current
        confirm_write s r tick_time)
          e
      else (do write_result s r cache prefill; confirm_write s r tick_time) e

  -- _commit_paged_result
  unfoldable pub commit_paged_result :
      RequestState T → ExecutionResult T → Bool → ℤ → Exec (Engine T) (ExecutionResult T)
  unfolding write_cache_result
  commit_paged_result s r prefill tick_time e =
      if is_none e.pool || is_some r.error then (ok r, e) else elim r.cache [
        | none ↦ (ok r, e)
        | some cache ↦
            on_error (write_cache_result s r cache prefill tick_time)
              (λ x. pure (failure (id_of s) (raised x) r.latency_seconds)) e
      ]

  -- The result of one request is committed and applied.
  unfoldable pub handle_result :
      List (ExecutionResult T) → ℤ → Bool → String → Exec (Engine T) (Unit {0})
  unfolding state_of fail_state commit_paged_result apply_result
  handle_result results tick_time prefill id = do
    s ← state_of id
    if has_duplicates results
        then fail_state s tick_time malformed_results
        else elim (result_for id results) [
          | none ↦ fail_state s tick_time malformed_results
          | some r ↦ (do
            r' ← commit_paged_result s r prefill tick_time
            apply_result s r' tick_time prefill)
        ]

  unfoldable pub handle_each :
      List (ExecutionResult T) → ℤ → Bool → List String → Exec (Engine T) (Unit {0})
  unfolding handle_result
  handle_each results tick_time prefill [] = pure tt
  handle_each results tick_time prefill (id ∷ ids) = do
    handle_result results tick_time prefill id
    handle_each results tick_time prefill ids

module _ {T : Type 0} where
  -- The identifiers whose requests have a status that passes a test.
  unfoldable pub ids_with : (RequestStatus → Bool) → List String → Exec (Engine T) (List String)
  unfolding state_of
  ids_with test [] = pure []
  ids_with test (id ∷ ids) = do
    s ← state_of id
    rest ← ids_with test ids
    pure (if test s.status then id ∷ rest else rest)

  unfoldable pub states_of : List String → Exec (Engine T) (List (RequestState T))
  unfolding state_of
  states_of [] = pure []
  states_of (id ∷ ids) = do s ← state_of id; rest ← states_of ids; pure (s ∷ rest)

  unfoldable pub start_each : ℤ → List String → Exec (Engine T) (Unit {0})
  unfolding state_of emit_event
  start_each tick_time [] = pure tt
  start_each tick_time (id ∷ ids) = do
    s ← state_of id
    let s' = record s { prefill_start_time = some tick_time }
    λ e. (ok tt, emit prefill_started s' tick_time (save s' e))
    start_each tick_time ids

  -- state.kv_cache = None, of each request
  unfoldable pub drop_caches : List String → Exec (Engine T) (Unit {0})
  unfolding state_of
  drop_caches [] = pure tt
  drop_caches (id ∷ ids) = do
    s ← state_of id
    λ e. (ok tt, save (record s { kv_cache = none }) e)
    drop_caches ids

  -- The tensor that `materialize` builds of gathered rows.
  abbrev pub tensor_of : PagedKvCachePool T → List T → CacheTensor T
  tensor_of p rows = record {
    rank = 4;
    batch = 1;
    heads = p.n_head;
    head_size = p.head_size;
    dtype = p.dtype;
    device = p.device;
    requires_grad = false;
    rows = rows;
  }

  abbrev pub layer_of : PagedKvCachePool T → List T × List T → LayerKvCache T
  layer_of p layer = record { key = tensor_of p layer.0; value = tensor_of p layer.1 }

  -- The states that a dense executor decodes, with their caches gathered from the pool. The pool is
  -- not changed by it.
  unfoldable pub with_caches :
      PagedKvCachePool T → List (RequestState T) → Result (List (RequestState T))
  unfolding materialize
  with_caches p [] = ok []
  with_caches p (s ∷ ss) =
      let rest = with_caches p ss in
      elim (materialize (id_of s) p).0 [
        | err x ↦ err x
        | ok layers ↦ elim rest [
          | err x ↦ err x
          | ok ss' ↦ ok (record s { kv_cache = some (map (layer_of p) layers) } ∷ ss')
        ]
      ]

  -- The `try` block of `_execute`: the results, or an exception.
  unfoldable pub ask :
      Executor T
      → Bool
      → List (RequestState T)
      → Option (PagedKvCachePool T)
      → Result (List (ExecutionResult T))
  unfolding with_caches
  ask executor true states pool = executor.prefill states
  ask executor false states none = executor.decode states
  ask executor false states (some p) =
      if executor.direct
      then executor.decode states
      else bind_result (with_caches p states) executor.decode

  -- An exception becomes a failure of every request.
  abbrev pub failures_on_error :
      List (RequestState T) → Result (List (ExecutionResult T)) → List (ExecutionResult T)
  failures_on_error states (ok results) = results
  failures_on_error states (err x) = map (λ s. failure (id_of s) (raised x) (pos 0)) states

  -- `_execute` of the requests with the status that the phase is for.
  unfoldable pub execute_batch :
      Hashing → Executor T → ℤ → Bool → List String → Exec (Engine T) (Unit {0})
  unfolding states_of start_each drop_caches ask handle_each
  execute_batch hashing executor tick_time prefill ids = do
    if prefill then start_each tick_time ids else pure tt
    states ← states_of ids
    λ e.
        (do
          if is_some e.pool then drop_caches ids else pure tt
          handle_each hashing (failures_on_error states (ask executor prefill states e.pool))
              tick_time prefill ids)
          e

  unfoldable pub execute :
      Hashing → Executor T → ℤ → Bool → List String → Exec (Engine T) (Unit {0})
  unfolding ids_with execute_batch
  execute hashing executor tick_time prefill request_ids = do
    ids ← ids_with (expected_status prefill) request_ids
    if is_empty ids then pure tt else execute_batch hashing executor tick_time prefill ids
