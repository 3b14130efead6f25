-- ===== src/Serving/Execute.antt =====
-- src/minigpt/serving.py: what a tick does with the results of the executor. The executor calls the
-- torch model, and is a parameter: any function from the states that it is given to results, or to
-- an exception.
use mini_gpt.Prelude.{
  ℕ, ◌+◌, ◌-◌, String, Option, none, some, Bool, false, List, [], ◌∷◌, ◌++◌, ◌&&◌, ◌||◌, not, ltb,
  leb, str_eq, ◌==◌, if◌then◌else◌, is_some, is_none, length,
}
use mini_gpt.Prelude.Int.{ℤ, pos, negsuc, ◌+ℤ◌, is_negative}
use mini_gpt.Exec.{Exec, Result, ok, ◌>>◌}
use mini_gpt.PagedKvCache.Storage.{KvCache}
use mini_gpt.Serving.Types.{
  prefilling, decoding, token, prefill_chunk_finished, omitted_output, invalid_latency,
  omitted_token, invalid_chunk, no_progress, exceeds_reservation, chunk_end, RequestState,
  ExecutionResult, Engine, PrefillBatchConfig, CacheRecomputeResult,
}
use mini_gpt.Serving.State.{emit_event, emit_detail, save, finish_state, fail_state}
use mini_gpt.Serving.Admission.{pool_prefix_enabled}

-- `direct` says that it is a `PagedAttentionExecutor`.
pub record Executor (T : Type 0) : Type 0 where
  pub block_size : ℕ
  pub direct : Bool
  pub prefill_config : PrefillBatchConfig
  pub prefill : List (RequestState T) → Result (List (ExecutionResult T))
  pub decode : List (RequestState T) → Result (List (ExecutionResult T))
  pub prefill_chunks : List (RequestState T) → List ℕ → Result (List (ExecutionResult T))
  pub recompute_cache : RequestState T → CacheRecomputeResult T

abbrev pub add_latency : Option ℤ → ℤ → Option ℤ
add_latency none latency = some (pos 0 +ℤ latency)
add_latency (some seconds) latency = some (seconds +ℤ latency)

abbrev pub hits_eos : Option ℕ → ℕ → Bool
hits_eos none token_id = false
hits_eos (some eos) token_id = token_id == eos

module _ {T : Type 0} where
  -- result_by_id.get(request_id): the last of the results with the identifier
  abbrev pub result_for : String → List (ExecutionResult T) → Option (ExecutionResult T)
  result_for id [] = none
  result_for id (r ∷ rs) = elim (result_for id rs) [
    | some r' ↦ some r'
    | none ↦ if str_eq r.request_id id then some r else none
  ]

  -- len(results) - len(result_by_id) is not zero.
  abbrev pub has_duplicates : List (ExecutionResult T) → Bool
  has_duplicates [] = false
  has_duplicates (r ∷ rs) = is_some (result_for r.request_id rs) || has_duplicates rs

  -- _apply_intermediate_prefill_result, for a cache length that is not negative
  unfoldable pub apply_intermediate :
      RequestState T → ExecutionResult T → KvCache T → ℕ → ℤ → Exec (Engine T) (Unit {0})
  unfolding fail_state emit_event
  apply_intermediate s r cache cache_tokens tick_time e = elim r.prefill_logits [
    | none ↦ fail_state s tick_time invalid_chunk e
    | some logits ↦
        if is_some r.token_id
        then fail_state s tick_time invalid_chunk e
        else if leb cache_tokens r.prefill_prefix_tokens
        then fail_state s tick_time no_progress e
        else (let s' = record s {
          kv_cache = some cache;
          cached_tokens = cache_tokens;
          prefill_latency_seconds = add_latency s.prefill_latency_seconds r.latency_seconds;
          prefill_tokens_computed =
              s.prefill_tokens_computed + (cache_tokens - r.prefill_prefix_tokens);
          prefill_logits_chunks =
              if pool_prefix_enabled e.pool
              then s.prefill_logits_chunks ++ logits ∷ []
              else s.prefill_logits_chunks;
          status = prefilling;
        } in
            (
              ok tt,
              emit_detail prefill_chunk_finished s' (tick_time +ℤ r.latency_seconds)
                  (chunk_end r.prefill_prefix_tokens cache_tokens false) (save s' e),
            ))
  ]

  -- The fields that an accepted token changes. The count of computed tokens does not fall below zero.
  abbrev pub with_token :
      RequestState T → ExecutionResult T → KvCache T → ℕ → ℕ → ℤ → Bool → RequestState T
  with_token s r cache cache_tokens token_id tick_time prefill =
      let token_time = tick_time +ℤ r.latency_seconds in
      let s' = record s {
        generated_tokens = s.generated_tokens ++ token_id ∷ [];
        kv_cache = some cache;
        cached_tokens = cache_tokens;
        token_timestamps = s.token_timestamps ++ token_time ∷ [];
      } in
      if prefill
      then record s' {
        prefill_latency_seconds = add_latency s.prefill_latency_seconds r.latency_seconds;
        first_token_time = some token_time;
        prefill_tokens_computed =
            s.prefill_tokens_computed + cache_tokens - r.prefill_prefix_tokens;
        prefill_logits_chunks = [];
      }
      else record s' {
        decode_latencies_seconds = s.decode_latencies_seconds ++ r.latency_seconds ∷ [];
        last_decode_tick = some tick_time;
      }

  -- A token was produced: the request finishes with it, or goes on decoding.
  unfoldable pub accept_token :
      RequestState T → ExecutionResult T → KvCache T → ℕ → ℕ → ℤ → Bool → Exec (Engine T) (Unit {0})
  unfolding emit_event finish_state
  accept_token s r cache cache_tokens token_id tick_time prefill = do
    let token_time = tick_time +ℤ r.latency_seconds
    let s' = with_token s r cache cache_tokens token_id tick_time prefill
    λ e. (ok tt, emit_event token s' token_time (some token_id) none r.used_fallback (save s' e))
    if leb s.request.max_new_tokens (length s'.generated_tokens)
          || hits_eos s.request.eos_token_id token_id
        then finish_state s' token_time
        else (λ e. (ok tt, save (record s' { status = decoding }) e))

  -- What `_apply_result` does once the cache length is known to fit the reservation.
  unfoldable pub apply_fitting :
      RequestState T → ExecutionResult T → KvCache T → ℕ → ℤ → Bool → Exec (Engine T) (Unit {0})
  unfolding apply_intermediate accept_token fail_state
  apply_fitting s r cache cache_tokens tick_time prefill =
      if prefill && not r.prefill_complete
      then apply_intermediate s r cache cache_tokens tick_time
      else elim r.token_id [
        | none ↦ fail_state s tick_time omitted_token
        | some token_id ↦ accept_token s r cache cache_tokens token_id tick_time prefill
      ]

  -- The checks of a result that has a cache and no error. Latencies are finite here.
  unfoldable pub apply_cache :
      RequestState T → ExecutionResult T → KvCache T → ℤ → ℤ → Bool → Exec (Engine T) (Unit {0})
  unfolding apply_fitting fail_state
  apply_cache s r cache (negsuc n) tick_time prefill =
      if is_negative r.latency_seconds
      then fail_state s tick_time invalid_latency
      else fail_state s (tick_time +ℤ r.latency_seconds)
          (exceeds_reservation (negsuc n) s.reserved_cache_tokens)
  apply_cache s r cache (pos cache_tokens) tick_time prefill =
      if is_negative r.latency_seconds
      then fail_state s tick_time invalid_latency
      else if ltb s.reserved_cache_tokens cache_tokens
      then fail_state s (tick_time +ℤ r.latency_seconds)
          (exceeds_reservation (pos cache_tokens) s.reserved_cache_tokens)
      else apply_fitting s r cache cache_tokens tick_time prefill

  unfoldable pub apply_result :
      RequestState T → ExecutionResult T → ℤ → Bool → Exec (Engine T) (Unit {0})
  unfolding apply_cache fail_state
  apply_result s r tick_time prefill = elim r.error [
    | some reason ↦ fail_state s (tick_time +ℤ r.latency_seconds) reason
    | none ↦
        if is_none r.token_id && (not prefill || r.prefill_complete)
        then fail_state s tick_time omitted_output
        else elim r.cache [
          | none ↦ fail_state s tick_time omitted_output
          | some cache ↦ apply_cache s r cache r.cache_tokens tick_time prefill
        ]
  ]
