-- ===== src/Serving/Live/Results.antt =====
-- What a dense engine does with a result of its executor, whatever that result says.
use mini_gpt.Prelude.{
  ℕ, ◌+◌, ◌-◌, ◌≤◌, ◌≡◌, refl, ◌∙◌, ap, none, some, Bool, true, false, List, [], ◌∷◌, ◌++◌, arith,
  Bool-cases, inl, inr, ◌&&◌, ◌||◌, not, is_none, is_some, ltb, leb, Option-cases, if◌then◌else◌,
}
use mini_gpt.Prelude.Int.{ℤ, pos, negsuc, ◌+ℤ◌, is_negative}
use mathlib.Core.Path.{subst}
use mini_gpt.Dict.{get, get-put_self}
use mini_gpt.Exec.{ok, Ends-mono, returns}
use mini_gpt.PagedKvCache.Storage.{KvCache}
use mini_gpt.PagedKvCache.Prefix.{Hashing}
use mini_gpt.Serving.Types.{
  prefilling, decoding, token, prefill_chunk_finished, Detail, omitted_output, invalid_latency,
  omitted_token, invalid_chunk, no_progress, chunk_end, malformed_results, RequestState, id_of,
  ExecutionResult, Engine,
}
use mini_gpt.Serving.State.{emit_event, save, finish_state, fail_state}
use mini_gpt.Serving.Admission.{pool_prefix_enabled}
use mini_gpt.Serving.Execute.{
  add_latency, result_for, has_duplicates, apply_intermediate, with_token, accept_token,
  apply_fitting, apply_cache, apply_result,
}
use mini_gpt.Serving.Commit.{commit_paged_result, handle_result}
use mini_gpt.Serving.Live.Invariant.{service_bit, IsLive}
use mini_gpt.Serving.Live.Progress.{Extends, Extends-refl, Updated, Updated-then}
use mini_gpt.Serving.Live.Requests.{
  in_service, state_found, Updates, Updated-emit, save-Updated, finish_state-Updates,
  fail_state-Updates,
}

module _ {T : Type 0} where
  -- The end of `accept_token`: the request finishes, or goes on decoding.
  settled :
      (e : Engine T) (s : RequestState T) (time : ℤ) (over : Bool)
      → IsLive e
      → get e.states (id_of s) ≡ some s
      → service_bit s.status ≡ 1
      → s.cached_tokens ≤ s.reserved_cache_tokens
      → Updates s e (
          (if over
              then finish_state s time
              else (λ e. (ok tt, save (record s { status = decoding }) e)))
            e)
  settled e s time true l h at fits = finish_state-Updates e s time l h (in_service s.status at)
  settled e s time false l h at fits = returns (
      save-Updated e s (record s { status = decoding }) l h at refl refl fits refl
        (Extends-refl s.generated_tokens))

  module _ (e : Engine T) (s : RequestState T) (l : IsLive e) (h : get e.states (id_of s) ≡ some s)
      (at : service_bit s.status ≡ 1) (tick_time : ℤ) where
    fails : (time : ℤ) (reason : Detail) → Updates s e (fail_state s time reason e)
    fails time reason = fail_state-Updates e s time l h (in_service s.status at) reason

    -- A token is recorded, announced, and followed by what its request does next.
    recorded :
        (s' : RequestState T) (time : ℤ) (token_id : ℕ) (fallback over : Bool)
        → s'.request ≡ s.request
        → s'.status ≡ s.status
        → s'.cached_tokens ≤ s.reserved_cache_tokens
        → s'.reserved_cache_tokens ≡ s.reserved_cache_tokens
        → Extends s.generated_tokens s'.generated_tokens
        → Updates s e (
            (if over
                then finish_state s' time
                else (λ e. (ok tt, save (record s' { status = decoding }) e)))
              (emit_event token s' time (some token_id) none fallback (save s' e)))
    unfolding emit_event
    recorded s' time token_id fallback over r st c v g =
        let e1 = emit_event token s' time (some token_id) none fallback (save s' e) in
        let at' : service_bit s'.status ≡ 1 = ap service_bit st ∙ at in
        let saved = save-Updated e s s' l h at at' r c v g in
        let named : id_of s' ≡ id_of s = ap (λ q. q.request_id) r in
        let first =
          Updated-emit (id_of s) s e (save s' e) token s' time (some token_id) none fallback
            saved in
        Ends-mono
          (settled e1 s' time over first.live (get-put_self e.states (id_of s') s') at'
            (omega (arith, c, v)))
          (λ _ e2 u.
            Updated-then (id_of s) s s' e e1 e2 first
              (subst (λ k. get e1.states k ≡ some s') named (get-put_self e.states (id_of s') s'))
              (subst (λ k. Updated k s' e1 e2) named u))
          (λ _ _ x. x)

    module _ (r : ExecutionResult T) (cache : KvCache T) (cache_tokens : ℕ)
        (fits : cache_tokens ≤ s.reserved_cache_tokens) where
      accept_token-Updates :
          (token_id : ℕ) (prefill : Bool)
          → Updates s e (accept_token s r cache cache_tokens token_id tick_time prefill e)
      unfolding accept_token
      accept_token-Updates token_id true =
          recorded (with_token s r cache cache_tokens token_id tick_time true)
            (tick_time +ℤ r.latency_seconds) token_id r.used_fallback _ refl refl fits refl
            (_, refl)
      accept_token-Updates token_id false =
          recorded (with_token s r cache cache_tokens token_id tick_time false)
            (tick_time +ℤ r.latency_seconds) token_id r.used_fallback _ refl refl fits refl
            (_, refl)

      apply_intermediate-Updates :
          Updates s e (apply_intermediate s r cache cache_tokens tick_time e)
      unfolding apply_intermediate
      apply_intermediate-Updates = elim (Option-cases r.prefill_logits) [
        | inl p ↦ rw p (fails tick_time invalid_chunk)
        | inr (logits, p) ↦ elim (Bool-cases (is_some r.token_id)) [
          | inl q ↦ rw (p, q) (fails tick_time invalid_chunk)
          | inr q ↦ elim (Bool-cases (leb cache_tokens r.prefill_prefix_tokens)) [
            | inl k ↦ rw (p, q, k) (fails tick_time no_progress)
            | inr k ↦
                let s' = record s {
                  kv_cache = some cache;
                  cached_tokens = cache_tokens;
                  prefill_latency_seconds = add_latency s.prefill_latency_seconds r.latency_seconds;
                  prefill_tokens_computed =
                      s.prefill_tokens_computed + (cache_tokens - r.prefill_prefix_tokens);
                  prefill_logits_chunks =
                      if pool_prefix_enabled e.pool
                      then s.prefill_logits_chunks ++ logits ∷ []
                      else s.prefill_logits_chunks;
                  status = prefilling;
                } in
                rw (p, q, k)
                  (returns (
                    Updated-emit (id_of s) s e (save s' e) prefill_chunk_finished s'
                      (tick_time +ℤ r.latency_seconds) none
                      (some (chunk_end r.prefill_prefix_tokens cache_tokens false)) false
                      (save-Updated e s s' l h at refl refl fits refl
                        (Extends-refl s.generated_tokens))))
          ]
        ]
      ]

  module _ (e : Engine T) (s : RequestState T) (l : IsLive e) (h : get e.states (id_of s) ≡ some s)
      (at : service_bit s.status ≡ 1) (tick_time : ℤ) (r : ExecutionResult T) where
    apply_fitting-Updates :
        (cache : KvCache T) (cache_tokens : ℕ) (prefill : Bool)
        → cache_tokens ≤ s.reserved_cache_tokens
        → Updates s e (apply_fitting s r cache cache_tokens tick_time prefill e)
    unfolding apply_fitting
    apply_fitting-Updates cache cache_tokens prefill fits =
        elim (Bool-cases (prefill && not r.prefill_complete)) [
          | inl p ↦ rw p (apply_intermediate-Updates e s l h at tick_time r cache cache_tokens fits)
          | inr p ↦ elim (Option-cases r.token_id) [
            | inl q ↦ rw (p, q) (fails e s l h at tick_time tick_time omitted_token)
            | inr (token_id, q) ↦
                rw (p, q)
                  (accept_token-Updates e s l h at tick_time r cache cache_tokens fits token_id
                    prefill)
          ]
        ]

    apply_cache-Updates :
        (cache : KvCache T) (occupancy : ℤ) (prefill : Bool)
        → Updates s e (apply_cache s r cache occupancy tick_time prefill e)
    unfolding apply_cache
    apply_cache-Updates cache (negsuc n) prefill =
        elim (Bool-cases (is_negative r.latency_seconds)) [
          | inl p ↦ rw p (fails e s l h at tick_time tick_time invalid_latency)
          | inr p ↦ rw p (fails e s l h at tick_time _ _)
        ]
    apply_cache-Updates cache (pos n) prefill = elim (Bool-cases (is_negative r.latency_seconds)) [
      | inl p ↦ rw p (fails e s l h at tick_time tick_time invalid_latency)
      | inr p ↦ elim (Bool-cases (ltb s.reserved_cache_tokens n)) [
        | inl q ↦ rw (p, q) (fails e s l h at tick_time _ _)
        | inr q ↦ rw (p, q) (apply_fitting-Updates cache n prefill (ground (arith, q)))
      ]
    ]

    -- For a request in service of a live dense engine, `_apply_result` of any result returns,
    -- with a live engine in which only that request's object changed: its request stays, its
    -- generated tokens are only appended to, and the event log is only appended to.
    pub apply_result-Updates : (prefill : Bool) → Updates s e (apply_result s r tick_time prefill e)
    unfolding apply_result
    apply_result-Updates prefill = elim (Option-cases r.error) [
      | inr (reason, p) ↦ rw p (fails e s l h at tick_time _ reason)
      | inl p ↦ elim (Bool-cases (is_none r.token_id && (not prefill || r.prefill_complete))) [
        | inl q ↦ rw (p, q) (fails e s l h at tick_time tick_time omitted_output)
        | inr q ↦ elim (Option-cases r.cache) [
          | inl k ↦ rw (p, q, k) (fails e s l h at tick_time tick_time omitted_output)
          | inr (cache, k) ↦ rw (p, q, k) (apply_cache-Updates cache r.cache_tokens prefill)
        ]
      ]
    ]

  -- Without a pool nothing is committed.
  pub commit_dense :
      (hashing : Hashing) (s : RequestState T) (r : ExecutionResult T) (prefill : Bool)
      (tick_time : ℤ) (e : Engine T)
      → e.pool ≡ none
      → commit_paged_result hashing s r prefill tick_time e ≡ (ok r, e)
  unfolding commit_paged_result
  commit_dense hashing s r prefill tick_time e h = rw h refl

  -- The result of a request in service, which the executor may have omitted or doubled.
  pub handle_result-Updates :
      (hashing : Hashing) (results : List (ExecutionResult T)) (tick_time : ℤ) (prefill : Bool)
      (e : Engine T) (s : RequestState T)
      → IsLive e
      → get e.states (id_of s) ≡ some s
      → service_bit s.status ≡ 1
      → Updates s e (handle_result hashing results tick_time prefill (id_of s) e)
  unfolding handle_result
  handle_result-Updates hashing results tick_time prefill e s l h at =
      rw (state_found e (id_of s) s h) (elim (Bool-cases (has_duplicates results)) [
        | inl p ↦ rw p (fails e s l h at tick_time tick_time malformed_results)
        | inr p ↦ elim (Option-cases (result_for (id_of s) results)) [
          | inl q ↦ rw (p, q) (fails e s l h at tick_time tick_time malformed_results)
          | inr (r, q) ↦
              rw (p, q, commit_dense hashing s r prefill tick_time e l.dense)
                (apply_result-Updates e s l h at tick_time r prefill)
        ]
      ])
