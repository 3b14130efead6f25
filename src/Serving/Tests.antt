-- ===== src/Serving/Tests.antt =====
-- Runs of the engine on small inputs: two requests at most, four tokens of cache, and an executor
-- that always produces the token 7. Tensor slices are numbers.
use mini_gpt.Prelude.{
  ℕ, ◌+◌, ◌≤◌, ◌<◌, ◌≡◌, refl, sym, ◌∙◌, ap, String, Option, Bool-cases, inl, inr, str_eq, some-eq,
  none, some, true, false, [], ◌∷◌, map, arith, eq_iff, length,
}
use mini_gpt.Prelude.Int.{pos}
use mathlib.Core.Path.{subst}
use mini_gpt.Dict.{get, put, get-put_self, get-put_ne}
use mini_gpt.Exec.{Ends, Returns, ok}
use mini_gpt.PagedKvCache.Types.{dense, PagedKvCachePool}
use mini_gpt.PagedKvCache.Reservation.{reserve}
use mini_gpt.PagedKvCache.Construct.{empty_pool}
use mini_gpt.PagedKvCache.Prefix.{Hashing}
use mini_gpt.Serving.Types.{
  prefilling, recomputing, GenerationRequest, EngineConfig, PrefillBatchConfig, RequestState,
  new_state, id_of, ExecutionResult, CacheRecomputeResult, Engine, one,
}
use mini_gpt.Serving.Construct.{new_engine_state, new_engine}
use mini_gpt.Serving.Valid.{Checked, IsScheduler, make_scheduler-IsScheduler}
use mini_gpt.Serving.Types.{make_scheduler}
use mini_gpt.Serving.Live.Begin.{new_engine-Advanced}
use mini_gpt.Serving.State.{submit}
use mini_gpt.Serving.Admission.{cancel, admit}
use mini_gpt.Serving.Execute.{Executor, apply_result}
use mini_gpt.Serving.Commit.{execute}
use mini_gpt.Serving.Chunks.{select_decode}
use mini_gpt.Serving.Chunks.Growth.{IsNamed}
use mini_gpt.Serving.Chunks.Charges.{Charged, select_decode-Charged}
use mini_gpt.Serving.Tick.{tick, run_until_idle, is_idle}
use mini_gpt.Serving.Live.Tally.{tally}
use mini_gpt.Serving.Live.Invariant.{IsLive}
use mini_gpt.Serving.Live.Progress.{Advanced, Runs}
use mini_gpt.Serving.Live.Requests.{Updates}
use mini_gpt.Serving.Live.Results.{apply_result-Updates}
use mini_gpt.Serving.Live.Execute.{execute-Runs}
use mini_gpt.Serving.Live.Batches.{Known}
use mini_gpt.Serving.Live.Admit.Queue.{Admitted, admit-Admitted}
use mini_gpt.Serving.Live.Cancels.{Requested, Refused, cancel-Requested}
use mini_gpt.Serving.Live.Ticks.{tick-Runs, run_until_idle-Runs}
use mini_gpt.Serving.Live.Reach.{
  new_engine-IsLive, submit-Runs, submits, ticks, after, Reaches, start, next, Reaches-Advanced,
}

abbrev hashing : Hashing
hashing = record {
  digest = λ n. "n";
  chained = λ d parent tokens. "h";
  fingerprint = λ tokens. "f";
}

abbrev config : EngineConfig
config = record {
  scheduler = record {
    max_active_requests = 2;
    max_cached_tokens = 4;
    max_scheduled_tokens = none;
    prefill_chunk_tokens = none;
    kv_preemption = false;
    lazy_kv_reservation = false;
    kv_overcommit_ratio = one;
  };
  block_size = 4;
  kv_cache_backend = dense;
  paged_kv_cache = none;
}

abbrev batches : PrefillBatchConfig
batches = record { max_batch_size = 2; max_batch_tokens = 8; max_padding_ratio = one }

-- A result with the token 7.
abbrev seven : RequestState ℕ → ℕ → ExecutionResult ℕ
seven s n = record {
  request_id = id_of s;
  token_id = some 7;
  cache = some [];
  cache_tokens = pos n;
  latency_seconds = pos 1;
  error = none;
  used_fallback = false;
  cache_is_delta = false;
  prefill_prefix_tokens = 0;
  prefill_logits = none;
  prefill_complete = true;
}

abbrev recomputes : RequestState ℕ → CacheRecomputeResult ℕ
recomputes s = record {
  request_id = id_of s;
  cache = none;
  cache_length = 0;
  latency_seconds = pos 1;
  error = none;
}

abbrev executor : Executor ℕ
executor = record {
  block_size = 4;
  direct = false;
  prefill_config = batches;
  prefill = λ ss. ok (map (λ s. seven s (length s.request.prompt_tokens)) ss);
  decode = λ ss. ok (map (λ s. seven s (s.cached_tokens + 1)) ss);
  prefill_chunks = λ ss ns. ok [];
  recompute_cache = recomputes;
}

abbrev request : GenerationRequest
request = record {
  request_id = "a";
  prompt_tokens = 1 ∷ 2 ∷ [];
  max_new_tokens = 2;
  temperature = one;
  top_k = none;
  seed = 0;
  arrival_time = pos 0;
  cancellation_time = none;
  eos_token_id = none;
}

abbrev fresh : Engine ℕ
fresh = new_engine_state config none

-- The request waits.
abbrev queued : Engine ℕ
queued = after hashing (submits request) fresh

-- The request was admitted, and is not run yet.
abbrev serving : Engine ℕ
serving = after hashing (ticks executor (pos 0)) queued

path : Reaches hashing fresh serving
path = next (ticks executor (pos 0)) (next (submits request) start)

made : new_engine config executor none false ≡ ok fresh
unfolding new_engine
made = refl

new_engine-Advanced_example : IsLive serving × Advanced fresh serving
new_engine-Advanced_example = new_engine-Advanced config executor false hashing made path

make_scheduler-IsScheduler_example : Checked IsScheduler (
    make_scheduler
      (pos 2)
      (pos 4)
      (some (pos 8))
      (some (pos 2))
      true
      true
      (record { numerator = 3; denominator = 2 }))
make_scheduler-IsScheduler_example =
    make_scheduler-IsScheduler (pos 2) (pos 4) (some (pos 8)) (some (pos 2)) true true
      (record { numerator = 3; denominator = 2 })

queued-IsLive : IsLive queued
queued-IsLive =
    (Reaches-Advanced hashing (new_engine-IsLive config) refl (next (submits request) start)).0

submit-Runs_example :
    Ends (λ _ e'. IsLive e' × Advanced fresh e') (λ _ e'. e' ≡ fresh) (submit request fresh)
submit-Runs_example = submit-Runs request fresh (new_engine-IsLive config)

cancel-Requested_example :
    Ends
      (λ _ e'. IsLive e' × Advanced queued e' × Requested "a" (pos 1) queued e')
      (λ x e'. IsLive e' × Advanced queued e' × Refused "a" (pos 1) queued x e')
      (cancel "a" (pos 1) queued)
cancel-Requested_example = cancel-Requested "a" (pos 1) queued queued-IsLive

tick-Runs_example :
    Ends
      (λ _ e'. IsLive e' × Advanced queued e')
      (λ _ e'. e' ≡ queued)
      (tick hashing executor (pos 0) queued)
unfolding after submit mini_gpt.Dict.contains
tick-Runs_example = tick-Runs hashing executor (pos 0) queued queued-IsLive refl

run_until_idle-Runs_example :
    Ends
      (λ _ e'. IsLive e' × Advanced queued e' × (is_idle e' ≡ true))
      (λ _ e'. IsLive e' × Advanced queued e')
      (run_until_idle hashing executor (pos 0) (pos 1) (pos 9) queued)
unfolding after submit mini_gpt.Dict.contains
run_until_idle-Runs_example =
    run_until_idle-Runs hashing executor (pos 0) (pos 1) (pos 9) queued queued-IsLive refl

admit-Admitted_example : Returns (λ _. Admitted queued) (admit hashing (pos 0) queued)
admit-Admitted_example = admit-Admitted hashing (pos 0) queued queued-IsLive

-- The request's object while it is in service.
abbrev prefilled : RequestState ℕ
prefilled = record (new_state request) {
  status = prefilling;
  admission_time = some (pos 0);
  reserved_cache_tokens = 3;
}

found : get serving.states "a" ≡ some prefilled
unfolding after submit tick get put mini_gpt.Dict.contains mini_gpt.Dict.keys
found = refl

apply_result-Updates_example :
    Updates prefilled serving (apply_result prefilled (seven prefilled 2) (pos 1) true serving)
apply_result-Updates_example =
    apply_result-Updates serving prefilled (new_engine-Advanced_example.0) found refl (pos 1)
      (seven prefilled 2) true

only_a : Known serving ("a" ∷ [])
only_a id h = (prefilled, subst (λ k. get serving.states k ≡ some prefilled) (is_a id h) found)
  where
    is_a : (id : String) → 0 < tally id ("a" ∷ []) → "a" ≡ id
    is_a id h = (eq_iff "a" id).0 (ground (arith, h))

once : (id : String) → tally id ("a" ∷ []) ≤ 1
once id = ground arith

execute-Runs_example : Runs serving (execute hashing executor (pos 1) true ("a" ∷ []) serving)
execute-Runs_example =
    execute-Runs hashing executor (pos 1) true ("a" ∷ []) serving (new_engine-Advanced_example.0)
      only_a once

-- An engine with a pool, where the request has an empty table.
abbrev pool : PagedKvCachePool ℕ
pool =
    empty_pool (record { block_tokens = 2; num_blocks = 3 }) 1 1 1 "f" "cpu" none
      (record { key_blocks = λ _ _ _. 0; value_blocks = λ _ _ _. 0 })

abbrev pooled : Engine ℕ
pooled = record queued { pool = some ((reserve "a" (pos 2) (some (pos 3)) pool).1) }

-- An engine where the request recomputes its keys and values.
abbrev recomputed : RequestState ℕ
recomputed = record prefilled { status = recomputing }

abbrev recomputing_engine : Engine ℕ
recomputing_engine = record serving { states = put [] "a" recomputed }

the_same : {o : Option (RequestState ℕ)} {s t : RequestState ℕ} → o ≡ some s → o ≡ some t → t ≡ s
the_same p q = some-eq (sym q ∙ p)

none-some : {A : Type 0} {o : Option A} {a : A} → o ≡ none → o ≡ some a → ⊥
none-some p q = cc

recomputing_engine-IsNamed : IsNamed recomputing_engine
unfolding get
recomputing_engine-IsNamed id s h = elim (Bool-cases (str_eq "a" id)) [
  | inl same ↦
      let p : "a" ≡ id = (eq_iff "a" id).0 same in
      ap id_of (
        the_same
          (subst (λ k. get (put [] "a" recomputed) k ≡ some recomputed) p
            (get-put_self [] "a" recomputed))
          h)
      ∙ p
  | inr other ↦ absurd (none-some (get-put_ne [] "a" id recomputed other) h)
]

select_decode-Charged_example :
    Ends
      (λ chosen e'. Charged executor (pos 1) 4 ("a" ∷ []) recomputing_engine chosen e')
      (λ _ _. Unit {0})
      (select_decode executor (pos 1) 4 ("a" ∷ []) recomputing_engine)
select_decode-Charged_example =
    select_decode-Charged executor (pos 1) ("a" ∷ []) 4 recomputing_engine
      recomputing_engine-IsNamed
