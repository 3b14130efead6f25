-- ===== src/Serving/Types.antt =====
-- src/minigpt/serving.py, its data types and their `__post_init__`. `T` stands for a slice of a
-- torch tensor, as in the K/V pool. Seconds are integers, of a unit that no value of the program
-- divides: those of logical clocks are rounded to twelve decimals.
pub mod Config
unfoldable pub use Config.*
use mini_gpt.Prelude.{
  ℕ, suc, String, Option, none, some, Bool, true, false, List, [], ◌∷◌, ◌++◌, ◌&&◌, ◌||◌, not, ltb,
  leb, ◌==◌, str_eq, if◌then◌else◌, is_none, is_some, ◌^◌,
}
use mini_gpt.Prelude.Int.{ℤ, pos, negsuc, leb_ℤ, is_negative}
use mini_gpt.Dict.{Dict}
use mini_gpt.Exec.{Result, ok, err, Error, bad_config}
use mini_gpt.PagedKvCache.Types.{KvCacheBackend, dense, paged, PagedKvCacheConfig, PagedKvCachePool}
use mini_gpt.PagedKvCache.Storage.{KvCache}

pub data RequestStatus : Type 0 where
  waiting prefilling decoding preempted recomputing finished cancelled failed : RequestStatus

-- EngineEventType
pub data EngineEventType : Type 0 where
  submitted cancellation_requested cancelled_event admitted prefill_started : EngineEventType
  prefill_chunk_started prefill_chunk_finished preempted_event recompute_started : EngineEventType
  resumed reservation_grown reservation_growth_blocked token finished_event : EngineEventType
  failed_event prefix_lookup prefix_hit prefix_promote prefix_evict : EngineEventType

-- What the texts of `detail` and `failure_reason` say.
pub data Detail : Type 0 where
  exceeds_budget : (required limit : ℕ) → Detail
  exceeds_pool : (required limit : ℕ) → Detail
  executor_error : String → Detail
  raised : Error → Detail
  malformed_results omitted_output invalid_latency omitted_token : Detail
  invalid_chunk no_progress recompute_failed : Detail
  exceeds_reservation : (occupancy : ℤ) → (reserved : ℕ) → Detail
  looked_up : (hit_blocks hit_tokens miss_tokens : ℕ) → Detail
  shared_blocks : ℕ → Detail
  evicted_hash : String → Detail
  promoted : (blocks duplicates : ℕ) → Detail
  chunk_start : (first last : ℕ) → Detail
  chunk_end : (first last : ℕ) → (final : Bool) → Detail
  recomputed : ℕ → Detail
  grown : (tokens target blocks target_blocks : ℕ) → Detail
  growth_refused : (current target : ℕ) → (logical physical : Bool) → Detail
  pressure_growth pressure_head : Detail

pub record GenerationRequest : Type 0 where
  pub request_id : String
  pub prompt_tokens : List ℕ
  pub max_new_tokens : ℕ
  pub temperature : Ratio
  pub top_k : Option ℕ
  pub seed : ℕ
  pub arrival_time : ℤ
  pub cancellation_time : Option ℤ
  pub eos_token_id : Option ℕ

-- Every token is a natural number, and there is one.
abbrev pub tokens_of : List ℤ → Result (List ℕ)
tokens_of [] = ok []
tokens_of (pos n ∷ ts) = elim (tokens_of ts) [ ok ns ↦ ok (n ∷ ns) | err e ↦ err e ]
tokens_of (negsuc n ∷ ts) = err bad_config

abbrev pub natural_or_none : Option ℤ → Bool
natural_or_none none = true
natural_or_none (some n) = not (is_negative n)

abbrev pub cancellation_ok : ℤ → Option ℤ → Bool
cancellation_ok arrival none = true
cancellation_ok arrival (some t) = not (is_negative t) && leb_ℤ arrival t

-- GenerationRequest.__post_init__, for finite floats
unfoldable pub make_request :
    String → List ℤ → ℤ → Ratio → Option ℤ → ℤ → ℤ → Option ℤ → Option ℤ → Result GenerationRequest
make_request id [] max_new_tokens temperature top_k seed arrival cancellation eos = err bad_config
make_request id (t ∷ ts) (pos max_new_tokens) temperature top_k (pos seed) arrival cancellation
      eos =
    elim (tokens_of (t ∷ ts)) [
      | err e ↦ err e
      | ok tokens ↦
          if not (str_eq id "")
            && (ltb 0 temperature.numerator
                && (positive_or_none top_k
                    && (ltb seed (2 ^ 63)
                        && (not (is_negative arrival)
                            && (cancellation_ok arrival cancellation && natural_or_none eos)))))
          then ok (record {
            request_id = id;
            prompt_tokens = tokens;
            max_new_tokens = max_new_tokens;
            temperature = temperature;
            top_k = option_ℕ top_k;
            seed = seed;
            arrival_time = arrival;
            cancellation_time = cancellation;
            eos_token_id = option_ℕ eos;
          })
          else err bad_config
    ]
make_request id (t ∷ ts) max_new_tokens temperature top_k seed arrival cancellation eos =
    err bad_config

-- RequestState, less its torch generator.
pub record RequestState (T : Type 0) : Type 0 where
  pub request : GenerationRequest
  pub status : RequestStatus
  pub generated_tokens : List ℕ
  pub kv_cache : Option (KvCache T)
  pub reserved_cache_tokens : ℕ
  pub reserved_cache_blocks : ℕ
  pub cached_tokens : ℕ
  pub admission_time : Option ℤ
  pub prefill_start_time : Option ℤ
  pub first_token_time : Option ℤ
  pub finish_time : Option ℤ
  pub prefill_latency_seconds : Option ℤ
  pub decode_latencies_seconds : List ℤ
  pub token_timestamps : List ℤ
  pub failure_reason : Option Detail
  pub preemption_count : ℕ
  pub resume_count : ℕ
  pub recompute_tokens : ℕ
  pub last_recompute_time : Option ℤ
  pub last_decode_tick : Option ℤ
  pub reservation_growth_count : ℕ
  pub reservation_growth_tokens : ℕ
  pub reservation_growth_blocked_count : ℕ
  pub prefix_hit_blocks : ℕ
  pub prefix_hit_tokens : ℕ
  pub prefix_miss_tokens : ℕ
  pub prefill_tokens_computed : ℕ
  pub prefill_logits_chunks : List (List T)

abbrev pub new_state : {T : Type 0} → GenerationRequest → RequestState T
new_state request = record {
  request = request;
  status = waiting;
  generated_tokens = [];
  kv_cache = none;
  reserved_cache_tokens = 0;
  reserved_cache_blocks = 0;
  cached_tokens = 0;
  admission_time = none;
  prefill_start_time = none;
  first_token_time = none;
  finish_time = none;
  prefill_latency_seconds = none;
  decode_latencies_seconds = [];
  token_timestamps = [];
  failure_reason = none;
  preemption_count = 0;
  resume_count = 0;
  recompute_tokens = 0;
  last_recompute_time = none;
  last_decode_tick = none;
  reservation_growth_count = 0;
  reservation_growth_tokens = 0;
  reservation_growth_blocked_count = 0;
  prefix_hit_blocks = 0;
  prefix_hit_tokens = 0;
  prefix_miss_tokens = 0;
  prefill_tokens_computed = 0;
  prefill_logits_chunks = [];
}

abbrev pub id_of : {T : Type 0} → RequestState T → String
id_of s = s.request.request_id

-- RequestState.all_tokens
abbrev pub all_tokens : {T : Type 0} → RequestState T → List ℕ
all_tokens s = s.request.prompt_tokens ++ s.generated_tokens

pub record CacheRecomputeResult (T : Type 0) : Type 0 where
  pub request_id : String
  pub cache : Option (KvCache T)
  pub cache_length : ℕ
  pub latency_seconds : ℤ
  pub error : Option Detail

pub record ExecutionResult (T : Type 0) : Type 0 where
  pub request_id : String
  pub token_id : Option ℕ
  pub cache : Option (KvCache T)
  pub cache_tokens : ℤ
  pub latency_seconds : ℤ
  pub error : Option Detail
  pub used_fallback : Bool
  pub cache_is_delta : Bool
  pub prefill_prefix_tokens : ℕ
  pub prefill_logits : Option (List T)
  pub prefill_complete : Bool

-- ExecutionResult.failure
abbrev pub failure : {T : Type 0} → String → Detail → ℤ → ExecutionResult T
failure id e latency = record {
  request_id = id;
  token_id = none;
  cache = none;
  cache_tokens = pos 0;
  latency_seconds = latency;
  error = some e;
  used_fallback = false;
  cache_is_delta = false;
  prefill_prefix_tokens = 0;
  prefill_logits = none;
  prefill_complete = true;
}

pub record EngineEvent : Type 0 where
  pub sequence : ℕ
  pub timestamp : ℤ
  pub event_type : EngineEventType
  pub request_id : String
  pub status : RequestStatus
  pub token_id : Option ℕ
  pub detail : Option Detail
  pub used_fallback : Bool
  pub active_requests : ℕ
  pub waiting_requests : ℕ
  pub cached_tokens : ℕ
  pub reserved_cache_tokens : ℕ

pub record Peaks : Type 0 where
  pub active : ℕ
  pub waiting : ℕ
  pub cached : ℕ
  pub reserved : ℕ
  pub lifetime_reserved : ℕ
  pub overcommitted : ℕ

-- ServingEngine, less its executor and its clock.
pub record Engine (T : Type 0) : Type 0 where
  pub config : EngineConfig
  pub pool : Option (PagedKvCachePool T)
  pub states : Dict (RequestState T)
  pub waiting_ids : List String
  pub active_ids : List String
  pub pending_cancellations : List String
  pub events : List EngineEvent
  pub last_tick_time : Option ℤ
  pub peaks : Peaks
  pub chunk_schedule_cursor : Option String
  pub chunk_resume_decode : Option String
  pub growth_blocked_request_id : Option String
  pub growth_blocked_target_tokens : ℕ
  pub growth_pressure_preemptions : ℕ
