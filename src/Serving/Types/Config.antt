-- ===== src/Serving/Types/Config.antt =====
-- src/minigpt/serving.py: the configurations of the scheduler, the engine and its batches.
use mini_gpt.Prelude.{
  ℕ, suc, Option, none, some, Bool, true, false, ◌&&◌, ◌||◌, not, ltb, leb, ◌==◌, if◌then◌else◌,
  is_none, is_some,
}
use mini_gpt.Prelude.Int.{ℤ, pos, negsuc}
use mini_gpt.Exec.{Result, ok, err, bad_config}
use mini_gpt.PagedKvCache.Types.{KvCacheBackend, dense, paged, PagedKvCacheConfig}

-- A float that the configuration gives, as the fraction that it is.
pub record Ratio : Type 0 where
  pub numerator : ℕ
  pub denominator : ℕ

abbrev pub one : Ratio
one = record { numerator = 1; denominator = 1 }

abbrev pub is_one : Ratio → Bool
is_one r = r.numerator == r.denominator

abbrev pub positive_or_none : Option ℤ → Bool
positive_or_none none = true
positive_or_none (some (pos n)) = ltb 0 n
positive_or_none (some (negsuc n)) = false

abbrev pub option_ℕ : Option ℤ → Option ℕ
option_ℕ none = none
option_ℕ (some (pos n)) = some n
option_ℕ (some (negsuc n)) = none

pub record SchedulerConfig : Type 0 where
  pub max_active_requests : ℕ
  pub max_cached_tokens : ℕ
  pub max_scheduled_tokens : Option ℕ
  pub prefill_chunk_tokens : Option ℕ
  pub kv_preemption : Bool
  pub lazy_kv_reservation : Bool
  pub kv_overcommit_ratio : Ratio

abbrev pub same_presence : Option ℤ → Option ℤ → Bool
same_presence none none = true
same_presence (some a) (some b) = true
same_presence a b = false

-- SchedulerConfig.__post_init__, for a finite ratio
unfoldable pub make_scheduler :
    ℤ → ℤ → Option ℤ → Option ℤ → Bool → Bool → Ratio → Result SchedulerConfig
make_scheduler (pos (suc active)) (pos (suc cached)) scheduled chunk preemption lazy ratio =
    if same_presence scheduled chunk
      && (positive_or_none scheduled
          && (positive_or_none chunk
              && (ltb 0 ratio.denominator
                  && (leb ratio.denominator ratio.numerator
                      && ((lazy || is_one ratio) && (not lazy || preemption))))))
    then ok (record {
      max_active_requests = suc active;
      max_cached_tokens = suc cached;
      max_scheduled_tokens = option_ℕ scheduled;
      prefill_chunk_tokens = option_ℕ chunk;
      kv_preemption = preemption;
      lazy_kv_reservation = lazy;
      kv_overcommit_ratio = ratio;
    })
    else err bad_config
make_scheduler active cached scheduled chunk preemption lazy ratio = err bad_config

pub record EngineConfig : Type 0 where
  pub scheduler : SchedulerConfig
  pub block_size : ℕ
  pub kv_cache_backend : KvCacheBackend
  pub paged_kv_cache : Option PagedKvCacheConfig

-- EngineConfig.__post_init__
unfoldable pub make_engine_config :
    SchedulerConfig → ℤ → KvCacheBackend → Option PagedKvCacheConfig → Result EngineConfig
make_engine_config scheduler (pos (suc size)) backend pool =
    if elim backend [ dense ↦ is_none pool | paged ↦ is_some pool ]
    then ok (record {
      scheduler = scheduler;
      block_size = suc size;
      kv_cache_backend = backend;
      paged_kv_cache = pool;
    })
    else err bad_config
make_engine_config scheduler size backend pool = err bad_config

pub record PrefillBatchConfig : Type 0 where
  pub max_batch_size : ℕ
  pub max_batch_tokens : ℕ
  pub max_padding_ratio : Ratio

-- PrefillBatchConfig.__post_init__
unfoldable pub make_prefill_config : ℤ → ℤ → Ratio → Result PrefillBatchConfig
make_prefill_config (pos (suc size)) (pos (suc tokens)) ratio =
    if ltb 0 ratio.denominator && leb ratio.numerator ratio.denominator
    then ok (record {
      max_batch_size = suc size;
      max_batch_tokens = suc tokens;
      max_padding_ratio = ratio;
    })
    else err bad_config
make_prefill_config size tokens ratio = err bad_config
