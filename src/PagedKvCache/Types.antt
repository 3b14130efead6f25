-- ===== src/PagedKvCache/Types.antt =====
-- src/minigpt/paged_kv_cache.py, its data types. `T` stands for a slice of a torch tensor: what one
-- head-by-channel row of keys or values holds, or a row of logits. The pool only copies those.
use mini_gpt.Prelude.{ℕ, String, Option, none, List}
use mini_gpt.Prelude.Int.{ℤ, pos, negsuc}
use mini_gpt.Dict.{Dict}
use mini_gpt.Exec.{Result, ok, err, invalid}

pub data KvCacheBackend : Type 0 where
  dense paged : KvCacheBackend

pub data PhysicalBlockState : Type 0 where
  free private shared : PhysicalBlockState

pub record PagedKvCacheConfig : Type 0 where
  pub block_tokens : ℕ
  pub num_blocks : ℕ

-- PagedKVCacheConfig.__post_init__
unfoldable pub make_config : ℤ → ℤ → Result PagedKvCacheConfig
make_config (pos (ℕ.suc b)) (pos (ℕ.suc n)) =
    ok (record { block_tokens = ℕ.suc b; num_blocks = ℕ.suc n })
make_config _ _ = err invalid

-- A count that the caller may have given as a negative integer.
unfoldable pub non_negative : ℤ → Result ℕ
non_negative (pos n) = ok n
non_negative (negsuc n) = err invalid

pub record PrefixCacheNamespace : Type 0 where
  pub model_checkpoint_identity : String
  pub model_config_identity : String
  pub dtype : String
  pub device : String
  pub block_tokens : ℕ
  pub cache_schema_version : ℕ
  pub position_embedding_semantics : String

-- _MutableRequestCache, less its `request_id`, which is the key of its entry.
pub record RequestTable : Type 0 where
  pub reserved_blocks : ℕ
  pub block_ids : List ℕ
  pub cache_length : ℕ
  pub max_blocks : ℕ

pub record PhysicalBlock (T : Type 0) : Type 0 where
  pub state : PhysicalBlockState
  pub owner_request_id : Option String
  pub prefix_hash : Option String
  pub active_refcount : ℕ
  pub last_used : ℕ
  pub token_fingerprint : Option String
  pub token_block : Option (List ℕ)
  pub boundary_logits : Option T

-- _PhysicalBlock()
abbrev pub fresh_block : {T : Type 0} → PhysicalBlock T
fresh_block = record {
  state = free;
  owner_request_id = none;
  prefix_hash = none;
  active_refcount = 0;
  last_used = 0;
  token_fingerprint = none;
  token_block = none;
  boundary_logits = none;
}

-- The allocator's lifetime counters.
pub record Counters : Type 0 where
  pub peak_allocated_blocks : ℕ
  pub peak_reserved_blocks : ℕ
  pub allocation_count : ℕ
  pub free_count : ℕ
  pub block_reuse_count : ℕ
  pub prefix_cache_evictions : ℕ
  pub prefix_lookup_requests : ℕ
  pub prefix_hit_requests : ℕ
  pub prefix_hit_blocks : ℕ
  pub prefix_hit_tokens : ℕ
  pub prefix_miss_tokens : ℕ
  pub reservation_growth_count : ℕ
  pub reservation_growth_blocks : ℕ

-- key_blocks and value_blocks: the row of a layer, a block and a position in the block.
pub record Storage (T : Type 0) : Type 0 where
  pub key_blocks : ℕ → ℕ → ℕ → T
  pub value_blocks : ℕ → ℕ → ℕ → T

pub record PagedKvCachePool (T : Type 0) : Type 0 where
  pub config : PagedKvCacheConfig
  pub n_layer : ℕ
  pub n_head : ℕ
  pub head_size : ℕ
  pub dtype : String
  pub device : String
  pub prefix_cache_namespace : Option PrefixCacheNamespace
  pub storage : Storage T
  pub free_blocks : List ℕ
  pub blocks : List (PhysicalBlock T)
  pub tables : Dict RequestTable
  pub prefix_index : Dict ℕ
  pub logical_clock : ℕ
  pub recent_evictions : List String
  pub ever_allocated : List ℕ
  pub counters : Counters
