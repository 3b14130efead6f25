-- ===== src/PagedKvCache/Prefix/Tests.antt =====
-- Runs of the prefix cache's look-up on a pool with one resident block.
use mini_gpt.Prelude.{ℕ, ◌≡◌, refl, some, none, [], ◌∷◌}
use mini_gpt.Exec.{Ends, ok, err, ownership}
use mini_gpt.PagedKvCache.Types.{
  PagedKvCachePool, PhysicalBlock, PrefixCacheNamespace, Storage, fresh_block, shared,
}
use mini_gpt.PagedKvCache.Construct.{empty_pool}
use mini_gpt.PagedKvCache.Prefix.{Hashing, longest_prefix}
use mini_gpt.PagedKvCache.Prefix.Collisions.{HoldsPrompt, longest_prefix-HoldsPrompt}

-- Hashes that tell no blocks apart.
abbrev constant_hashing : Hashing
constant_hashing = record {
  digest = λ n. "n";
  chained = λ d parent tokens. "h";
  fingerprint = λ tokens. "f";
}

abbrev namespace : PrefixCacheNamespace
namespace = record {
  model_checkpoint_identity = "m";
  model_config_identity = "c";
  dtype = "f";
  device = "cpu";
  block_tokens = 2;
  cache_schema_version = 1;
  position_embedding_semantics = "learned";
}

abbrev blank : Storage ℕ
blank = record { key_blocks = λ _ _ _. 0; value_blocks = λ _ _ _. 0 }

abbrev resident : PhysicalBlock ℕ
resident = record {
  state = shared;
  owner_request_id = none;
  prefix_hash = some "h";
  active_refcount = 0;
  last_used = 1;
  token_fingerprint = some "f";
  token_block = some (5 ∷ 6 ∷ []);
  boundary_logits = some 9;
}

abbrev cached_pool : PagedKvCachePool ℕ
cached_pool =
    record (empty_pool (record { block_tokens = 2; num_blocks = 2 }) 1 1 1 "f" "cpu"
      (some namespace) blank) {
        blocks = resident ∷ fresh_block ∷ [];
        free_blocks = 1 ∷ [];
        prefix_index = ("h", 0) ∷ [];
      }

longest_prefix-HoldsPrompt_example :
    Ends
      (λ r q. (q ≡ cached_pool) × HoldsPrompt cached_pool (5 ∷ 6 ∷ 7 ∷ []) 0 r.0)
      (λ _ q. q ≡ cached_pool)
      (longest_prefix constant_hashing (5 ∷ 6 ∷ 7 ∷ []) cached_pool)
longest_prefix-HoldsPrompt_example =
    longest_prefix-HoldsPrompt constant_hashing cached_pool (5 ∷ 6 ∷ 7 ∷ [])

one_block : (longest_prefix constant_hashing (5 ∷ 6 ∷ 7 ∷ []) cached_pool).0 ≡ ok (0 ∷ [], "h" ∷ [])
unfolding longest_prefix mini_gpt.Dict.get mini_gpt.PagedKvCache.Allocator.block_at
one_block = refl

collision : (longest_prefix constant_hashing (5 ∷ 8 ∷ []) cached_pool).0 ≡ err ownership
unfolding longest_prefix mini_gpt.Dict.get mini_gpt.PagedKvCache.Allocator.block_at
collision = refl
