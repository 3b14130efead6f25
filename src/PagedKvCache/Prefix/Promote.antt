-- ===== src/PagedKvCache/Prefix/Promote.antt =====
-- src/minigpt/paged_kv_cache.py: `promote_prompt_blocks`. The logits of the suffix are a list of
-- rows, so their number of dimensions is not tested. A private block is counted in its request's
-- reservation, which is therefore not zero where a block is promoted.
use mini_gpt.Prelude.{
  ℕ, suc, ◌+◌, ◌-◌, ◌*◌, ◌/◌, ◌%◌, String, none, some, List, [], ◌∷◌, is_some, ltb, ◌==◌,
  if◌then◌else◌, length, get_elem?, set,
}
use mini_gpt.Dict.{get, put}
use mini_gpt.Exec.{
  Exec, ok, err, Error, invalid, ownership, index_error, pure, raise, guard, on_error, ◌>>=◌, ◌>>◌,
}
use mini_gpt.PagedKvCache.Types.{PagedKvCachePool, shared}
use mini_gpt.PagedKvCache.Allocator.{block_at, require_private_owner, return_blocks, touch}
use mini_gpt.PagedKvCache.Checks.{verify_invariants}
use mini_gpt.PagedKvCache.Reservation.{table_of, save_table}
use mini_gpt.PagedKvCache.Requests.{take_recent_evictions}
use mini_gpt.PagedKvCache.Prefix.{
  Hashing, token_block, require_prefix_namespace, prefix_hash_chain, validate_canonical,
}

pub record PrefixCachePromotion : Type 0 where
  pub promoted_blocks : ℕ
  pub duplicate_private_blocks_released : ℕ
  pub evicted_prefix_hashes : List String

module _ {T : Type 0} where
  abbrev pub element : {A : Type 0} → List A → ℕ → Exec (PagedKvCachePool T) A
  element xs i p = elim (get_elem? xs i) [ none ↦ (err index_error, p) | some x ↦ (ok x, p) ]

  -- A private block becomes the canonical block of its hash.
  unfoldable pub make_canonical :
      String → ℕ → String → List ℕ → String → T → Exec (PagedKvCachePool T) (Unit {0})
  make_canonical id i hash tokens fingerprint logits = do
    b ← block_at i
    require_private_owner i id
    λ p. (
      ok tt,
      touch i
          (record b {
            state = shared;
            owner_request_id = none;
            prefix_hash = some hash;
            active_refcount = 1;
            token_fingerprint = some fingerprint;
            token_block = some tokens;
            boundary_logits = some logits;
          })
          p,
    )
    λ p. (ok tt, record p { prefix_index = put p.prefix_index hash i })
    t ← table_of id
    λ p. (ok tt, save_table id (record t { reserved_blocks = t.reserved_blocks - 1 }) p)

  -- A duplicate is given back, and the table lists the canonical block instead.
  unfoldable pub share_canonical :
      String → ℕ → ℕ → ℕ → String → List ℕ → String → Exec (PagedKvCachePool T) (Unit {0})
  unfolding validate_canonical
  share_canonical id k i canonical hash tokens fingerprint = do
    validate_canonical canonical hash tokens fingerprint
    c ← block_at canonical
    guard (is_some c.boundary_logits) ownership
    λ p. (ok tt, touch canonical (record c { active_refcount = c.active_refcount + 1 }) p)
    t ← table_of id
    λ p. (ok tt, save_table id (record t { block_ids = set t.block_ids k canonical }) p)
    return_blocks (i ∷ []) id
    t' ← table_of id
    λ p. (ok tt, save_table id (record t' { reserved_blocks = t'.reserved_blocks - 1 }) p)

module _ {T : Type 0} (hashing : Hashing) where
  -- One round of the loop: how many blocks it promoted, and how many duplicates it gave back.
  unfoldable pub promote_block :
      String → List ℕ → ℕ → List T → ℕ → String → Exec (PagedKvCachePool T) (ℕ × ℕ)
  unfolding table_of validate_canonical make_canonical share_canonical
  promote_block id prompt prefix_hit_tokens logits k hash p =
      let start = k * p.config.block_tokens in
      let tokens = token_block p.config.block_tokens start prompt in
      let fingerprint = hashing.fingerprint tokens in
      (do
        t ← table_of id
        i ← element t.block_ids k
        if ltb k (prefix_hit_tokens / p.config.block_tokens)
            then (do validate_canonical i hash tokens fingerprint; pure (0, 0))
            else (do
              row ← element logits (start + p.config.block_tokens - 1 - prefix_hit_tokens)
              λ q. elim (get q.prefix_index hash) [
                | none ↦ (do make_canonical id i hash tokens fingerprint row; pure (1, 0)) q
                | some c ↦ (do share_canonical id k i c hash tokens fingerprint; pure (0, 1)) q
              ]))
        p

  unfoldable pub promote_each :
      String → List ℕ → ℕ → List T → ℕ → List String → Exec (PagedKvCachePool T) (ℕ × ℕ)
  unfolding promote_block
  promote_each id prompt prefix_hit_tokens logits k [] = pure (0, 0)
  promote_each id prompt prefix_hit_tokens logits k (hash ∷ hashes) = do
    one ← promote_block id prompt prefix_hit_tokens logits k hash
    rest ← promote_each id prompt prefix_hit_tokens logits (suc k) hashes
    pure (one.0 + rest.0, one.1 + rest.1)

  -- The `except` clause: what was snapshotted is put back.
  unfoldable pub undo_promotion : PagedKvCachePool T → Error → Exec (PagedKvCachePool T) (ℕ × ℕ)
  unfolding verify_invariants
  undo_promotion before e = do
    λ p. (
      ok tt,
      record p {
        blocks = before.blocks;
        tables = before.tables;
        free_blocks = before.free_blocks;
        prefix_index = before.prefix_index;
        logical_clock = before.logical_clock;
        counters = record (p.counters) { free_count = before.counters.free_count };
      },
    )
    verify_invariants
    raise e

  unfoldable pub promote_prompt_blocks :
      String → List ℕ → ℕ → List T → Exec (PagedKvCachePool T) PrefixCachePromotion
  unfolding table_of prefix_hash_chain promote_each undo_promotion verify_invariants
      take_recent_evictions
  promote_prompt_blocks id prompt prefix_hit_tokens logits = do
    require_prefix_namespace
    t ← table_of id
    λ p. guard (prefix_hit_tokens % p.config.block_tokens == 0) invalid p
    guard (t.cache_length == length prompt) ownership
    guard (length logits + prefix_hit_tokens == length prompt) invalid
    hashes ← prefix_hash_chain hashing prompt
    counts ← λ p.
        on_error (promote_each id prompt prefix_hit_tokens logits 0 hashes) (undo_promotion p) p
    verify_invariants
    evicted ← take_recent_evictions
    pure (record {
      promoted_blocks = counts.0;
      duplicate_private_blocks_released = counts.1;
      evicted_prefix_hashes = evicted;
    })
