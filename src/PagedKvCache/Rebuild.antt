-- ===== src/PagedKvCache/Rebuild.antt =====
-- src/minigpt/paged_kv_cache.py: `write_prefill_suffix` and `rebuild`, with their rollbacks.
use mini_gpt.Prelude.{
  ℕ, ◌+◌, ◌-◌, ◌%◌, String, Bool, true, false, List, [], ◌∷◌, ◌++◌, not, ltb, ◌==◌, if◌then◌else◌,
  is_some, length, take, drop,
}
use mini_gpt.Exec.{Exec, ok, err, Error, capacity, ownership, raise, guard, on_error, ◌>>=◌, ◌>>◌}
use mini_gpt.PagedKvCache.Types.{RequestTable, PagedKvCachePool, Storage}
use mini_gpt.PagedKvCache.Blocks.{shared_count, set_contains}
use mini_gpt.PagedKvCache.Allocator.{acquire_blocks, return_blocks, release_table_blocks}
use mini_gpt.PagedKvCache.Checks.{verify_invariants}
use mini_gpt.PagedKvCache.Reservation.{table_of, save_table, settle, required_blocks, current_total}
use mini_gpt.PagedKvCache.Storage.{KvCache, write_cache}
use mini_gpt.PagedKvCache.Requests.{validated, require_within_reservation, undo_blocks}

module _ {T : Type 0} where
  abbrev pub is_empty_cache : KvCache T → Bool
  is_empty_cache [] = true
  is_empty_cache (l ∷ ls) = false

  -- What `write_prefill_suffix` does with a cache that has layers.
  unfoldable pub extend_prefill :
      String → KvCache T → RequestTable → ℕ → Exec (PagedKvCachePool T) (Unit {0})
  unfolding undo_blocks settle shared_count
  extend_prefill id cache t delta_length p =
      let new_length = t.cache_length + delta_length in
      let required = required_blocks p new_length in
      (do
        require_within_reservation t (required - shared_count p.blocks t)
        new ← acquire_blocks (required - length t.block_ids) id
        on_error (write_cache cache new delta_length) (undo_blocks new id)
        λ q. settle (
            save_table id (record t { block_ids = t.block_ids ++ new; cache_length = new_length })
              q))
        p

  unfoldable pub write_prefill_suffix : String → KvCache T → Exec (PagedKvCachePool T) (Unit {0})
  unfolding table_of extend_prefill verify_invariants
  write_prefill_suffix id cache = do
    t ← table_of id
    λ p. guard (t.cache_length % p.config.block_tokens == 0) ownership p
    if is_empty_cache cache
        then verify_invariants
        else (do delta_length ← validated cache; extend_prefill id cache t delta_length)

  -- self.key_blocks[:, old_ids] = old_key, and the same for the values
  abbrev pub restore_rows : List ℕ → Storage T → Storage T → Storage T
  restore_rows ids old s = record {
    key_blocks = λ l b o. if set_contains ids b then old.key_blocks l b o else s.key_blocks l b o;
    value_blocks =
        λ l b o. if set_contains ids b then old.value_blocks l b o else s.value_blocks l b o;
  }

  -- The `except` clause of `_rebuild_private_cache`. The table was not touched yet.
  unfoldable pub undo_rebuild :
      List ℕ → List ℕ → String → Storage T → Error → Exec (PagedKvCachePool T) (Unit {0})
  unfolding verify_invariants
  undo_rebuild old_ids new id old e = do
    λ p. (ok tt, record p { storage = restore_rows old_ids old p.storage })
    return_blocks new id
    verify_invariants
    raise e

  unfoldable pub rebuild_private_cache :
      String → RequestTable → KvCache T → ℕ → ℕ → Exec (PagedKvCachePool T) (Unit {0})
  unfolding undo_rebuild settle
  rebuild_private_cache id t cache cache_length required p =
      (do
        require_within_reservation t required
        new ← acquire_blocks (required - length t.block_ids) id
        on_error (write_cache cache (take required (t.block_ids ++ new)) cache_length)
            (undo_rebuild t.block_ids new id p.storage)
        return_blocks (drop required t.block_ids) id
        λ q. settle (
            save_table id
              (record t {
                block_ids = take required (t.block_ids ++ new);
                cache_length = cache_length;
              })
              q))
        p

  -- The `try` block of `rebuild` where the prefix cache is on.
  unfoldable pub replace_cache :
      String → RequestTable → KvCache T → ℕ → ℕ → ℕ → Exec (PagedKvCachePool T) (Unit {0})
  replace_cache id t cache cache_length required reserved = do
    release_table_blocks t.block_ids id
    λ p. (
      ok tt,
      save_table id (record t { block_ids = []; cache_length = 0; reserved_blocks = reserved }) p,
    )
    candidate ← acquire_blocks required id
    write_cache cache candidate cache_length
    λ p. (
      ok tt,
      save_table id
          (record t {
            block_ids = candidate;
            cache_length = cache_length;
            reserved_blocks = reserved;
          })
          p,
    )

  -- The snapshots are put back. Counters, clock and eviction notices are not among them.
  unfoldable pub restore_snapshot :
      PagedKvCachePool T → Error → Exec (PagedKvCachePool T) (Unit {0})
  unfolding verify_invariants
  restore_snapshot before e = do
    λ p. (
      ok tt,
      record p {
        storage = before.storage;
        blocks = before.blocks;
        tables = before.tables;
        free_blocks = before.free_blocks;
        prefix_index = before.prefix_index;
      },
    )
    verify_invariants
    raise e

  unfoldable pub rebuild : String → KvCache T → Exec (PagedKvCachePool T) (Unit {0})
  unfolding table_of rebuild_private_cache replace_cache restore_snapshot settle shared_count
  rebuild id cache = do
    t ← table_of id
    cache_length ← validated cache
    λ p.
        if not (is_some p.prefix_cache_namespace)
        then rebuild_private_cache id t cache cache_length (required_blocks p cache_length) p
        else if ltb (current_total t p) (required_blocks p cache_length)
        then (err capacity, p)
        else (do
          on_error
              (replace_cache id t cache cache_length (required_blocks p cache_length)
                (current_total t p))
              (restore_snapshot p)
          settle)
            p
