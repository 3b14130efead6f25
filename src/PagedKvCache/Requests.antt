-- ===== src/PagedKvCache/Requests.antt =====
-- src/minigpt/paged_kv_cache.py: what a request does with its table. `write_prefill`, `append`,
-- `append_delta`, `materialize`, `release` and `release_all`.
use mini_gpt.Prelude.{
  ℕ, zero, suc, ◌+◌, ◌-◌, ◌%◌, String, none, some, Bool, true, false, List, [], ◌∷◌, ◌++◌, ◌&&◌,
  ◌||◌, not, leb, ◌==◌, if◌then◌else◌, length,
}
use mini_gpt.Dict.{get, delete, keys}
use mini_gpt.Exec.{
  Exec, ok, err, Error, invalid, capacity, ownership, index_error, pure, raise, guard, on_error,
  ◌>>=◌, ◌>>◌,
}
use mini_gpt.PagedKvCache.Types.{RequestTable, PagedKvCachePool}
use mini_gpt.PagedKvCache.Blocks.{private_count}
use mini_gpt.PagedKvCache.Allocator.{acquire_blocks, return_blocks, release_table_blocks, evict_one}
use mini_gpt.PagedKvCache.Checks.{verify_invariants, last}
use mini_gpt.PagedKvCache.Reservation.{table_of, save_table, settle, required_blocks}
use mini_gpt.PagedKvCache.Storage.{KvCache, validate_cache, write_cache, write_token, gather_layers}

abbrev pub is_empty : List ℕ → Bool
is_empty [] = true
is_empty (i ∷ is) = false

module _ {T : Type 0} where
  abbrev pub validated : KvCache T → Exec (PagedKvCachePool T) ℕ
  validated cache p = (validate_cache cache p, p)

  -- _require_within_reservation
  abbrev pub require_within_reservation : RequestTable → ℕ → Exec (PagedKvCachePool T) (Unit {0})
  require_within_reservation t required = guard (leb required t.reserved_blocks) capacity

  -- except Exception: self._return_blocks(new_blocks); self.verify_invariants(); raise
  unfoldable pub undo_blocks : List ℕ → String → Error → Exec (PagedKvCachePool T) (Unit {0})
  unfolding verify_invariants
  undo_blocks new id e = do return_blocks new id; verify_invariants; raise e

  unfoldable pub store_prefill :
      String → KvCache T → ℕ → RequestTable → List ℕ → Exec (PagedKvCachePool T) (Unit {0})
  unfolding undo_blocks settle
  store_prefill id cache cache_length t new = do
    on_error (write_cache cache new cache_length) (undo_blocks new id)
    λ p.
        settle (
          save_table id (record t { block_ids = t.block_ids ++ new; cache_length = cache_length })
            p)

  unfoldable pub write_prefill : String → KvCache T → Exec (PagedKvCachePool T) (Unit {0})
  unfolding table_of store_prefill
  write_prefill id cache = do
    t ← table_of id
    guard ((t.cache_length == 0) && is_empty t.block_ids) ownership
    cache_length ← validated cache
    λ p.
        (do
          require_within_reservation t (required_blocks p cache_length)
          new ← acquire_blocks (required_blocks p cache_length) id
          store_prefill id cache cache_length t new)
          p

  -- The block that the next token goes to: a new one at a block boundary, else the last.
  unfoldable pub acquire_tail : String → RequestTable → Exec (PagedKvCachePool T) (List ℕ)
  acquire_tail id t p =
      if t.cache_length % p.config.block_tokens == 0
      then (do require_within_reservation t (private_count p.blocks t + 1); acquire_blocks 1 id) p
      else (ok [], p)

  unfoldable pub store_token :
      String → KvCache T → ℕ → RequestTable → List ℕ → Exec (PagedKvCachePool T) (Unit {0})
  unfolding settle
  store_token id cache token_index t new p = elim (last (t.block_ids ++ new)) [
    | none ↦ (err index_error, p)
    | some block_id ↦ settle (
        save_table id
          (record t { block_ids = t.block_ids ++ new; cache_length = t.cache_length + 1 })
          (write_token cache block_id (t.cache_length % p.config.block_tokens) token_index p))
  ]

  unfoldable pub append : String → KvCache T → Exec (PagedKvCachePool T) (Unit {0})
  unfolding table_of acquire_tail store_token
  append id cache = do
    t ← table_of id
    cache_length ← validated cache
    guard (cache_length == t.cache_length + 1) invalid
    new ← acquire_tail id t
    store_token id cache (cache_length - 1) t new

  unfoldable pub append_delta : String → KvCache T → Exec (PagedKvCachePool T) (Unit {0})
  unfolding table_of acquire_tail store_token
  append_delta id cache = do
    delta_length ← validated cache
    guard (delta_length == 1) invalid
    t ← table_of id
    new ← acquire_tail id t
    store_token id cache 0 t new

  unfoldable pub materialize : String → Exec (PagedKvCachePool T) (List (List T × List T))
  unfolding table_of gather_layers
  materialize id = do
    t ← table_of id
    guard (not ((t.cache_length == 0) || is_empty t.block_ids)) ownership
    λ p. (ok (gather_layers p.storage p.config.block_tokens t 0 p.n_layer), p)

  unfoldable pub release : String → Exec (PagedKvCachePool T) (Unit {0})
  unfolding verify_invariants
  release id p = elim (get p.tables id) [
    | none ↦ (err ownership, p)
    | some t ↦
        (do release_table_blocks t.block_ids id; verify_invariants)
          (record p { tables = delete p.tables id })
  ]

  unfoldable pub release_each : List String → Exec (PagedKvCachePool T) (Unit {0})
  unfolding release
  release_each [] = pure tt
  release_each (id ∷ ids) = do release id; release_each ids

  -- while self._evict_one(): pass, with a round for each block and one more
  unfoldable pub evict_all : ℕ → Exec (PagedKvCachePool T) (Unit {0})
  evict_all zero p = (ok tt, p)
  evict_all (suc fuel) p = (do evicted ← evict_one; if evicted then evict_all fuel else pure tt) p

  unfoldable pub release_all : Exec (PagedKvCachePool T) (Unit {0})
  unfolding release_each evict_all verify_invariants
  release_all p =
      (do release_each (keys p.tables); λ q. evict_all (length q.blocks + 1) q; verify_invariants) p

  -- take_recent_evictions
  unfoldable pub take_recent_evictions : Exec (PagedKvCachePool T) (List String)
  take_recent_evictions p = (ok p.recent_evictions, record p { recent_evictions = [] })
