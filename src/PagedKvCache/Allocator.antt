-- ===== src/PagedKvCache/Allocator.antt =====
-- src/minigpt/paged_kv_cache.py: the allocator. `_acquire_blocks`, `_return_blocks`,
-- `_release_table_blocks`, `_evict_one`, `_touch` and `_require_private_owner`.
use mini_gpt.Prelude.{
  ℕ, zero, suc, ◌+◌, ◌-◌, String, Option, none, some, Bool, true, false, List, [], ◌∷◌, ◌++◌, ◌&&◌,
  ◌||◌, bit, ltb, ◌==◌, str_eq, if◌then◌else◌, length, get_elem?, set,
}
use mini_gpt.Dict.{get, delete}
use mini_gpt.Exec.{
  Exec, ok, err, Error, capacity, ownership, index_error, pure, raise, guard, ◌>>=◌, ◌>>◌,
}
use mini_gpt.PagedKvCache.Types.{
  PhysicalBlock, free, private, shared, PagedKvCachePool, fresh_block,
}
use mini_gpt.PagedKvCache.Blocks.{
  is_free, is_private, is_evictable, heappush, set_contains, set_add,
}

-- min of (last_used, block_id) pairs
abbrev pub lex_ltb : ℕ × ℕ → ℕ × ℕ → Bool
lex_ltb (a, i) (b, j) = ltb a b || ((a == b) && ltb i j)

unfoldable pub least : ℕ × ℕ → List (ℕ × ℕ) → ℕ × ℕ
least c [] = c
least c (d ∷ ds) = least (if lex_ltb d c then d else c) ds

abbrev pub names_block : Option ℕ → ℕ → Bool
names_block none i = false
names_block (some j) i = j == i

module _ {T : Type 0} where
  -- The pool's blocks[i], which raises `IndexError` past the end.
  unfoldable pub block_at : ℕ → Exec (PagedKvCachePool T) (PhysicalBlock T)
  block_at i p = elim (get_elem? p.blocks i) [ none ↦ (err index_error, p) | some b ↦ (ok b, p) ]

  -- The (last_used, block_id) pairs of the blocks that may be evicted, by ascending identifier.
  unfoldable pub candidates : ℕ → List (PhysicalBlock T) → List (ℕ × ℕ)
  candidates i [] = []
  candidates i (b ∷ bs) =
      if is_evictable b then (b.last_used, i) ∷ candidates (suc i) bs else candidates (suc i) bs

  -- What `_evict_one` does to the block that it selected.
  unfoldable pub evict_block : ℕ → String → Exec (PagedKvCachePool T) Bool
  evict_block i hash p = (
    ok true,
    record p {
      prefix_index = delete p.prefix_index hash;
      blocks = set p.blocks i fresh_block;
      free_blocks = heappush p.free_blocks i;
      recent_evictions = p.recent_evictions ++ hash ∷ [];
      counters = record (p.counters) {
        free_count = p.counters.free_count + 1;
        prefix_cache_evictions = p.counters.prefix_cache_evictions + 1;
      };
    },
  )

  -- The guard of `_evict_one` on the hash of the selected block.
  unfoldable pub evict_hashed : ℕ → Option String → Exec (PagedKvCachePool T) Bool
  evict_hashed i none p = (err ownership, p)
  evict_hashed i (some hash) p =
      if names_block (get p.prefix_index hash) i then evict_block i hash p else (err ownership, p)

  unfoldable pub evict_one : Exec (PagedKvCachePool T) Bool
  evict_one p = elim (candidates 0 p.blocks) [
    | [] ↦ (ok false, p)
    | c ∷ cs ↦ (do let i = (least c cs).1; b ← block_at i; evict_hashed i b.prefix_hash) p
  ]

  abbrev pub owned_by : PhysicalBlock T → String → Bool
  owned_by b owner =
      is_private b && elim b.owner_request_id [ none ↦ false | some r ↦ str_eq r owner ]

  unfoldable pub require_private_owner : ℕ → String → Exec (PagedKvCachePool T) (Unit {0})
  require_private_owner i owner = do b ← block_at i; guard (owned_by b owner) ownership

  -- One round of the loop of `_return_blocks`.
  unfoldable pub return_block : ℕ → Exec (PagedKvCachePool T) (Unit {0})
  return_block i p = (
    ok tt,
    record p {
      blocks = set p.blocks i fresh_block;
      free_blocks = heappush p.free_blocks i;
      counters = record (p.counters) { free_count = p.counters.free_count + 1 };
    },
  )

  unfoldable pub return_blocks : List ℕ → String → Exec (PagedKvCachePool T) (Unit {0})
  return_blocks [] owner = pure tt
  return_blocks (i ∷ is) owner = do
    require_private_owner i owner
    return_block i
    return_blocks is owner

  -- while count > len(self._free_blocks) and self._evict_one(): pass
  unfoldable pub evict_until : ℕ → ℕ → Exec (PagedKvCachePool T) (Unit {0})
  evict_until zero count p = (ok tt, p)
  evict_until (suc fuel) count p = elim (ltb (length p.free_blocks) count) [
    | true ↦ (do evicted ← evict_one; if evicted then evict_until fuel count else pure tt) p
    | false ↦ (ok tt, p)
  ]

  -- What the allocation loop does to the block that it popped.
  unfoldable pub claim_block :
      ℕ → PhysicalBlock T → String → PagedKvCachePool T → PagedKvCachePool T
  claim_block i b owner p = record p {
    blocks = set p.blocks i (record b { state = private; owner_request_id = some owner });
    ever_allocated = set_add p.ever_allocated i;
    counters = record (p.counters) {
      allocation_count = p.counters.allocation_count + 1;
      block_reuse_count = p.counters.block_reuse_count + bit (set_contains p.ever_allocated i);
    };
  }

  abort_claims : List ℕ → String → Error → Exec (PagedKvCachePool T) (List ℕ)
  abort_claims acquired owner e = do return_blocks acquired owner; raise e

  -- The loop of `_acquire_blocks` with its `except` clause, from the blocks acquired so far.
  unfoldable pub claim_blocks : ℕ → String → List ℕ → Exec (PagedKvCachePool T) (List ℕ)
  unfolding abort_claims
  claim_blocks zero owner acquired p = (ok acquired, p)
  claim_blocks (suc n) owner acquired p = elim p.free_blocks [
    | [] ↦ abort_claims acquired owner index_error p
    | i ∷ rest ↦
        let popped = record p { free_blocks = rest } in
        let acquired' = acquired ++ i ∷ [] in
        elim (get_elem? p.blocks i) [
          | none ↦ abort_claims acquired' owner index_error popped
          | some b ↦ elim (is_free b) [
            | true ↦ claim_blocks n owner acquired' (claim_block i b owner popped)
            | false ↦ abort_claims acquired' owner ownership popped
          ]
        ]
  ]

  -- The eviction loop gets a round for each block of the pool: every round but the last evicts one.
  unfoldable pub acquire_blocks : ℕ → String → Exec (PagedKvCachePool T) (List ℕ)
  acquire_blocks zero owner p = (ok [], p)
  acquire_blocks (suc n) owner p =
      (do
        evict_until (length p.blocks + 1) (suc n)
        λ q.
            if ltb (length q.free_blocks) (suc n)
            then (err capacity, q)
            else claim_blocks (suc n) owner [] q)
        p

  -- _touch, on the block at an index
  unfoldable pub touch : ℕ → PhysicalBlock T → PagedKvCachePool T → PagedKvCachePool T
  touch i b p = record p {
    logical_clock = p.logical_clock + 1;
    blocks = set p.blocks i (record b { last_used = p.logical_clock + 1 });
  }

  -- One round of the loop of `_release_table_blocks`.
  unfoldable pub release_block : ℕ → PhysicalBlock T → String → Exec (PagedKvCachePool T) (Unit {0})
  release_block i b owner p = elim b.state [
    | private ↦ return_blocks (i ∷ []) owner p
    | shared ↦
        if b.active_refcount == 0
        then (err ownership, p)
        else (ok tt, touch i (record b { active_refcount = b.active_refcount - 1 }) p)
    | free ↦ (err ownership, p)
  ]

  unfoldable pub release_table_blocks : List ℕ → String → Exec (PagedKvCachePool T) (Unit {0})
  release_table_blocks [] owner = pure tt
  release_table_blocks (i ∷ is) owner = do
    b ← block_at i
    release_block i b owner
    release_table_blocks is owner
