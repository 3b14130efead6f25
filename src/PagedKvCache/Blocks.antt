-- ===== src/PagedKvCache/Blocks.antt =====
-- src/minigpt/paged_kv_cache.py: what is read off the block records, and the heap of free identifiers.
use mini_gpt.Prelude.{
  ℕ, ◌+◌, ◌-◌, ◌/◌, Bool, true, false, List, [], ◌∷◌, ◌&&◌, ◌||◌, bit, ltb, leb, ◌==◌,
  if◌then◌else◌, is_some, is_none,
}
use mini_gpt.Prelude.Tally.{total, sum_at}
use mini_gpt.Dict.{sum_values}
use mini_gpt.PagedKvCache.Types.{
  PhysicalBlock, free, private, shared, RequestTable, PagedKvCachePool,
}

module _ {T : Type 0} where
  abbrev pub is_free : PhysicalBlock T → Bool
  is_free b = elim b.state [ free ↦ true | _ ↦ false ]

  abbrev pub is_private : PhysicalBlock T → Bool
  is_private b = elim b.state [ private ↦ true | _ ↦ false ]

  abbrev pub is_shared : PhysicalBlock T → Bool
  is_shared b = elim b.state [ shared ↦ true | _ ↦ false ]

  -- A shared block that some request table lists, and one that none does.
  abbrev pub is_active : PhysicalBlock T → Bool
  is_active b = is_shared b && ltb 0 b.active_refcount

  abbrev pub is_evictable : PhysicalBlock T → Bool
  is_evictable b = is_shared b && (b.active_refcount == 0)

  -- How many entries of request tables a block of this state answers for.
  abbrev pub references : PhysicalBlock T → ℕ
  references b = elim b.state [ free ↦ 0 | private ↦ 1 | shared ↦ b.active_refcount ]

  -- The metadata that `verify_invariants` allows a block of each state.
  abbrev pub block_ok : PhysicalBlock T → Bool
  block_ok b = elim b.state [
    | free ↦
        is_none b.owner_request_id
        && (is_none b.prefix_hash
            && (is_none b.token_fingerprint
                && (is_none b.token_block
                    && (is_none b.boundary_logits && (b.active_refcount == 0)))))
    | private ↦ is_some b.owner_request_id && (is_none b.prefix_hash && (b.active_refcount == 0))
    | shared ↦
        is_none b.owner_request_id
        && (is_some b.prefix_hash
            && (is_some b.token_block
                && (is_some b.token_fingerprint && is_some b.boundary_logits)))
  ]

  -- _private_count and _shared_count. Every listed identifier names a block of the pool.
  unfoldable pub private_count : List (PhysicalBlock T) → RequestTable → ℕ
  private_count blocks table = sum_at (λ b. bit (is_private b)) blocks table.block_ids

  unfoldable pub shared_count : List (PhysicalBlock T) → RequestTable → ℕ
  shared_count blocks table = sum_at (λ b. bit (is_shared b)) blocks table.block_ids

  -- _protected_blocks
  unfoldable pub protected_blocks : PagedKvCachePool T → ℕ
  protected_blocks p =
      total (λ b. bit (is_active b)) p.blocks + sum_values (λ t. t.reserved_blocks) p.tables

  -- The blocks that `metrics` counts as allocated.
  unfoldable pub allocated_blocks : PagedKvCachePool T → ℕ
  allocated_blocks p =
      total (λ b. bit (is_private b)) p.blocks + total (λ b. bit (is_shared b)) p.blocks

-- heapq.heappush: the heap is kept as the ascending list of its elements.
unfoldable pub heappush : List ℕ → ℕ → List ℕ
heappush [] i = i ∷ []
heappush (j ∷ js) i = if leb i j then i ∷ j ∷ js else j ∷ heappush js i

-- set.add
unfoldable pub set_contains : List ℕ → ℕ → Bool
set_contains [] i = false
set_contains (j ∷ js) i = (j == i) || set_contains js i

unfoldable pub set_add : List ℕ → ℕ → List ℕ
unfolding set_contains
set_add js i = if set_contains js i then js else i ∷ js

-- math.ceil(cache_tokens / block_tokens), for the positive block length of the configuration
unfoldable pub ceil_div : ℕ → ℕ → ℕ
ceil_div n d = (n + d - 1) / d
