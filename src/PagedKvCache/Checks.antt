-- ===== src/PagedKvCache/Checks.antt =====
-- src/minigpt/paged_kv_cache.py: `verify_invariants`, `metrics` as far as other operations read it, and
-- `_update_peaks`. An identifier past the end of the pool fails the check like any other mismatch.
use mini_gpt.Prelude.{
  ℕ, suc, ◌+◌, ◌%◌, max, String, Option, none, some, Bool, true, false, List, [], ◌∷◌, ◌&&◌, not,
  bit, ltb, leb, ◌==◌, str_eq, if◌then◌else◌, length, get_elem?, all,
}
use mini_gpt.Prelude.Tally.{count, total}
use mini_gpt.Dict.{Dict, get, all_items, sum_values, size}
use mini_gpt.Exec.{Exec, guard, ownership}
use mini_gpt.PagedKvCache.Types.{
  PhysicalBlock, free, private, shared, RequestTable, PagedKvCachePool,
}
use mini_gpt.PagedKvCache.Blocks.{
  is_free, is_private, is_shared, block_ok, private_count, shared_count, protected_blocks,
  allocated_blocks, set_contains, ceil_div,
}
use mini_gpt.PagedKvCache.Allocator.{names_block}

unfoldable pub no_duplicates : List ℕ → Bool
unfolding set_contains
no_duplicates [] = true
no_duplicates (i ∷ is) = not (set_contains is i) && no_duplicates is

abbrev pub same_bool : Bool → Bool → Bool
same_bool true b = b
same_bool false b = not b

abbrev pub last : List ℕ → Option ℕ
last [] = none
last (i ∷ []) = some i
last (i ∷ j ∷ is) = last (j ∷ is)

-- How often the request tables list a block.
unfoldable pub occurrences : Dict RequestTable → ℕ → ℕ
unfolding sum_values
occurrences tables i = sum_values (λ t. count i t.block_ids) tables

module _ {T : Type 0} where
  unfoldable pub all_indexed : (ℕ → PhysicalBlock T → Bool) → ℕ → List (PhysicalBlock T) → Bool
  all_indexed p k [] = true
  all_indexed p k (b ∷ bs) = p k b && all_indexed p (suc k) bs

  -- A listed block is the request's own, or shared.
  unfoldable pub listed_ok : List (PhysicalBlock T) → String → ℕ → Bool
  listed_ok blocks owner i = elim (get_elem? blocks i) [
    | none ↦ false
    | some b ↦ elim b.state [
      | private ↦ elim b.owner_request_id [ none ↦ false | some r ↦ str_eq r owner ]
      | shared ↦ true
      | free ↦ false
    ]
  ]

  abbrev pub private_at : List (PhysicalBlock T) → Option ℕ → Bool
  private_at blocks none = true
  private_at blocks (some i) = elim (get_elem? blocks i) [ none ↦ false | some b ↦ is_private b ]

  -- The checks on one request table.
  unfoldable pub table_ok : ℕ → List (PhysicalBlock T) → String → RequestTable → Bool
  unfolding no_duplicates private_count shared_count listed_ok ceil_div
  table_ok block_tokens blocks owner t =
      no_duplicates t.block_ids
      && ((length t.block_ids == ceil_div t.cache_length block_tokens)
          && (leb (private_count blocks t) t.reserved_blocks
              && (leb (t.reserved_blocks + shared_count blocks t) t.max_blocks
                  && ((if t.cache_length % block_tokens == 0
                        then true
                        else private_at blocks (last t.block_ids))
                      && all (listed_ok blocks owner) t.block_ids))))

  -- The checks on one block against the request tables and the prefix index.
  unfoldable pub references_ok : Dict RequestTable → Dict ℕ → ℕ → PhysicalBlock T → Bool
  unfolding occurrences
  references_ok tables index i b = elim b.state [
    | free ↦ true
    | private ↦ occurrences tables i == 1
    | shared ↦
        (occurrences tables i == b.active_refcount)
        && elim b.prefix_hash [ none ↦ false | some hash ↦ names_block (get index hash) i ]
  ]

  unfoldable pub consistent : PagedKvCachePool T → Bool
  unfolding no_duplicates all_indexed table_ok references_ok protected_blocks allocated_blocks
  consistent p =
      no_duplicates p.free_blocks
      && (all (λ i. ltb i (length p.blocks)) p.free_blocks
          && (all_indexed (λ i b. same_bool (set_contains p.free_blocks i) (is_free b)) 0 p.blocks
              && (all block_ok p.blocks
                  && (all_items (table_ok p.config.block_tokens p.blocks) p.tables
                      && (all_indexed (references_ok p.tables p.prefix_index) 0 p.blocks
                          && ((size p.prefix_index == total (λ b. bit (is_shared b)) p.blocks)
                              && ((length p.free_blocks + allocated_blocks p == p.config.num_blocks)
                                  && leb (protected_blocks p) p.config.num_blocks)))))))

  unfoldable pub verify_invariants : Exec (PagedKvCachePool T) (Unit {0})
  unfolding consistent
  verify_invariants p = guard (consistent p) ownership p

  unfoldable pub update_peaks : PagedKvCachePool T → PagedKvCachePool T
  unfolding protected_blocks allocated_blocks
  update_peaks p = record p {
    counters = record (p.counters) {
      peak_allocated_blocks = max p.counters.peak_allocated_blocks (allocated_blocks p);
      peak_reserved_blocks = max p.counters.peak_reserved_blocks (protected_blocks p);
    };
  }
