-- ===== src/PagedKvCache/Soundness/Verify.antt =====
-- The run-time check `verify_invariants` passes on every sound pool.
use mini_gpt.Prelude.{
  ℕ, suc, ◌+◌, ◌%◌, ◌≤◌, ◌≡◌, ◌≢◌, refl, ◌∙◌, ap, String, Option, none, some, Bool, true, false,
  List, [], ◌∷◌, arith, bit, ltb, ◌==◌, if◌then◌else◌, length, get_elem?, get_elem?_bound, all,
  Bool-cases, inl, inr, lt→ltb, le→leb, ==_iff,
}
use mini_gpt.Prelude.Tally.{count, at, at-some, at_pos}
use mini_gpt.Dict.{Dict, get, Items, all_items}
use mini_gpt.Exec.{ok}
use mini_gpt.PagedKvCache.Types.{PhysicalBlock, RequestTable, PagedKvCachePool}
use mini_gpt.PagedKvCache.Blocks.{
  is_free, is_private, is_shared, references, block_ok, set_contains, protected_blocks,
}
use mini_gpt.PagedKvCache.Allocator.{names_block}
use mini_gpt.PagedKvCache.Checks.{
  no_duplicates, all_indexed, table_ok, references_ok, consistent, verify_invariants, update_peaks,
  listed_ok, occurrences, same_bool, private_at, last,
}
use mini_gpt.PagedKvCache.Reservation.{settle}
use mini_gpt.PagedKvCache.Accounts.{IsIndexed, bit_self}
use mini_gpt.PagedKvCache.Soundness.{TableSound, IsSound}
use mini_gpt.PagedKvCache.Soundness.Counts.{free_plus_allocated}

set_contains-count : (is : List ℕ) (i : ℕ) → set_contains is i ≡ ltb 0 (count i is)
unfolding set_contains
set_contains-count [] i = refl
set_contains-count (j ∷ is) i = ground (arith, set_contains-count is i)

no_duplicates_of : (is : List ℕ) → ((i : ℕ) → count i is ≤ 1) → no_duplicates is ≡ true
unfolding no_duplicates
no_duplicates_of [] h = refl
no_duplicates_of (i ∷ is) h =
    ground (
      arith,
      set_contains-count is i,
      h i,
      bit_self i,
      no_duplicates_of is (λ j. omega (arith, h j)),
    )

all_of : (p : ℕ → Bool) (is : List ℕ) → ((i : ℕ) → count i is ≢ 0 → p i ≡ true) → all p is ≡ true
all_of p [] h = refl
all_of p (i ∷ is) h =
    let u : p i ≡ true = h i (λ e. absurd (omega (arith, bit_self i))) in
    rw u (all_of p is (λ j n. h j (λ e. n (omega arith))))

indexed_name :
    (index : Dict ℕ) (o : Option String) (i : ℕ)
    → IsIndexed index o i
    → elim o [ none ↦ false | some hash ↦ names_block (get index hash) i ] ≡ true
indexed_name index none i h = absurd h
indexed_name index (some hash) i h = rw h ((==_iff i i).1 refl)

module _ {T : Type 0} where
  all_indexed_of :
      (p : ℕ → PhysicalBlock T → Bool) (k : ℕ) (bs : List (PhysicalBlock T))
      → ((j i : ℕ) (b : PhysicalBlock T) → j ≡ k + i → get_elem? bs i ≡ some b → p j b ≡ true)
      → all_indexed p k bs ≡ true
  unfolding all_indexed
  all_indexed_of p k [] h = refl
  all_indexed_of p k (b ∷ bs) h =
      rw (h k 0 b (omega arith) refl)
        (all_indexed_of p (suc k) bs (λ j i c e g. h j (suc i) c (omega arith) g))

  all_get :
      (p : PhysicalBlock T → Bool) (bs : List (PhysicalBlock T))
      → ((i : ℕ) (b : PhysicalBlock T) → get_elem? bs i ≡ some b → p b ≡ true)
      → all p bs ≡ true
  all_get p [] h = refl
  all_get p (b ∷ bs) h = rw (h 0 b refl) (all_get p bs (λ i c g. h (suc i) c g))

  private_at_of :
      (bs : List (PhysicalBlock T)) (o : Option ℕ)
      → ((i : ℕ) → o ≡ some i → at (λ b. bit (is_private b)) bs i ≡ 1)
      → private_at bs o ≡ true
  private_at_of bs none h = refl
  private_at_of bs (some i) h =
      let (b, here, w) =
        at_pos (λ (c : PhysicalBlock T). bit (is_private c)) bs i (omega (arith, h i refl)) in
      rw (here, private_at) (ground (arith, h i refl, w))

  table_ok_of :
      (n : ℕ) (bs : List (PhysicalBlock T)) (id : String) (t : RequestTable)
      → TableSound n bs id t
      → table_ok n bs id t ≡ true
  unfolding table_ok
  table_ok_of n bs id t s = rw (no_duplicates_of t.block_ids s.nodup) (
      rw ((==_iff _ _).1 s.logical_order) (
        rw (le→leb _ _ s.within_reservation)
          (rw (le→leb _ _ s.within_max) (rw tail (all_of (listed_ok bs id) t.block_ids s.listed)))))
    where
      tail : (if t.cache_length % n == 0 then true else private_at bs (last t.block_ids)) ≡ true
      tail = elim (Bool-cases (t.cache_length % n == 0)) [
        | inl e ↦ rw e
        | inr e ↦ rw e (private_at_of bs (last t.block_ids) (s.private_tail (ground arith)))
      ]

  all_items_of :
      (n : ℕ) (bs : List (PhysicalBlock T)) (m : Dict RequestTable)
      → Items (TableSound n bs) m
      → all_items (table_ok n bs) m ≡ true
  unfolding all_items
  all_items_of n bs [] h = refl
  all_items_of n bs ((id, t) ∷ m) (h, hs) = rw (table_ok_of n bs id t h) (all_items_of n bs m hs)

  references_ok_of :
      (p : PagedKvCachePool T)
      → IsSound p
      → (i : ℕ) (b : PhysicalBlock T) → get_elem? p.blocks i ≡ some b
      → references_ok p.tables p.prefix_index i b ≡ true
  unfolding references_ok
  references_ok_of p s i b here =
      let held : occurrences p.tables i ≡ references b =
        s.accounts.held_tally i ∙ at-some references p.blocks i here in
      ground (
        arith,
        held,
        λ (h : is_shared b ≡ true).
            indexed_name p.prefix_index b.prefix_hash i (s.accounts.indexed i b here h),
      )

  free_listed :
      (p : PagedKvCachePool T)
      → IsSound p
      → (i : ℕ) (b : PhysicalBlock T) → get_elem? p.blocks i ≡ some b
      → same_bool (set_contains p.free_blocks i) (is_free b) ≡ true
  free_listed p s i b here =
      let w = at-some (λ (c : PhysicalBlock T). bit (is_free c)) p.blocks i here in
      ground (arith, set_contains-count p.free_blocks i, s.accounts.free_tally i, w)

  heap_in_pool :
      (p : PagedKvCachePool T)
      → IsSound p
      → (i : ℕ) → count i p.free_blocks ≢ 0
      → ltb i (length p.blocks) ≡ true
  heap_in_pool p s i n =
      let (b, here, w) =
        at_pos (λ (c : PhysicalBlock T). bit (is_free c)) p.blocks i
          (omega (arith, s.accounts.free_tally i)) in
      lt→ltb _ _ (get_elem?_bound p.blocks i here)

  heap_once : (p : PagedKvCachePool T) → IsSound p → (i : ℕ) → count i p.free_blocks ≤ 1
  heap_once p s i = elim (Bool-cases (ltb 0 (count i p.free_blocks))) [
    | inl e ↦
        let (b, here, w) =
          at_pos (λ (c : PhysicalBlock T). bit (is_free c)) p.blocks i
            (ground (arith, s.accounts.free_tally i)) in
        ground (arith, s.accounts.free_tally i, w)
    | inr e ↦ ground arith
  ]

  -- The check passes.
  pub consistent_of : (p : PagedKvCachePool T) → IsSound p → consistent p ≡ true
  unfolding consistent
  consistent_of p s = rw (no_duplicates_of p.free_blocks (heap_once p s)) (
      rw (all_of (λ i. ltb i (length p.blocks)) p.free_blocks (heap_in_pool p s)) (
        rw (all_indexed_of _ 0 p.blocks (λ j i b e here. free_listed p s j b (moved i j b e here)))
          (rw (all_get block_ok p.blocks s.accounts.well_formed) (
            rw (all_items_of p.config.block_tokens p.blocks p.tables s.tables) (
              rw
                (all_indexed_of _ 0 p.blocks
                  (λ j i b e here. references_ok_of p s j b (moved i j b e here)))
                (rw ((==_iff _ _).1 s.accounts.index_size)
                  (rw ((==_iff _ _).1 (free_plus_allocated p s)) (le→leb _ _ s.within_pool))))))))
    where
      moved :
          (i j : ℕ) (b : PhysicalBlock T)
          → j ≡ 0 + i
          → get_elem? p.blocks i ≡ some b
          → get_elem? p.blocks j ≡ some b
      moved i j b e here = let q : j ≡ i = omega arith in ap (get_elem? p.blocks) q ∙ here

  pub update_peaks-IsSound : (p : PagedKvCachePool T) → IsSound p → IsSound (update_peaks p)
  unfolding update_peaks protected_blocks
  update_peaks-IsSound p s = record {
    accounts = s.accounts;
    tables = s.tables;
    distinct = s.distinct;
    within_pool = s.within_pool;
    full = s.full;
    positive = s.positive;
  }

  -- On a sound pool `verify_invariants` raises nothing and changes nothing.
  pub verify-IsSound : (p : PagedKvCachePool T) → IsSound p → verify_invariants p ≡ (ok tt, p)
  unfolding verify_invariants
  verify-IsSound p s = rw (consistent_of p s)

  -- A sound pool passes the closing check of an operation, which then moves the peaks only.
  pub settle-IsSound : (p : PagedKvCachePool T) → IsSound p → settle p ≡ (ok tt, update_peaks p)
  unfolding settle
  settle-IsSound p s = verify-IsSound (update_peaks p) (update_peaks-IsSound p s)
