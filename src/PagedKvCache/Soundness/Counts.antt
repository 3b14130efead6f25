-- ===== src/PagedKvCache/Soundness/Counts.antt =====
-- Counting blocks two ways: the tables' reservations leave room for what they may still allocate.
use mini_gpt.Prelude.{
  ℕ, zero, suc, ◌+◌, ◌*◌, ◌≤◌, ◌≡◌, ◌≢◌, refl, sym, ◌∙◌, String, some, Bool, List, [], ◌∷◌, ◌++◌,
  arith, bit, length,
}
use mini_gpt.Prelude.Tally.{count, count-append, at, total, sum_at, sum_at-append, sum_at-total}
use mini_gpt.Dict.{Dict, get, sum_values, Items}
use mini_gpt.PagedKvCache.Types.{PhysicalBlock, RequestTable, PagedKvCachePool}
use mini_gpt.PagedKvCache.Blocks.{
  is_free, is_private, is_shared, is_active, is_evictable, references, private_count,
  protected_blocks, allocated_blocks,
}
use mini_gpt.PagedKvCache.Checks.{occurrences}
use mini_gpt.PagedKvCache.Accounts.{Accounts, bit_self}
use mini_gpt.PagedKvCache.Accounts.Acquire.{evictable}
use mini_gpt.PagedKvCache.Soundness.{TableSound, IsSound}

table_ids : Dict RequestTable → List ℕ
table_ids [] = []
table_ids ((id, t) ∷ m) = t.block_ids ++ table_ids m

count-table_ids : (i : ℕ) (m : Dict RequestTable) → count i (table_ids m) ≡ occurrences m i
unfolding table_ids occurrences
count-table_ids i [] = refl
count-table_ids i ((id, t) ∷ m) =
    omega (arith, count-append i t.block_ids (table_ids m), count-table_ids i m)

module _ {T : Type 0} where
  sum_at-table_ids :
      (g : PhysicalBlock T → ℕ) (bs : List (PhysicalBlock T)) (m : Dict RequestTable)
      → sum_at g bs (table_ids m) ≡ sum_values (λ t. sum_at g bs t.block_ids) m
  unfolding table_ids sum_values
  sum_at-table_ids g bs [] = refl
  sum_at-table_ids g bs ((id, t) ∷ m) =
      omega (arith, sum_at-append g bs t.block_ids (table_ids m), sum_at-table_ids g bs m)

  total_congr :
      (f g : PhysicalBlock T → ℕ) (bs : List (PhysicalBlock T))
      → ((b : PhysicalBlock T) → f b ≡ g b)
      → total f bs ≡ total g bs
  total_congr f g [] h = refl
  total_congr f g (b ∷ bs) h = omega (arith, h b, total_congr f g bs h)

  -- Every private block is counted in the table of exactly one request.
  pub private_total :
      {heap : List ℕ} {index : Dict ℕ} (bs : List (PhysicalBlock T)) (m : Dict RequestTable)
      → Accounts bs heap index (occurrences m)
      → sum_values (private_count bs) m ≡ total (λ b. bit (is_private b)) bs
  unfolding private_count
  private_total bs m a =
      sym (sum_at-table_ids (λ b. bit (is_private b)) bs m)
      ∙ sum_at-total references (λ b. bit (is_private b)) bs (table_ids m)
          (λ i. count-table_ids i m ∙ a.held_tally i)
      ∙ total_congr _ (λ b. bit (is_private b)) bs (λ b. weigh b)
    where
      weigh : (b : PhysicalBlock T) → references b * bit (is_private b) ≡ bit (is_private b)
      weigh b = ground arith

  at-bit :
      (f : PhysicalBlock T → Bool) (bs : List (PhysicalBlock T)) (i : ℕ)
      → at (λ b. bit (f b)) bs i ≤ 1
  at-bit f [] i = omega arith
  at-bit f (b ∷ bs) zero = ground arith
  at-bit f (b ∷ bs) (suc i) = at-bit f bs i

  sum_at_ones :
      (g : PhysicalBlock T → ℕ) (bs : List (PhysicalBlock T)) (is : List ℕ)
      → ((i : ℕ) → count i is ≢ 0 → at g bs i ≡ 1)
      → sum_at g bs is ≡ length is
  sum_at_ones g bs [] h = refl
  sum_at_ones g bs (i ∷ is) h = omega (
    arith,
    h i (λ e. absurd (omega (arith, bit_self i))),
    sum_at_ones g bs is (λ j n. h j (λ e. n (omega arith))),
  )

  -- The heap is as long as there are free blocks.
  pub length_heap :
      {index : Dict ℕ} {held : ℕ → ℕ} (bs : List (PhysicalBlock T)) (heap : List ℕ)
      → Accounts bs heap index held
      → length heap ≡ total (λ b. bit (is_free b)) bs
  length_heap bs heap a =
      sym (
        sum_at_ones (λ b. bit (is_free b)) bs heap
          (λ i n. omega (arith, a.free_tally i, at-bit (λ b. is_free b) bs i)))
      ∙ sum_at-total (λ b. bit (is_free b)) (λ b. bit (is_free b)) bs heap a.free_tally
      ∙ total_congr _ (λ b. bit (is_free b)) bs (λ b. weigh b)
    where
      weigh : (b : PhysicalBlock T) → bit (is_free b) * bit (is_free b) ≡ bit (is_free b)
      weigh b = ground arith

  pub states_partition :
      (bs : List (PhysicalBlock T))
      → total (λ b. bit (is_free b)) bs
          + total (λ b. bit (is_private b)) bs
          + total (λ b. bit (is_shared b)) bs
        ≡ length bs
  states_partition [] = refl
  states_partition (b ∷ bs) =
      let u : bit (is_free b) + bit (is_private b) + bit (is_shared b) ≡ 1 = ground arith in
      omega (arith, u, states_partition bs)

  pub shared_partition :
      (bs : List (PhysicalBlock T))
      → total (λ b. bit (is_active b)) bs + total (λ b. bit (is_evictable b)) bs
        ≡ total (λ b. bit (is_shared b)) bs
  shared_partition [] = refl
  shared_partition (b ∷ bs) =
      let u : bit (is_active b) + bit (is_evictable b) ≡ bit (is_shared b) = ground arith in
      omega (arith, u, shared_partition bs)

  private-le-reserved :
      (n : ℕ) (bs : List (PhysicalBlock T)) (m : Dict RequestTable)
      → Items (TableSound n bs) m
      → sum_values (private_count bs) m ≤ sum_values (λ t. t.reserved_blocks) m
  unfolding sum_values
  private-le-reserved n bs [] h = omega arith
  private-le-reserved n bs ((id, t) ∷ m) (h, hs) =
      omega (arith, h.within_reservation, private-le-reserved n bs m hs)

  unused_reservation :
      (n : ℕ) (bs : List (PhysicalBlock T)) (m : Dict RequestTable) (id : String) (t : RequestTable)
      → Items (TableSound n bs) m
      → get m id ≡ some t
      → sum_values (private_count bs) m + t.reserved_blocks
        ≤ sum_values (λ t. t.reserved_blocks) m + private_count bs t
  unfolding sum_values get
  unused_reservation n bs [] id t h e = cc
  unused_reservation n bs ((j, u) ∷ m) id t (h, hs) e = ground (
    arith,
    h.within_reservation,
    private-le-reserved n bs m hs,
    unused_reservation n bs m id t hs,
  )

  -- In a sound pool, what a request has reserved and not yet allocated is free, or idle in the
  -- prefix cache: so many blocks are in the heap or evictable.
  pub reservation_backed :
      (p : PagedKvCachePool T) (id : String) (t : RequestTable) (n : ℕ)
      → IsSound p
      → get p.tables id ≡ some t
      → private_count p.blocks t + n ≤ t.reserved_blocks
      → n ≤ length p.free_blocks + evictable p
  unfolding protected_blocks
  reservation_backed p id t n s e h = omega (
    arith,
    s.within_pool,
    s.full,
    unused_reservation p.config.block_tokens p.blocks p.tables id t s.tables e,
    private_total p.blocks p.tables s.accounts,
    length_heap p.blocks p.free_blocks s.accounts,
    states_partition p.blocks,
    shared_partition p.blocks,
  )

  -- In a sound pool the free and the allocated blocks together are all blocks of the
  -- configuration.
  pub free_plus_allocated :
      (p : PagedKvCachePool T)
      → IsSound p
      → length p.free_blocks + allocated_blocks p ≡ p.config.num_blocks
  unfolding allocated_blocks
  free_plus_allocated p s =
      omega
        (arith, s.full, length_heap p.blocks p.free_blocks s.accounts, states_partition p.blocks)
