-- ===== src/PagedKvCache/Soundness.antt =====
-- The invariant of the pool, and what follows from it about the counts of blocks.
pub mod Counts
pub mod Verify
pub mod Tables
pub mod Reserve
pub mod Grow
pub mod Extend
pub mod Prefill
pub mod Append
pub mod Release
pub mod Drain
use mini_gpt.Prelude.{
  ℕ, zero, suc, ◌+◌, ◌%◌, ◌≤◌, ◌<◌, ◌≡◌, ◌≢◌, refl, sym, ◌∙◌, ap, String, Option, none, some, Bool,
  true, false, List, [], ◌∷◌, arith, bit, ◌==◌, length, get_elem?, str_eq,
}
use mini_gpt.Prelude.Tally.{count, at, sum_at}
use mini_gpt.Dict.{Dict, get, sum_values, IsDistinct, Items}
use mini_gpt.PagedKvCache.Types.{
  PhysicalBlock, RequestTable, PagedKvCachePool, free, private, shared,
}
use mini_gpt.PagedKvCache.Blocks.{
  is_private, private_count, shared_count, protected_blocks, ceil_div,
}
use mini_gpt.PagedKvCache.Checks.{listed_ok, last, occurrences}
use mini_gpt.PagedKvCache.Accounts.{Books}
use mini_gpt.PagedKvCache.Accounts.Roles.{Role, role, role_at, at-role, sum_at-role}

-- What the pool owes to one request table.
pub record TableSound {T : Type 0} (block_tokens : ℕ) (blocks : List (PhysicalBlock T))
    (id : String) (t : RequestTable) : Type 0 where
  pub nodup : (i : ℕ) → count i t.block_ids ≤ 1
  pub logical_order : length t.block_ids ≡ ceil_div t.cache_length block_tokens
  pub within_reservation : private_count blocks t ≤ t.reserved_blocks
  pub within_max : t.reserved_blocks + shared_count blocks t ≤ t.max_blocks
  pub listed : (i : ℕ) → count i t.block_ids ≢ 0 → listed_ok blocks id i ≡ true
  pub private_tail :
      t.cache_length % block_tokens ≢ 0
      → (i : ℕ) → last t.block_ids ≡ some i
      → at (λ b. bit (is_private b)) blocks i ≡ 1

pub record IsSound {T : Type 0} (p : PagedKvCachePool T) : Type 0 where
  pub accounts : Books p (occurrences p.tables)
  pub tables : Items (TableSound p.config.block_tokens p.blocks) p.tables
  pub distinct : IsDistinct p.tables
  pub within_pool : protected_blocks p ≤ p.config.num_blocks
  pub full : length p.blocks ≡ p.config.num_blocks
  pub positive : 0 < p.config.block_tokens

listed_role : String → Option Role → Bool
listed_role id none = false
listed_role id (some r) = elim r.state [
  | private ↦ elim r.owner_request_id [ none ↦ false | some o ↦ str_eq o id ]
  | shared ↦ true
  | free ↦ false
]

pub count-last : (is : List ℕ) {i : ℕ} → last is ≡ some i → count i is ≢ 0
count-last [] e = cc
count-last (j ∷ []) {i} e = λ n. absurd (ground arith)
count-last (j ∷ k ∷ is) {i} e = λ n. count-last (k ∷ is) e (omega arith)

abbrev is_private_role : Role → ℕ
is_private_role r = bit (elim r.state [ private ↦ true | _ ↦ false ])

abbrev is_shared_role : Role → ℕ
is_shared_role r = bit (elim r.state [ shared ↦ true | _ ↦ false ])

module _ {T : Type 0} where
  listed_ok_role :
      (bs : List (PhysicalBlock T)) (id : String) (i : ℕ)
      → listed_ok bs id i ≡ listed_role id (role_at bs i)
  unfolding listed_ok listed_role
  listed_ok_role [] id i = refl
  listed_ok_role (b ∷ bs) id zero = refl
  listed_ok_role (b ∷ bs) id (suc i) = listed_ok_role bs id i

  pub listed_ok-roles :
      (bs cs : List (PhysicalBlock T)) (id : String) (i : ℕ)
      → role_at cs i ≡ role_at bs i
      → listed_ok cs id i ≡ listed_ok bs id i
  listed_ok-roles bs cs id i e =
      listed_ok_role cs id i ∙ ap (listed_role id) e ∙ sym (listed_ok_role bs id i)

  module _ (bs cs : List (PhysicalBlock T)) (t : RequestTable)
      (h : (j : ℕ) → count j t.block_ids ≢ 0 → role_at cs j ≡ role_at bs j) where
    pub private_count-role : private_count cs t ≡ private_count bs t
    unfolding private_count
    private_count-role = sum_at-role is_private_role bs cs t.block_ids h

    pub shared_count-role : shared_count cs t ≡ shared_count bs t
    unfolding shared_count
    shared_count-role = sum_at-role is_shared_role bs cs t.block_ids h

  -- A table's part of the invariant depends on the roles of its own blocks only.
  pub TableSound-role :
      (n : ℕ) (bs cs : List (PhysicalBlock T)) (id : String) (t : RequestTable)
      → ((j : ℕ) → count j t.block_ids ≢ 0 → role_at cs j ≡ role_at bs j)
      → TableSound n bs id t
      → TableSound n cs id t
  TableSound-role n bs cs id t h s = record {
    nodup = s.nodup;
    logical_order = s.logical_order;
    within_reservation = omega (arith, s.within_reservation, private_count-role bs cs t h);
    within_max = omega (arith, s.within_max, shared_count-role bs cs t h);
    listed = λ i k. listed_ok-roles bs cs id i (h i k) ∙ s.listed i k;
    private_tail = λ r i e.
        at-role is_private_role bs cs i (h i (count-last t.block_ids e)) ∙ s.private_tail r i e;
  }
