-- ===== src/PagedKvCache/Accounts/Evict.antt =====
-- Eviction: `_evict_one` takes the least recently used shared block that no table lists.
mod Least
pub mod Step
use mini_gpt.Prelude.{
  ℕ, zero, suc, ◌+◌, ◌≤◌, ◌<◌, ◌≡◌, ◌≢◌, refl, sym, ◌∙◌, ap, String, Option, none, some, Bool, true,
  false, List, [], ◌∷◌, arith, bit, ◌==◌, length, get_elem?, set, length-set, get_elem?-set_ne,
  get_elem?_bound, ◌⊎◌, inl, inr, Bool-cases, some-eq, ltb, List-cases, Option-cases, eq_iff,
  str_eq, ==_iff, if◌then◌else◌,
}
use mathlib.Core.Path.{subst}
use mini_gpt.Prelude.Tally.{count, at, total, at-some, total-set}
use mini_gpt.Dict.{get, delete, size, get-delete_ne, IsDistinct-delete, size-delete}
use mini_gpt.Exec.{ok}
use mini_gpt.PagedKvCache.Types.{
  PhysicalBlock, free, private, shared, PagedKvCachePool, fresh_block,
}
use mini_gpt.PagedKvCache.Blocks.{
  is_free, is_shared, is_active, is_evictable, references, block_ok, heappush,
}
use mini_gpt.PagedKvCache.Allocator.{
  candidates, least, lex_ltb, evict_one, evict_hashed, evict_block, block_at, names_block,
}
use mini_gpt.PagedKvCache.Accounts.{
  Accounts, Books, Accounts-set, IsIndexed, bit_ne, bit_self, count-heappush, length-heappush,
  ne-or-eq,
}
use mini_gpt.PagedKvCache.Accounts.Frame.{Worked, Same}
use Least.{All, All-map, All-least, least_min}

module _ {T : Type 0} where
  pub length-candidates :
      (i : ℕ) (bs : List (PhysicalBlock T))
      → length (candidates i bs) ≡ total (λ b. bit (is_evictable b)) bs
  unfolding candidates
  length-candidates i [] = refl
  length-candidates i (b ∷ bs) = elim (Bool-cases (is_evictable b)) [
    | inl e ↦ rw e (omega (arith, length-candidates (suc i) bs))
    | inr e ↦ rw e (omega (arith, length-candidates (suc i) bs))
  ]

  -- A candidate is the age and the place of an evictable block; `k` blocks stand before the list.
  abbrev pub IsCandidate : ℕ → List (PhysicalBlock T) → ℕ × ℕ → Type 0
  IsCandidate k bs (age, i) =
      (j : ℕ) × (b : PhysicalBlock T) × (i ≡ k + j)
      × (get_elem? bs j ≡ some b)
      × (is_evictable b ≡ true)
      × (b.last_used ≡ age)

module _ {T : Type 0} where
  candidates_sound :
      (k : ℕ) (bs : List (PhysicalBlock T)) → All (IsCandidate k bs) (candidates k bs)
  unfolding candidates
  candidates_sound k [] = tt
  candidates_sound k (b ∷ bs) =
      let rest : All (IsCandidate k (b ∷ bs)) (candidates (suc k) bs) =
        All-map (IsCandidate (suc k) bs) (IsCandidate k (b ∷ bs)) (candidates (suc k) bs)
          (λ c h. (suc h.0, h.1, omega (arith, h.2), h.3, h.4, h.5))
          (candidates_sound (suc k) bs) in
      elim (Bool-cases (is_evictable b)) [
        | inl e ↦ rw e ((0, b, omega arith, refl, e, refl), rest)
        | inr e ↦ rw e rest
      ]

module _ {T : Type 0} where
  pub evictable_shared : (b : PhysicalBlock T) → is_evictable b ≡ true → is_shared b ≡ true
  evictable_shared b h = ground arith

  -- The selected block is evictable.
  pub selected :
      (p : PagedKvCachePool T) (c : ℕ × ℕ) (cs : List (ℕ × ℕ))
      → candidates 0 p.blocks ≡ c ∷ cs
      → (b : PhysicalBlock T) × (get_elem? p.blocks (least c cs).1 ≡ some b)
        × (is_evictable b ≡ true)
        × (b.last_used ≡ (least c cs).0)
  selected p c cs e =
      let all : All (IsCandidate 0 p.blocks) (c ∷ cs) =
        subst (All (IsCandidate 0 p.blocks)) e (candidates_sound 0 p.blocks) in
      let (j, b, q, here, ev, age) = All-least (IsCandidate 0 p.blocks) c cs all.0 all.1 in
      let q' : (least c cs).1 ≡ j = omega (arith, q) in
      (b, ap (get_elem? p.blocks) q' ∙ here, ev, age)

  pub evict_one_none :
      (p : PagedKvCachePool T) → candidates 0 p.blocks ≡ [] → evict_one p ≡ (ok false, p)
  unfolding evict_one
  evict_one_none p e = ground arith

  pub evict_one-some :
      (p : PagedKvCachePool T) (c : ℕ × ℕ) (cs : List (ℕ × ℕ)) (b : PhysicalBlock T) (hash : String)
      → candidates 0 p.blocks ≡ c ∷ cs
      → get_elem? p.blocks (least c cs).1 ≡ some b
      → b.prefix_hash ≡ some hash
      → get p.prefix_index hash ≡ some (least c cs).1
      → evict_one p ≡ evict_block (least c cs).1 hash p
  unfolding evict_one block_at evict_hashed
  evict_one-some p c cs b hash e here h n = ground arith

  -- Every evictable block is a candidate.
  candidates_complete :
      (P : ℕ × ℕ → Type 0) (k : ℕ) (bs : List (PhysicalBlock T)) (j : ℕ) {b : PhysicalBlock T}
      → All P (candidates k bs)
      → get_elem? bs j ≡ some b
      → is_evictable b ≡ true
      → (n : ℕ) → n ≡ k + j
      → P (b.last_used, n)
  unfolding candidates
  candidates_complete P k [] j h e ev n q = cc
  candidates_complete P k (c ∷ bs) zero {b} h e ev n q =
      let hit : is_evictable c ≡ true = ap is_evictable (some-eq e) ∙ ev in
      let h' : P (c.last_used, k) × All P (candidates (suc k) bs) = rw hit at h in
      let q' : k ≡ n = omega (arith, q) in
      subst (λ (x : PhysicalBlock T). P (x.last_used, n)) (some-eq e)
        (subst (λ m. P (c.last_used, m)) q' h'.0)
  candidates_complete P k (c ∷ bs) (suc j) h e ev n q =
      candidates_complete P (suc k) bs j (rest (is_evictable c) h) e ev n (omega (arith, q))
    where
      rest :
          (t : Bool)
          → All P (if t then (c.last_used, k) ∷ candidates (suc k) bs else candidates (suc k) bs)
          → All P (candidates (suc k) bs)
      rest true h = h.1
      rest false h = h

  -- The selected block is the oldest, the first among equals.
  pub selected_oldest :
      (p : PagedKvCachePool T) (c : ℕ × ℕ) (cs : List (ℕ × ℕ))
      → candidates 0 p.blocks ≡ c ∷ cs
      → (j : ℕ) (b : PhysicalBlock T) → get_elem? p.blocks j ≡ some b
      → is_evictable b ≡ true
      → lex_ltb (b.last_used, j) (least c cs) ≡ false
  selected_oldest p c cs e j b here ev =
      let P : ℕ × ℕ → Type 0 = λ d. lex_ltb d (least c cs) ≡ false in
      candidates_complete P 0 p.blocks j (subst (All P) (sym e) (least_min c cs)) here ev j
        (omega arith)
