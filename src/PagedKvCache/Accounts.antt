-- ===== src/PagedKvCache/Accounts.antt =====
-- The books of the block pool: every block is free, private or shared, and the free heap, the
-- request tables and the prefix index say so too.
pub mod Frame
pub mod Claim
pub mod Return
pub mod Evict
pub mod Acquire
pub mod Roles
pub mod Release
use mini_gpt.Prelude.{
  ℕ, suc, ◌+◌, ◌≤◌, ◌<◌, ◌≡◌, ◌≢◌, refl, sym, ◌∙◌, ap, String, Option, none, some, Bool, true,
  false, List, [], ◌∷◌, arith, bit, ◌==◌, if◌then◌else◌, length, get_elem?, set, inl, inr, ◌⊎◌,
  Bool-cases, ==_iff, get_elem?-set_self, get_elem?-set_ne, get_elem?_bound, leb, some-eq,
}
use mathlib.Core.Path.{subst₂}
use mini_gpt.Prelude.Tally.{count, at, total, at-some, at-set_self, at-set_ne, total-set}
use mini_gpt.Dict.{Dict, get, size, IsDistinct}
use mini_gpt.PagedKvCache.Types.{
  PhysicalBlock, PhysicalBlockState, free, private, shared, PagedKvCachePool,
}
use mini_gpt.PagedKvCache.Blocks.{is_free, is_private, is_shared, references, block_ok, heappush}

-- The index maps a block's hash back to the block.
abbrev pub IsIndexed : Dict ℕ → Option String → ℕ → Type 0
IsIndexed index none i = ⊥
IsIndexed index (some hash) i = get index hash ≡ some i

-- `held i` is how many references to block `i` are held by request tables, or by the operation at work.
pub record Accounts {T : Type 0} (blocks : List (PhysicalBlock T)) (heap : List ℕ) (index : Dict ℕ)
    (held : ℕ → ℕ) : Type 0 where
  pub free_tally : (i : ℕ) → count i heap ≡ at (λ b. bit (is_free b)) blocks i
  pub held_tally : (i : ℕ) → held i ≡ at references blocks i
  pub well_formed : (i : ℕ) (b : PhysicalBlock T) → get_elem? blocks i ≡ some b → block_ok b ≡ true
  pub indexed :
      (i : ℕ) (b : PhysicalBlock T)
      → get_elem? blocks i ≡ some b
      → is_shared b ≡ true
      → IsIndexed index b.prefix_hash i
  pub index_size : size index ≡ total (λ b. bit (is_shared b)) blocks
  pub index_distinct : IsDistinct index

abbrev pub Books : {T : Type 0} → PagedKvCachePool T → (ℕ → ℕ) → Type 0
Books p held = Accounts p.blocks p.free_blocks p.prefix_index held

pub count-heappush : (j i : ℕ) (js : List ℕ) → count j (heappush js i) ≡ bit (i == j) + count j js
unfolding heappush
count-heappush j i [] = omega arith
count-heappush j i (k ∷ js) = elim (Bool-cases (leb i k)) [
  | inl e ↦ rw e
  | inr e ↦ rw e (omega (arith, count-heappush j i js))
]

pub length-heappush : (i : ℕ) (js : List ℕ) → length (heappush js i) ≡ suc (length js)
unfolding heappush
length-heappush i [] = refl
length-heappush i (k ∷ js) = elim (Bool-cases (leb i k)) [
  | inl e ↦ rw e
  | inr e ↦ rw e (omega (arith, length-heappush i js))
]

pub bit_ne : (i j : ℕ) → i ≢ j → bit (i == j) ≡ 0
bit_ne i j h = ground arith

pub bit_self : (i : ℕ) → bit (i == i) ≡ 1
bit_self i = ground arith

pub ne-or-eq : (i j : ℕ) → (i ≢ j) ⊎ (i ≡ j)
ne-or-eq i j = elim (Bool-cases (i == j)) [
  | inl e ↦ inr ((==_iff i j).0 e)
  | inr e ↦ inl (λ q. absurd (ground arith))
]

-- One block is written: what the other parts of the pool owe to the new record.
module _ {T : Type 0} {blocks : List (PhysicalBlock T)} {heap : List ℕ} {index : Dict ℕ}
    {held : ℕ → ℕ} (a : Accounts blocks heap index held) (i : ℕ) {b : PhysicalBlock T}
    (here : get_elem? blocks i ≡ some b) (b' : PhysicalBlock T) where
  tally-set :
      (w : PhysicalBlock T → ℕ) (c c' : ℕ → ℕ)
      → ((j : ℕ) → c j ≡ at w blocks j)
      → ((j : ℕ) → i ≢ j → c' j ≡ c j)
      → c' i ≡ w b'
      → (j : ℕ) → c' j ≡ at w (set blocks i b') j
  tally-set w c c' old other self j = elim (ne-or-eq i j) [
    | inl ne ↦ other j ne ∙ old j ∙ sym (at-set_ne w blocks i j b' ne)
    | inr eq ↦ rw (← eq) (self ∙ sym (at-set_self w blocks i b' (get_elem?_bound blocks i here)))
  ]

  pub Accounts-set :
      (heap' : List ℕ) (index' : Dict ℕ) (held' : ℕ → ℕ)
      → ((j : ℕ) → i ≢ j → count j heap' ≡ count j heap)
      → count i heap' ≡ bit (is_free b')
      → ((j : ℕ) → i ≢ j → held' j ≡ held j)
      → held' i ≡ references b'
      → block_ok b' ≡ true
      → ((hash : String) (j : ℕ) → i ≢ j → get index hash ≡ some j → get index' hash ≡ some j)
      → (is_shared b' ≡ true → IsIndexed index' b'.prefix_hash i)
      → size index' + bit (is_shared b) ≡ size index + bit (is_shared b')
      → IsDistinct index'
      → Accounts (set blocks i b') heap' index' held'
  Accounts-set heap' index' held' f₁ f₂ h₁ h₂ ok₁ x₁ x₂ n d = record {
    free_tally = tally-set (λ c. bit (is_free c)) (λ j. count j heap) _ a.free_tally f₁ f₂;
    held_tally = tally-set references held held' a.held_tally h₁ h₂;
    well_formed = λ j c e. elim (ne-or-eq i j) [
      | inl ne ↦ a.well_formed j c (sym (get_elem?-set_ne blocks i j b' ne) ∙ e)
      | inr eq ↦ rw (← written j c eq e) ok₁
    ];
    indexed = λ j c e s. elim (ne-or-eq i j) [
      | inl ne ↦
          moved c.prefix_hash j ne (a.indexed j c (sym (get_elem?-set_ne blocks i j b' ne) ∙ e) s)
      | inr eq ↦
          subst₂ (λ (y : PhysicalBlock T) k. IsIndexed index' y.prefix_hash k) (written j c eq e) eq
            (x₂ (rw (written j c eq e) s))
    ];
    index_size = omega (
      arith,
      a.index_size,
      n,
      total-set (λ c. bit (is_shared c)) blocks i b' (get_elem?_bound blocks i here),
      at-some (λ c. bit (is_shared c)) blocks i here,
    );
    index_distinct = d;
  }
    where
      written :
          (j : ℕ) (c : PhysicalBlock T) → i ≡ j → get_elem? (set blocks i b') j ≡ some c → b' ≡ c
      written j c eq e =
          let p = get_elem?-set_self blocks i b' (get_elem?_bound blocks i here) in
          some-eq (sym p ∙ ap (get_elem? (set blocks i b')) eq ∙ e)

      moved : (o : Option String) (j : ℕ) → i ≢ j → IsIndexed index o j → IsIndexed index' o j
      moved none j ne h = h
      moved (some hash) j ne h = x₁ hash j ne h

pub Books-congr :
    {T : Type 0} (p : PagedKvCachePool T) {held held' : ℕ → ℕ}
    → ((j : ℕ) → held' j ≡ held j)
    → Books p held
    → Books p held'
Books-congr p h a = record {
  free_tally = a.free_tally;
  held_tally = λ j. h j ∙ a.held_tally j;
  well_formed = a.well_formed;
  indexed = a.indexed;
  index_size = a.index_size;
  index_distinct = a.index_distinct;
}
