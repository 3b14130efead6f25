-- ===== src/PagedKvCache/Storage/Tail.antt =====
-- One row is written past the last one: what `gather` then reads.
use mini_gpt.Prelude.{
  ℕ, zero, suc, ◌+◌, ◌*◌, ◌-◌, ◌/◌, ◌%◌, ◌≤◌, ◌<◌, ◌≡◌, ◌≢◌, refl, sym, ◌∙◌, ap, min, false, some,
  get_elem?, ◌&&◌, List, [], ◌∷◌, ◌++◌, arith, ◌==◌, length, Bool-cases, inl, inr, ==_iff, some-eq,
}
use mathlib.Core.Path.{ap₂}
use mathlib.Core.List.{append-nil, append_assoc}
use mini_gpt.Prelude.Tally.{count}
use mini_gpt.PagedKvCache.Checks.{last}
use mini_gpt.PagedKvCache.Storage.{read_rows, gather}
use native.Mathlib.Nat.{div-eq_of_lt-le, div-add-mod'}
use mini_gpt.PagedKvCache.Blocks.{ceil_div}
use mini_gpt.PagedKvCache.Storage.{KvCache, LayerKvCache, write_row, row_or}

ceil_div_by : (q n d : ℕ) → q * d < n + d → n ≤ q * d → 0 < d → ceil_div n d ≡ q
unfolding ceil_div
ceil_div_by q n d l h k =
    div-eq_of_lt-le {k = q} d {m = n + d - 1} (omega (arith, l)) (grind (arith, h, k))

-- A token more takes no further block inside a block, and one at the boundary.
pub ceil_inside : (n d : ℕ) → 0 < d → n % d ≢ 0 → ceil_div (n + 1) d ≡ ceil_div n d
ceil_inside n d h k =
    let e = div-add-mod' n d in
    let r : n % d < d = omega arith in
    ceil_div_by (n / d + 1) (n + 1) d (grind (arith, e, r)) (grind (arith, e, r)) h
    ∙ sym (ceil_div_by (n / d + 1) n d (grind (arith, e, r)) (grind (arith, e, r)) h)

pub ceil_boundary : (n d : ℕ) → 0 < d → n % d ≡ 0 → ceil_div (n + 1) d ≡ ceil_div n d + 1
ceil_boundary n d h k =
    let e = div-add-mod' n d in
    ceil_div_by (n / d + 1) (n + 1) d (grind (arith, e)) (grind (arith, e)) h
    ∙ ap (λ x. x + 1) (sym (ceil_div_by (n / d) n d (grind (arith, e)) (grind (arith, e)) h))

module _ {T : Type 0} where
  read_rows_same :
      (f g : ℕ → T) (o n : ℕ)
      → ((j : ℕ) → o ≤ j → j < o + n → f j ≡ g j)
      → read_rows f o n ≡ read_rows g o n
  read_rows_same f g o zero h = refl
  read_rows_same f g o (suc n) h =
      ap₂ ◌∷◌ (h o (omega arith) (omega arith))
        (read_rows_same f g (o + 1) n (λ j a b. h j (omega (arith, a)) (omega (arith, b))))

  read_rows_snoc : (f : ℕ → T) (o n : ℕ) → read_rows f o (suc n) ≡ read_rows f o n ++ f (o + n) ∷ []
  read_rows_snoc f o zero = ap (λ j. f j ∷ []) (omega arith)
  read_rows_snoc f o (suc n) =
      ap (◌∷◌ (f o))
        (read_rows_snoc f (o + 1) n ∙ ap (λ j. read_rows f (o + 1) n ++ f j ∷ []) (omega arith))

  gather_nothing : (f : ℕ → ℕ → T) (bt : ℕ) (is : List ℕ) → gather f bt 0 is ≡ []
  unfolding gather
  gather_nothing f bt [] = refl
  gather_nothing f bt (i ∷ is) = ground arith

  gather_cons :
      (f : ℕ → ℕ → T) (bt n i : ℕ) (is : List ℕ)
      → gather f bt n (i ∷ is) ≡ read_rows (f i) 0 (min n bt) ++ gather f bt (n - min n bt) is
  unfolding gather
  gather_cons f bt n i is = elim (Bool-cases (n - min n bt == 0)) [
    | inl e ↦ rw e (
        ap (◌++◌ (read_rows (f i) 0 (min n bt)))
          (sym (ap (λ k. gather f bt k is) ((==_iff _ _).0 e) ∙ gather_nothing f bt is)))
    | inr e ↦ rw e
  ]

  gather_one : (f : ℕ → ℕ → T) (bt n i : ℕ) → gather f bt n (i ∷ []) ≡ read_rows (f i) 0 (min n bt)
  unfolding gather
  gather_one f bt n i = gather_cons f bt n i [] ∙ append-nil (read_rows (f i) 0 (min n bt))

  -- `g` is `f` but for one row of the last block, at the slot that the next token takes.
  module _ (f g : ℕ → ℕ → T) (bt tail slot : ℕ) (x : T) (fits : slot < bt)
      (same : (b o : ℕ) → ((b == tail) && (o == slot)) ≡ false → g b o ≡ f b o)
      (row : g tail slot ≡ x) where
    other_block : (i n : ℕ) → i ≢ tail → read_rows (g i) 0 n ≡ read_rows (f i) 0 n
    other_block i n ne = read_rows_same (g i) (f i) 0 n (λ j a b. same i j (ground arith))

    tail_block : read_rows (g tail) 0 (suc slot) ≡ read_rows (f tail) 0 slot ++ x ∷ []
    tail_block =
        read_rows_snoc (g tail) 0 slot
        ∙ ap₂ (λ rows y. rows ++ y ∷ [])
            (read_rows_same (g tail) (f tail) 0 slot (λ j a b. same tail j (ground (arith, b))))
            (ap (g tail) (omega arith) ∙ row)

    count-last_ne :
        (i j : ℕ) (is : List ℕ) → last (j ∷ is) ≡ some tail → count tail (i ∷ j ∷ is) ≤ 1 → i ≢ tail
    count-last_ne i j is l c = λ e. absurd (grind (arith, occurs j is l, c, e))
      where
        occurs : (j : ℕ) (is : List ℕ) → last (j ∷ is) ≡ some tail → 0 < count tail (j ∷ is)
        occurs j [] l = ground arith
        occurs j (k ∷ is) l = omega (arith, occurs k is l)

    gather_tail :
        (i : ℕ) (is : List ℕ) (n : ℕ)
        → last (i ∷ is) ≡ some tail
        → ((j : ℕ) → count j (i ∷ is) ≤ 1)
        → n ≡ length is * bt + slot
        → gather g bt (suc n) (i ∷ is) ≡ gather f bt n (i ∷ is) ++ x ∷ []
    gather_tail i [] n l once e =
        let here : i ≡ tail = some-eq l in
        let z : n ≡ slot = omega (arith, e) in
        let more : min (suc n) bt ≡ suc slot = omega (arith, z, fits) in
        let less : slot ≡ min n bt = omega (arith, z, fits) in
        gather_one g bt (suc n) i
        ∙ ap₂ (λ b k. read_rows (g b) 0 k) here more
        ∙ tail_block
        ∙ ap₂ (λ b k. read_rows (f b) 0 k ++ x ∷ []) (sym here) less
        ∙ ap (λ rows. rows ++ x ∷ []) (sym (gather_one f bt n i))
    gather_tail i (j ∷ is) n l once e =
        let long : bt ≤ n = grind (arith, e) in
        let ne = count-last_ne i j is l (once tail) in
        let rest : gather g bt (suc (n - bt)) (j ∷ is) ≡ gather f bt (n - bt) (j ∷ is) ++ x ∷ [] =
          gather_tail j is (n - bt) l (λ k. omega (arith, once k)) (grind (arith, e)) in
        let used : min (suc n) bt ≡ min n bt = omega (arith, long) in
        let left : suc n - min (suc n) bt ≡ suc (n - bt) = omega (arith, long) in
        let left' : n - bt ≡ n - min n bt = omega (arith, long) in
        gather_cons g bt (suc n) i (j ∷ is)
        ∙ ap₂ ◌++◌ (ap (read_rows (g i) 0) used ∙ other_block i (min n bt) ne)
            (ap (λ k. gather g bt k (j ∷ is)) left ∙ rest)
        ∙ sym (append_assoc (read_rows (f i) 0 (min n bt)) (gather f bt (n - bt) (j ∷ is)) (x ∷ []))
        ∙ ap (λ rows. rows ++ x ∷ [])
            (ap (λ k. read_rows (f i) 0 (min n bt) ++ gather f bt k (j ∷ is)) left'
              ∙ sym (gather_cons f bt n i (j ∷ is)))

  gather_more :
      (f : ℕ → ℕ → T) (bt n : ℕ) (is new : List ℕ)
      → n ≤ length is * bt
      → gather f bt n (is ++ new) ≡ gather f bt n is
  gather_more f bt n [] new h =
      let z : n ≡ 0 = omega (arith, h) in
      ap (λ k. gather f bt k new) z
      ∙ gather_nothing f bt new
      ∙ sym (gather_nothing f bt [])
      ∙ sym (ap (λ k. gather f bt k []) z)
  gather_more f bt n (i ∷ is) new h =
      gather_cons f bt n i (is ++ new)
      ∙ ap (◌++◌ (read_rows (f i) 0 (min n bt)))
          (gather_more f bt (n - min n bt) is new (grind (arith, h)))
      ∙ sym (gather_cons f bt n i is)

  row_or_get : (old x : T) (xs : List T) (i : ℕ) → get_elem? xs i ≡ some x → row_or old xs i ≡ x
  row_or_get old x [] i e = cc
  row_or_get old x (y ∷ xs) zero e = some-eq e
  row_or_get old x (y ∷ xs) (suc i) e = row_or_get old x xs i e

  module _ (side : LayerKvCache T → List T) (cache : KvCache T) (old : ℕ → ℕ → ℕ → T) (l : ℕ)
      {lay : LayerKvCache T} {x : T} (bt n tail token : ℕ) (positive : 0 < bt)
      (layer : get_elem? cache l ≡ some lay) (row : get_elem? (side lay) token ≡ some x) where
    abbrev new_rows : ℕ → ℕ → T
    new_rows = write_row side cache tail (n % bt) token old l

    kept_rows : (b o : ℕ) → ((b == tail) && (o == n % bt)) ≡ false → new_rows b o ≡ old l b o
    kept_rows b o e = rw e

    new_row : new_rows tail (n % bt) ≡ x
    new_row =
        rw ((==_iff tail tail).1 refl, (==_iff (n % bt) (n % bt)).1 refl, layer)
          (row_or_get (old l tail (n % bt)) x (side lay) token row)

    gather-last :
        (is : List ℕ)
        → last is ≡ some tail
        → ((j : ℕ) → count j is ≤ 1)
        → length is ≡ ceil_div (n + 1) bt
        → gather new_rows bt (n + 1) is ≡ gather (old l) bt n is ++ x ∷ []
    gather-last [] e once len = cc
    gather-last (i ∷ is) e once len =
        let blocks : suc (length is) ≡ n / bt + 1 =
          len
          ∙ ceil_div_by (n / bt + 1) (n + 1) bt (grind (arith, div-add-mod' n bt))
              (grind (arith, div-add-mod' n bt)) positive in
        let same : length is ≡ n / bt = omega (arith, blocks) in
        ap (λ k. gather new_rows bt k (i ∷ is)) (omega arith)
        ∙ gather_tail (old l) new_rows bt tail (n % bt) x (omega (arith, positive)) kept_rows
            new_row i is n e once (sym (div-add-mod' n bt) ∙ ap (λ k. k * bt + n % bt) (sym same))

    pub gather-write_row :
        (is new : List ℕ)
        → last (is ++ new) ≡ some tail
        → ((j : ℕ) → count j (is ++ new) ≤ 1)
        → length (is ++ new) ≡ ceil_div (n + 1) bt
        → n ≤ length is * bt
        → gather (write_row side cache tail (n % bt) token old l) bt (n + 1) (is ++ new)
          ≡ gather (old l) bt n is ++ x ∷ []
    gather-write_row is new e once len h =
        gather-last (is ++ new) e once len
        ∙ ap (λ rows. rows ++ x ∷ []) (gather_more (old l) bt n is new h)
