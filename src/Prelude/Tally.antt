-- ===== src/Prelude/Tally.antt =====
-- How often an index stands in a list of indices, against a weight of the record at that index.
use Prim.Native.Nat.{ℕ, zero, suc, ◌+◌, ◌*◌, ◌<◌}
use mathlib.Core.Path.{◌≡◌, refl, ap, ◌∙◌, sym}
use mathlib.Core.Option.{some}
use mathlib.Core.Logic.{◌≢◌}
use mathlib.Core.List.{List, [], ◌∷◌, ◌++◌}
use native.Mathlib.Omega.{arith}
use mini_gpt.Prelude.Tests.{◌==◌, bit}
use mini_gpt.Prelude.Lists.{length, get_elem?, set}

abbrev pub count : ℕ → List ℕ → ℕ
count i [] = 0
count i (x ∷ xs) = bit (x == i) + count i xs

pub count-append : (i : ℕ) (xs ys : List ℕ) → count i (xs ++ ys) ≡ count i xs + count i ys
count-append i [] ys = omega arith
count-append i (x ∷ xs) ys = omega (arith, count-append i xs ys)

module _ {ℓ} {A : Type ℓ} where
  -- The weight of the record at an index; nothing stands past the end.
  abbrev pub at : (A → ℕ) → List A → ℕ → ℕ
  at w [] i = 0
  at w (b ∷ bs) zero = w b
  at w (b ∷ bs) (suc i) = at w bs i

  abbrev pub total : (A → ℕ) → List A → ℕ
  total w [] = 0
  total w (b ∷ bs) = w b + total w bs

  -- The weights at the listed indices, summed.
  abbrev pub sum_at : (A → ℕ) → List A → List ℕ → ℕ
  sum_at w bs [] = 0
  sum_at w bs (i ∷ is) = at w bs i + sum_at w bs is

  pub at-some :
      (w : A → ℕ) (bs : List A) (i : ℕ) {b : A} → get_elem? bs i ≡ some b → at w bs i ≡ w b
  at-some w [] i e = cc
  at-some w (b ∷ bs) zero e = cc
  at-some w (b ∷ bs) (suc i) e = at-some w bs i e

  pub at-set_self :
      (w : A → ℕ) (bs : List A) (i : ℕ) (b : A) → i < length bs → at w (set bs i b) i ≡ w b
  at-set_self w [] i b h = elim h [ ]
  at-set_self w (x ∷ bs) zero b h = refl
  at-set_self w (x ∷ bs) (suc i) b h = at-set_self w bs i b (omega arith)

  pub at-set_ne :
      (w : A → ℕ) (bs : List A) (i j : ℕ) (b : A) → i ≢ j → at w (set bs i b) j ≡ at w bs j
  at-set_ne w [] i j b h = refl
  at-set_ne w (x ∷ bs) zero zero b h = absurd (h refl)
  at-set_ne w (x ∷ bs) zero (suc j) b h = refl
  at-set_ne w (x ∷ bs) (suc i) zero b h = refl
  at-set_ne w (x ∷ bs) (suc i) (suc j) b h = at-set_ne w bs i j b (λ e. h (ap suc e))

  pub at_pos :
      (w : A → ℕ) (bs : List A) (i : ℕ)
      → 0 < at w bs i
      → (b : A) × (get_elem? bs i ≡ some b) × (at w bs i ≡ w b)
  at_pos w [] i h = absurd (omega arith)
  at_pos w (b ∷ bs) zero h = (b, refl, refl)
  at_pos w (b ∷ bs) (suc i) h = at_pos w bs i h

  pub total-set :
      (w : A → ℕ) (bs : List A) (i : ℕ) (b : A)
      → i < length bs
      → total w (set bs i b) + at w bs i ≡ total w bs + w b
  total-set w [] i b h = elim h [ ]
  total-set w (x ∷ bs) zero b h = omega arith
  total-set w (x ∷ bs) (suc i) b h = omega (arith, total-set w bs i b)

  pub sum_at-append :
      (w : A → ℕ) (bs : List A) (is js : List ℕ)
      → sum_at w bs (is ++ js) ≡ sum_at w bs is + sum_at w bs js
  sum_at-append w bs [] js = omega arith
  sum_at-append w bs (i ∷ is) js = omega (arith, sum_at-append w bs is js)

  at-set_split :
      (w : A → ℕ) (bs : List A) (i j : ℕ) (b : A)
      → i < length bs
      → at w (set bs i b) j + bit (j == i) * at w bs i ≡ at w bs j + bit (j == i) * w b
  at-set_split w [] i j b h = elim h [ ]
  at-set_split w (x ∷ bs) zero zero b h = omega arith
  at-set_split w (x ∷ bs) zero (suc j) b h = ground arith
  at-set_split w (x ∷ bs) (suc i) zero b h = ground arith
  at-set_split w (x ∷ bs) (suc i) (suc j) b h =
      ground (arith, at-set_split w bs i j b (omega arith))

  -- A write at `i` moves the sum by the difference of the weights, once for each time that `i` is listed.
  pub sum_at-set :
      (w : A → ℕ) (bs : List A) (i : ℕ) (b : A) (is : List ℕ)
      → i < length bs
      → sum_at w (set bs i b) is + count i is * at w bs i ≡ sum_at w bs is + count i is * w b
  sum_at-set w bs i b [] h = omega arith
  sum_at-set w bs i b (j ∷ is) h =
      omega (arith, sum_at-set w bs i b is h, at-set_split w bs i j b h)

  pub sum_at-set_absent :
      (w : A → ℕ) (bs : List A) (i : ℕ) (b : A) (is : List ℕ)
      → count i is ≡ 0
      → sum_at w (set bs i b) is ≡ sum_at w bs is
  sum_at-set_absent w bs i b [] h = refl
  sum_at-set_absent w bs i b (j ∷ is) h =
      let ne : i ≢ j = λ e. absurd (ground arith) in
      omega (arith, sum_at-set_absent w bs i b is (omega arith), at-set_ne w bs i j b ne)

  -- A sum over all records, each taken as often as `c` says.
  dot : (ℕ → ℕ) → (A → ℕ) → List A → ℕ
  dot c g [] = 0
  dot c g (b ∷ bs) = c 0 * g b + dot (λ k. c (suc k)) g bs

  dot_congr :
      (c d : ℕ → ℕ) (g : A → ℕ) (bs : List A) → ((k : ℕ) → c k ≡ d k) → dot c g bs ≡ dot d g bs
  unfolding dot
  dot_congr c d g [] h = refl
  dot_congr c d g (b ∷ bs) h =
      rw (h 0, dot_congr (λ k. c (suc k)) (λ k. d (suc k)) g bs (λ k. h (suc k)))

  dot_zero : (g : A → ℕ) (bs : List A) → dot (λ k. 0) g bs ≡ 0
  unfolding dot
  dot_zero g [] = refl
  dot_zero g (b ∷ bs) = omega (arith, dot_zero g bs)

  dot-bit :
      (x : ℕ) (c : ℕ → ℕ) (g : A → ℕ) (bs : List A)
      → dot (λ k. bit (x == k) + c k) g bs ≡ at g bs x + dot c g bs
  unfolding dot
  dot-bit x c g [] = omega arith
  dot-bit zero c g (b ∷ bs) = omega (
    arith,
    dot_congr (λ k. bit (0 == suc k) + c (suc k)) (λ k. c (suc k)) g bs (λ k. ground arith),
  )
  dot-bit (suc x) c g (b ∷ bs) = ground (
    arith,
    dot_congr (λ k. bit (suc x == suc k) + c (suc k)) (λ k. bit (x == k) + c (suc k)) g bs
        (λ k. ground arith),
    dot-bit x (λ k. c (suc k)) g bs,
  )

  dot-count : (g : A → ℕ) (bs : List A) (is : List ℕ) → dot (λ k. count k is) g bs ≡ sum_at g bs is
  dot-count g bs [] = dot_zero g bs
  dot-count g bs (i ∷ is) = omega (arith, dot-bit i (λ k. count k is) g bs, dot-count g bs is)

  dot-at : (w g : A → ℕ) (bs : List A) → dot (at w bs) g bs ≡ total (λ b. w b * g b) bs
  unfolding dot
  dot-at w g [] = refl
  dot-at w g (b ∷ bs) = omega (arith, dot-at w g bs)

  -- Where every index is listed as often as its record weighs, a sum over the list is one over the records.
  pub sum_at-total :
      (w g : A → ℕ) (bs : List A) (is : List ℕ)
      → ((i : ℕ) → count i is ≡ at w bs i)
      → sum_at g bs is ≡ total (λ b. w b * g b) bs
  sum_at-total w g bs is h =
      sym (dot-count g bs is) ∙ dot_congr (λ k. count k is) (at w bs) g bs h ∙ dot-at w g bs
