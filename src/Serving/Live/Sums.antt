-- ===== src/Serving/Live/Sums.antt =====
-- Sums over the requests of a queue, after one request's object was replaced.
use mini_gpt.Prelude.{
  ℕ, ◌+◌, ◌≤◌, ◌≡◌, refl, String, Option, none, some, false, List, [], ◌∷◌, ◌++◌, arith, str_eq,
  eq_iff, ap, Bool-cases, inl, inr,
}
use mathlib.Core.Path.{subst}
use mini_gpt.Dict.{Dict, get, put, get-put, get-put_ne}
use mini_gpt.Serving.Types.{RequestState}
use mini_gpt.Serving.State.{sum_over, remove_one}
use mini_gpt.Serving.Live.Tally.{tally}

module _ {T : Type 0} (f : RequestState T → ℕ) where
  abbrev pub value : Option (RequestState T) → ℕ
  value none = 0
  value (some s) = f s

  pub sum_over-cons :
      (d : Dict (RequestState T)) (id : String) (ids : List String)
      → sum_over f d (id ∷ ids) ≡ value (get d id) + sum_over f d ids
  sum_over-cons d id ids = ground arith

  pub sum_over_mono :
      (d d' : Dict (RequestState T)) (ids : List String)
      → ((j : String) → value (get d' j) ≤ value (get d j))
      → sum_over f d' ids ≤ sum_over f d ids
  sum_over_mono d d' [] h = omega arith
  sum_over_mono d d' (id ∷ ids) h =
      omega (arith, h id, sum_over_mono d d' ids h, sum_over-cons d id ids, sum_over-cons d' id ids)

  pub sum_over-remove_one :
      (d : Dict (RequestState T)) (ids : List String) (id : String)
      → sum_over f d (remove_one ids id) ≤ sum_over f d ids
  sum_over-remove_one d [] id = omega arith
  sum_over-remove_one d (j ∷ ids) id = elim (Bool-cases (str_eq j id)) [
    | inl e ↦ rw e (omega (arith, sum_over-cons d j ids))
    | inr e ↦ rw e (
        omega (
          arith,
          sum_over-remove_one d ids id,
          sum_over-cons d j ids,
          sum_over-cons d j (remove_one ids id),
        ))
  ]

  pub sum_over-append :
      (d : Dict (RequestState T)) (xs ys : List String)
      → sum_over f d (xs ++ ys) ≡ sum_over f d xs + sum_over f d ys
  sum_over-append d [] ys = omega arith
  sum_over-append d (x ∷ xs) ys =
      omega (arith, sum_over-append d xs ys, sum_over-cons d x xs, sum_over-cons d x (xs ++ ys))

  value-put :
      (d : Dict (RequestState T)) (id j : String) (s : RequestState T)
      → f s ≤ value (get d id)
      → value (get (put d id s) j) ≤ value (get d j)
  value-put d id j s h = elim (Bool-cases (str_eq id j)) [
    | inl e ↦ rw (get-put d id j s, e) (subst (λ k. f s ≤ value (get d k)) ((eq_iff id j).0 e) h)
    | inr e ↦ rw (get-put d id j s, e) (omega arith)
  ]

  -- A replacement by no more makes no sum larger.
  pub sum_over-put :
      (d : Dict (RequestState T)) (id : String) (s : RequestState T) (ids : List String)
      → f s ≤ value (get d id)
      → sum_over f (put d id s) ids ≤ sum_over f d ids
  sum_over-put d id s ids h = sum_over_mono d (put d id s) ids (λ j. value-put d id j s h)

  pub sum_over-put_apart :
      (d : Dict (RequestState T)) (id : String) (s : RequestState T) (ids : List String)
      → tally id ids ≡ 0
      → sum_over f (put d id s) ids ≡ sum_over f d ids
  sum_over-put_apart d id s [] h = refl
  sum_over-put_apart d id s (j ∷ ids) h =
      let apart : str_eq id j ≡ false = ground (arith, eq_iff id j, eq_iff j id) in
      omega (
        arith,
        sum_over-put_apart d id s ids (omega (arith, h)),
        sum_over-cons d j ids,
        sum_over-cons (put d id s) j ids,
        ap value (get-put_ne d id j s apart),
      )
