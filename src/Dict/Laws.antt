-- ===== src/Dict/Laws.antt =====
-- What reads give after writes, and sums over the values.
use mini_gpt.Prelude.{
  ℕ, ◌+◌, ◌≡◌, refl, String, none, some, true, false, [], ◌∷◌, inl, inr, arith, str_eq, eq_iff,
  if◌then◌else◌, is_some, Bool-cases, sym, ap,
}
use mathlib.Core.Path.{subst}
use mini_gpt.Dict.Defs.{Dict, get, contains, put, delete, sum_values, size, IsDistinct, Items}

module _ {V : Type 0} where
  pub get-put :
      (d : Dict V) (k j : String) (v : V)
      → get (put d k v) j ≡ (if str_eq k j then some v else get d j)
  unfolding get put
  get-put [] k j v = refl
  get-put ((i, w) ∷ d) k j v = ground (arith, eq_iff k j, eq_iff i k, eq_iff i j, get-put d k j v)

  pub get-put_self : (d : Dict V) (k : String) (v : V) → get (put d k v) k ≡ some v
  get-put_self d k v = ground (arith, get-put d k k v, eq_iff k k)

  pub get-put_ne :
      (d : Dict V) (k j : String) (v : V) → str_eq k j ≡ false → get (put d k v) j ≡ get d j
  get-put_ne d k j v h = rw (get-put d k j v, h) refl

  pub put-put : (d : Dict V) (k : String) (v w : V) → put (put d k v) k w ≡ put d k w
  unfolding put
  put-put [] k v w = ground (arith, eq_iff k k)
  put-put ((i, u) ∷ d) k v w = elim (Bool-cases (str_eq i k)) [
    | inl e ↦ rw (e, e) refl
    | inr e ↦ rw (e, e) (ap (λ m. (i, u) ∷ m) (put-put d k v w))
  ]

  pub contains-get : (d : Dict V) (k : String) → contains d k ≡ is_some (get d k)
  unfolding get contains
  contains-get [] k = refl
  contains-get ((i, w) ∷ d) k = ground (arith, contains-get d k)

  pub contains-delete :
      (d : Dict V) (k j : String) → contains d j ≡ false → contains (delete d k) j ≡ false
  unfolding contains delete
  contains-delete [] k j h = refl
  contains-delete ((i, w) ∷ d) k j h = ground (arith, contains-delete d k j)

  pub contains-put :
      (d : Dict V) (k j : String) (v : V)
      → contains (put d k v) j ≡ (if str_eq k j then true else contains d j)
  unfolding contains put
  contains-put [] k j v = refl
  contains-put ((i, w) ∷ d) k j v =
      ground (arith, eq_iff k j, eq_iff i k, eq_iff i j, contains-put d k j v)

  pub get-delete_self : (d : Dict V) (k : String) → IsDistinct d → get (delete d k) k ≡ none
  unfolding get delete
  get-delete_self [] k h = refl
  get-delete_self ((i, w) ∷ d) k h =
      ground (arith, eq_iff i k, get-delete_self d k h.1, contains-get d k)

  pub get-delete_ne :
      (d : Dict V) (k j : String) → str_eq k j ≡ false → get (delete d k) j ≡ get d j
  unfolding get delete
  get-delete_ne [] k j h = refl
  get-delete_ne ((i, w) ∷ d) k j h =
      ground (arith, eq_iff k j, eq_iff i k, eq_iff i j, get-delete_ne d k j h)

  pub IsDistinct-delete : (d : Dict V) (k : String) → IsDistinct d → IsDistinct (delete d k)
  unfolding delete
  IsDistinct-delete [] k h = h
  IsDistinct-delete ((i, w) ∷ d) k h =
      ground (arith, IsDistinct-delete d k h.1, contains-delete d k i h.0)

  pub IsDistinct-put : (d : Dict V) (k : String) (v : V) → IsDistinct d → IsDistinct (put d k v)
  unfolding put contains
  IsDistinct-put [] k v h = (refl, tt)
  IsDistinct-put ((i, w) ∷ d) k v h =
      ground (arith, eq_iff k i, eq_iff i k, contains-put d k i v, IsDistinct-put d k v h.1)

  pub sum_values-put_old :
      (f : V → ℕ) (d : Dict V) (k : String) (v : V) {w : V}
      → get d k ≡ some w
      → sum_values f (put d k v) + f w ≡ sum_values f d + f v
  unfolding get put sum_values
  sum_values-put_old f [] k v h = cc
  sum_values-put_old f ((i, w) ∷ d) k v {w = u} h =
      ground (arith, λ (e : get d k ≡ some u). sum_values-put_old f d k v {w = u} e)

  pub sum_values-put_new :
      (f : V → ℕ) (d : Dict V) (k : String) (v : V)
      → get d k ≡ none
      → sum_values f (put d k v) ≡ sum_values f d + f v
  unfolding get put sum_values
  sum_values-put_new f [] k v h = omega arith
  sum_values-put_new f ((i, w) ∷ d) k v h = ground (arith, sum_values-put_new f d k v)

  pub sum_values-delete :
      (f : V → ℕ) (d : Dict V) (k : String) {w : V}
      → get d k ≡ some w
      → sum_values f (delete d k) + f w ≡ sum_values f d
  unfolding get delete sum_values
  sum_values-delete f [] k h = cc
  sum_values-delete f ((i, w) ∷ d) k {w = u} h =
      ground (arith, λ (e : get d k ≡ some u). sum_values-delete f d k {w = u} e)

  pub size-delete : (d : Dict V) (k : String) → contains d k ≡ true → size (delete d k) + 1 ≡ size d
  unfolding contains delete size
  size-delete [] k h = cc
  size-delete ((i, w) ∷ d) k h = ground (arith, size-delete d k)

  pub size-put_new :
      (d : Dict V) (k : String) (v : V) → contains d k ≡ false → size (put d k v) ≡ size d + 1
  unfolding contains put size
  size-put_new [] k v h = omega arith
  size-put_new ((i, w) ∷ d) k v h = ground (arith, size-put_new d k v)

  pub Items-get :
      (P : String → V → Type 0) (d : Dict V) (k : String) {v : V}
      → Items P d
      → get d k ≡ some v
      → P k v
  unfolding get
  Items-get P [] k h e = cc
  Items-get P ((i, w) ∷ d) k {v} h e = elim (Bool-cases (str_eq i k)) [
    | inl hit ↦
        let p : i ≡ k = (eq_iff i k).0 hit in
        let q : w ≡ v = ground arith in subst (λ j. P j v) p (subst (P i) q h.0)
    | inr miss ↦ Items-get P d k h.1 (ground arith)
  ]

  pub Items-put :
      (P : String → V → Type 0) (d : Dict V) (k : String) (v : V)
      → Items P d
      → P k v
      → Items P (put d k v)
  unfolding put
  Items-put P [] k v h p = (p, tt)
  Items-put P ((i, w) ∷ d) k v h p = elim (Bool-cases (str_eq i k)) [
    | inl hit ↦ rw hit (subst (λ j. P j v) (sym ((eq_iff i k).0 hit)) p, h.1)
    | inr miss ↦ rw miss (h.0, Items-put P d k v h.1 p)
  ]

  pub Items-delete :
      (P : String → V → Type 0) (d : Dict V) (k : String) → Items P d → Items P (delete d k)
  unfolding delete
  Items-delete P [] k h = h
  Items-delete P ((i, w) ∷ d) k h = elim (Bool-cases (str_eq i k)) [
    | inl hit ↦ rw hit h.1
    | inr miss ↦ rw miss (h.0, Items-delete P d k h.1)
  ]

  pub Items-map :
      (P Q : String → V → Type 0) (d : Dict V)
      → ((k : String) (v : V) → P k v → Q k v)
      → Items P d
      → Items Q d
  Items-map P Q [] f h = h
  Items-map P Q ((i, w) ∷ d) f h = (f i w h.0, Items-map P Q d f h.1)
