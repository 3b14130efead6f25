-- ===== src/Exec.antt =====
-- Methods of a Python object that may raise. What was written before a raise stays written, so
-- the state comes back beside an error too.
use mini_gpt.Prelude.{Bool, true, false, if◌then◌else◌, Option, none, some, ◌≡◌, refl, sym}
use mathlib.Core.Path.{subst}

-- Which exception: `InvalidPagedKVCacheError`, `PagedKVCacheCapacityError`,
-- `PagedKVCacheOwnershipError`, an `IndexError` of a list, `InvalidServingConfigError`,
-- `DuplicateRequestError`, `UnknownRequestError`, `EngineRunawayError`, or a `RuntimeError`. The
-- texts of the reasons are left out.
pub data Error : Type 0 where
  invalid capacity ownership index_error : Error
  bad_config duplicate_request unknown_request runaway runtime_error : Error

pub data Result (A : Type 0) : Type 0 where
  ok : A → Result A
  err : Error → Result A

abbrev pub Exec : Type 0 → Type 0 → Type 0
Exec S A = S → Result A × S

module _ {S A : Type 0} where
  abbrev pub pure : A → Exec S A
  pure a s = (ok a, s)

  abbrev pub raise : Error → Exec S A
  raise e s = (err e, s)

  abbrev pub lift : Result A → Exec S A
  lift r s = (r, s)

  -- try: m / except Exception: cleanup; raise
  abbrev pub rollback_of : Result A → (Error → Exec S A) → Exec S A
  rollback_of (ok a) handler s = (ok a, s)
  rollback_of (err e) handler s = handler e s

  abbrev pub on_error : Exec S A → (Error → Exec S A) → Exec S A
  on_error m handler s = let (r, s') = m s in rollback_of r handler s'

module _ {S A B : Type 0} where
  abbrev pub continue : Result A → (A → Exec S B) → Exec S B
  continue (ok a) f s = f a s
  continue (err e) f s = (err e, s)

  infixl 5 ◌>>=◌ ◌>>◌
  abbrev pub ◌>>=◌ : Exec S A → (A → Exec S B) → Exec S B
  ◌>>=◌ m f s = let (r, s') = m s in continue r f s'

  abbrev pub ◌>>◌ : Exec S A → Exec S B → Exec S B
  m >> n = m >>= λ _. n

module _ {S : Type 0} where
  abbrev pub guard : Bool → Error → Exec S (Unit {0})
  guard true e s = (ok tt, s)
  guard false e s = (err e, s)

-- How a call ends: `Q` of the value and the state that it returns, or `E` of the error and the state.
pub data Ends {S A : Type 0} (Q : A → S → Type 0) (E : Error → S → Type 0)
    : Result A × S → Type 0 where
  returns : {a : A} {s : S} → Q a s → Ends Q E (ok a, s)
  raises : {e : Error} {s : S} → E e s → Ends Q E (err e, s)

-- The call returns, and does not raise.
abbrev pub Returns : {S A : Type 0} → (A → S → Type 0) → Result A × S → Type 0
Returns Q = Ends Q (λ _ _. ⊥)

module _ {S A B : Type 0} {R : B → S → Type 0} {E : Error → S → Type 0} where
  pub Ends-continue :
      {Q : A → S → Type 0} {r : Result A × S} (f : A → Exec S B)
      → Ends Q E r
      → ((a : A) (s : S) → Q a s → Ends R E (f a s))
      → Ends R E (continue r.0 f r.1)
  Ends-continue f (returns {a} {s} q) k = k a s q
  Ends-continue f (raises e) k = raises e

module _ {S A : Type 0} {Q R : A → S → Type 0} {E F : Error → S → Type 0} where
  pub Ends-mono :
      {r : Result A × S}
      → Ends Q E r
      → ((a : A) (s : S) → Q a s → R a s)
      → ((e : Error) (s : S) → E e s → F e s)
      → Ends R F r
  Ends-mono (returns {a} {s} q) f g = returns (f a s q)
  Ends-mono (raises {e} {s} x) f g = raises (g e s x)

module _ {S A : Type 0} {Q : A → S → Type 0} {E : Error → S → Type 0} where
  -- Both branches of a test end well.
  pub Ends-if :
      (b : Bool) {x y : Result A × S}
      → (b ≡ true → Ends Q E x)
      → (b ≡ false → Ends Q E y)
      → Ends Q E (if b then x else y)
  Ends-if true p q = p refl
  Ends-if false p q = q refl

  -- Both cases of an optional value end well.
  pub Ends-option :
      {V : Type 0} (o : Option V) {x : Result A × S} {f : V → Result A × S}
      → (o ≡ none → Ends Q E x)
      → ((v : V) → o ≡ some v → Ends Q E (f v))
      → Ends Q E (elim o [ none ↦ x | some v ↦ f v ])
  Ends-option none p q = p refl
  Ends-option (some v) p q = q v refl

-- A call that leaves the state as it was, and what follows it.
pub Ends-read :
    {S A B : Type 0} {P : A → Type 0} {R : B → S → Type 0} {E : Error → S → Type 0} {s : S}
    {r : Result A × S} (f : A → Exec S B)
    → Ends (λ a s'. (s' ≡ s) × P a) E r
    → ((a : A) → P a → Ends R E (f a s))
    → Ends R E (continue r.0 f r.1)
Ends-read {R} {E} f m k =
    Ends-continue f m (λ a s' (same, p). subst (λ w. Ends R E (f a w)) (sym same) (k a p))
