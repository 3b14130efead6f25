-- ===== src/PagedKvCache/Accounts/Evict/Least.antt =====
-- The least pair of a list, by first and then second component.
use mini_gpt.Prelude.{ℕ, ◌≡◌, refl, Bool, true, false, List, [], ◌∷◌, arith, if◌then◌else◌}
use mini_gpt.PagedKvCache.Allocator.{least, lex_ltb}

abbrev pub All : {A : Type 0} → (A → Type 0) → List A → Type 0
All P [] = Unit
All P (x ∷ xs) = P x × All P xs

pub All-map :
    {A : Type 0} (P Q : A → Type 0) (xs : List A) → ((x : A) → P x → Q x) → All P xs → All Q xs
All-map P Q [] f h = tt
All-map P Q (x ∷ xs) f h = (f x h.0, All-map P Q xs f h.1)

pub All-least :
    (P : ℕ × ℕ → Type 0) (c : ℕ × ℕ) (ds : List (ℕ × ℕ)) → P c → All P ds → P (least c ds)
unfolding least
All-least P c [] p h = p
All-least P c (d ∷ ds) p h = All-least P (if lex_ltb d c then d else c) ds (pick (lex_ltb d c)) h.1
  where
    pick : (t : Bool) → P (if t then d else c)
    pick true = h.0
    pick false = p

lex_chain : (c d e : ℕ × ℕ) → lex_ltb c d ≡ false → lex_ltb d e ≡ false → lex_ltb c e ≡ false
lex_chain (c, i) (d, j) (e, k) h g = ground arith

lex_swap : (c d : ℕ × ℕ) → lex_ltb d c ≡ true → lex_ltb c d ≡ false
lex_swap (c, i) (d, j) h = ground arith

lex_irrefl : (c : ℕ × ℕ) → lex_ltb c c ≡ false
lex_irrefl (c, i) = ground arith

pub least_min : (c : ℕ × ℕ) (ds : List (ℕ × ℕ)) → All (λ d. lex_ltb d (least c ds) ≡ false) (c ∷ ds)
unfolding least
least_min c [] = (lex_irrefl c, tt)
least_min c (d ∷ ds) = pick (lex_ltb d c) refl (least_min d ds) (least_min c ds)
  where
    pick :
        (t : Bool)
        → lex_ltb d c ≡ t
        → All (λ x. lex_ltb x (least d ds) ≡ false) (d ∷ ds)
        → All (λ x. lex_ltb x (least c ds) ≡ false) (c ∷ ds)
        → All (λ x. lex_ltb x (least (if t then d else c) ds) ≡ false) (c ∷ d ∷ ds)
    pick true e m n = (lex_chain c d (least d ds) (lex_swap c d e) m.0, m)
    pick false e m n = (n.0, (lex_chain d c (least c ds) e n.0, n.1))
