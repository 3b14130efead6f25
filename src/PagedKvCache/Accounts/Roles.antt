-- ===== src/PagedKvCache/Accounts/Roles.antt =====
-- The state and the owner of a block: all that the checks on a request table read.
use mini_gpt.Prelude.{
  ℕ, zero, suc, ◌≡◌, ◌≢◌, refl, sym, ◌∙◌, ap, String, Option, none, some, Bool, true, List, [], ◌∷◌,
  ◌||◌, arith, get_elem?, set, some-eq,
}
use mathlib.Core.Option
use mini_gpt.Prelude.Tally.{count, at, sum_at}
use mini_gpt.PagedKvCache.Types.{PhysicalBlock, PhysicalBlockState}
use mini_gpt.PagedKvCache.Blocks.{is_shared}
use mini_gpt.PagedKvCache.Allocator.{owned_by}
use mini_gpt.PagedKvCache.Accounts.{bit_self}

pub record Role : Type 0 where
  pub state : PhysicalBlockState
  pub owner_request_id : Option String

module _ {T : Type 0} where
  abbrev pub role : PhysicalBlock T → Role
  role b = record { state = b.state; owner_request_id = b.owner_request_id }

  abbrev pub role_at : List (PhysicalBlock T) → ℕ → Option Role
  role_at [] i = none
  role_at (b ∷ bs) zero = some (role b)
  role_at (b ∷ bs) (suc i) = role_at bs i

  pub role_at-some :
      (bs : List (PhysicalBlock T)) (i : ℕ) {b : PhysicalBlock T}
      → get_elem? bs i ≡ some b
      → role_at bs i ≡ some (role b)
  role_at-some [] i e = cc
  role_at-some (c ∷ bs) zero e = ap (λ (x : PhysicalBlock T). some (role x)) (some-eq e)
  role_at-some (c ∷ bs) (suc i) e = role_at-some bs i e

  pub block_of_role :
      (bs : List (PhysicalBlock T)) (i : ℕ) {r : Role}
      → role_at bs i ≡ some r
      → (b : PhysicalBlock T) × (get_elem? bs i ≡ some b) × (role b ≡ r)
  block_of_role [] i e = cc
  block_of_role (c ∷ bs) zero e = (c, refl, some-eq e)
  block_of_role (c ∷ bs) (suc i) e = block_of_role bs i e

  -- A look at the whole record is a look at the role.
  pub role_at-get :
      (bs cs : List (PhysicalBlock T)) (i : ℕ)
      → get_elem? cs i ≡ get_elem? bs i
      → role_at cs i ≡ role_at bs i
  role_at-get bs cs i e = read cs ∙ ap (Option.map role) e ∙ sym (read bs)
    where
      read : (ds : List (PhysicalBlock T)) → role_at ds i ≡ Option.map role (get_elem? ds i)
      read ds = reads ds i
        where
          reads :
              (ds : List (PhysicalBlock T)) (i : ℕ)
              → role_at ds i ≡ Option.map role (get_elem? ds i)
          reads [] i = refl
          reads (d ∷ ds) zero = refl
          reads (d ∷ ds) (suc i) = reads ds i

  -- A write that keeps the role keeps every role.
  pub role_at-set :
      (bs : List (PhysicalBlock T)) (i : ℕ) {b : PhysicalBlock T} (b' : PhysicalBlock T)
      → get_elem? bs i ≡ some b
      → role b' ≡ role b
      → (j : ℕ) → role_at (set bs i b') j ≡ role_at bs j
  role_at-set [] i b' e r j = refl
  role_at-set (c ∷ bs) zero b' e r zero = ap some (r ∙ ap role (sym (some-eq e)))
  role_at-set (c ∷ bs) zero b' e r (suc j) = refl
  role_at-set (c ∷ bs) (suc i) b' e r zero = refl
  role_at-set (c ∷ bs) (suc i) b' e r (suc j) = role_at-set bs i b' e r j

  pub at-role :
      (f : Role → ℕ) (bs cs : List (PhysicalBlock T)) (i : ℕ)
      → role_at cs i ≡ role_at bs i
      → at (λ b. f (role b)) cs i ≡ at (λ b. f (role b)) bs i
  at-role f bs cs i e = weigh cs i ∙ ap weight e ∙ sym (weigh bs i)
    where
      weight : Option Role → ℕ
      weight none = 0
      weight (some r) = f r

      weigh :
          (ds : List (PhysicalBlock T)) (j : ℕ) → at (λ b. f (role b)) ds j ≡ weight (role_at ds j)
      weigh [] j = refl
      weigh (d ∷ ds) zero = refl
      weigh (d ∷ ds) (suc j) = weigh ds j

  -- Sums over a table depend on the roles of its blocks only.
  pub sum_at-role :
      (f : Role → ℕ) (bs cs : List (PhysicalBlock T)) (is : List ℕ)
      → ((j : ℕ) → count j is ≢ 0 → role_at cs j ≡ role_at bs j)
      → sum_at (λ b. f (role b)) cs is ≡ sum_at (λ b. f (role b)) bs is
  sum_at-role f bs cs [] h = refl
  sum_at-role f bs cs (i ∷ is) h = omega (
    arith,
    at-role f bs cs i (h i (λ e. absurd (omega (arith, bit_self i)))),
    sum_at-role f bs cs is (λ j n. h j (λ e. n (omega arith))),
  )

  -- The block at an index may be let go by the request: it is its own, or shared.
  abbrev pub MayRelease : List (PhysicalBlock T) → String → ℕ → Type 0
  MayRelease blocks owner i =
      (b : PhysicalBlock T) × (get_elem? blocks i ≡ some b)
      × ((owned_by b owner || is_shared b) ≡ true)

  abbrev pub MayReleaseAll : List (PhysicalBlock T) → String → List ℕ → Type 0
  MayReleaseAll blocks owner [] = Unit
  MayReleaseAll blocks owner (i ∷ is) = MayRelease blocks owner i × MayReleaseAll blocks owner is

  MayRelease-role :
      (bs cs : List (PhysicalBlock T)) (owner : String) (i : ℕ)
      → role_at cs i ≡ role_at bs i
      → MayRelease bs owner i
      → MayRelease cs owner i
  MayRelease-role bs cs owner i e (b, here, m) =
      let (c, there, r) = block_of_role cs i (e ∙ role_at-some bs i here) in
      (c, there, ap owns r ∙ m)
    where
      owns : Role → Bool
      owns r =
          owned_by (record b { state = r.state; owner_request_id = r.owner_request_id }) owner
          || is_shared (record b { state = r.state; owner_request_id = r.owner_request_id })

  pub MayReleaseAll-role :
      (bs cs : List (PhysicalBlock T)) (owner : String) (is : List ℕ)
      → ((j : ℕ) → count j is ≢ 0 → role_at cs j ≡ role_at bs j)
      → MayReleaseAll bs owner is
      → MayReleaseAll cs owner is
  MayReleaseAll-role bs cs owner [] h m = tt
  MayReleaseAll-role bs cs owner (i ∷ is) h m = (
    MayRelease-role bs cs owner i (h i (λ e. absurd (omega (arith, bit_self i)))) m.0,
    MayReleaseAll-role bs cs owner is (λ j n. h j (λ e. n (omega arith))) m.1,
  )
