-- ===== src/PagedKvCache/Soundness/Tables.antt =====
-- How the invariant moves along when the tables or the blocks change.
use mini_gpt.Prelude.{
  ℕ, ◌+◌, ◌≤◌, ◌≡◌, ◌≢◌, refl, sym, ◌∙◌, ap, String, true, List, [], ◌∷◌, arith, bit, length,
  get_elem?, Option-cases, inl, inr,
}
use mathlib.Core.Path.{subst}
use mini_gpt.Prelude.Tally.{count, at, at-some, total, sum_at}
use mini_gpt.Dict.{Dict, sum_values, IsDistinct, Items}
use mini_gpt.PagedKvCache.Types.{PhysicalBlock, RequestTable, PagedKvCachePool}
use mini_gpt.PagedKvCache.Blocks.{is_private, is_shared, is_active, references, protected_blocks}
use mini_gpt.PagedKvCache.Checks.{listed_ok, occurrences}
use mini_gpt.PagedKvCache.Accounts.{Books, Books-congr, bit_self, bit_ne, ne-or-eq}
use mini_gpt.PagedKvCache.Accounts.Frame.{Owns, OwnsAll}
use mini_gpt.PagedKvCache.Accounts.Roles.{role_at, MayRelease, MayReleaseAll}
use mini_gpt.PagedKvCache.Soundness.{TableSound, TableSound-role, IsSound}

module _ {T : Type 0} where
  pub IsSound-next :
      (p q : PagedKvCachePool T) (m : Dict RequestTable)
      → q.config ≡ p.config
      → length q.blocks ≡ length p.blocks
      → q.tables ≡ m
      → IsSound p
      → Books q (occurrences m)
      → Items (TableSound p.config.block_tokens q.blocks) m
      → IsDistinct m
      → total (λ b. bit (is_active b)) q.blocks + sum_values (λ t. t.reserved_blocks) m
        ≤ p.config.num_blocks
      → IsSound q
  unfolding protected_blocks
  IsSound-next p q m c l e s a t d w = record {
    accounts = Books-congr q (λ j. ap (λ x. occurrences x j) e) a;
    tables =
        subst (Items (TableSound q.config.block_tokens q.blocks)) (sym e)
          (subst (λ x. Items (TableSound x q.blocks) m) (ap (λ x. x.block_tokens) (sym c)) t);
    distinct = subst IsDistinct (sym e) d;
    within_pool =
        omega (arith, w, ap (λ x. x.num_blocks) c, ap (sum_values (λ t. t.reserved_blocks)) e);
    full = l ∙ s.full ∙ ap (λ x. x.num_blocks) (sym c);
    positive = omega (arith, s.positive, ap (λ x. x.block_tokens) c);
  }

  pub Items-roles :
      (n : ℕ) (bs cs : List (PhysicalBlock T)) (m : Dict RequestTable)
      → ((j : ℕ) → occurrences m j ≢ 0 → role_at cs j ≡ role_at bs j)
      → Items (TableSound n bs) m
      → Items (TableSound n cs) m
  unfolding occurrences
  Items-roles n bs cs [] h s = tt
  Items-roles n bs cs ((id, t) ∷ m) h (s, ss) = (
    TableSound-role n bs cs id t (λ j k. h j (λ e. k (omega arith))) s,
    Items-roles n bs cs m (λ j k. h j (λ e. k (omega arith))) ss,
  )

  listed-MayRelease :
      (bs : List (PhysicalBlock T)) (id : String) (i : ℕ)
      → listed_ok bs id i ≡ true
      → MayRelease bs id i
  unfolding listed_ok
  listed-MayRelease bs id i h = elim (Option-cases (get_elem? bs i)) [
    | inl e ↦ absurd (ground arith)
    | inr (b, e) ↦ (b, e, ground arith)
  ]

  pub MayReleaseAll-of :
      (bs : List (PhysicalBlock T)) (id : String) (is : List ℕ)
      → ((i : ℕ) → count i is ≢ 0 → listed_ok bs id i ≡ true)
      → MayReleaseAll bs id is
  MayReleaseAll-of bs id [] h = tt
  MayReleaseAll-of bs id (i ∷ is) h = (
    listed-MayRelease bs id i (h i (λ e. absurd (omega (arith, bit_self i)))),
    MayReleaseAll-of bs id is (λ j n. h j (λ e. n (omega arith))),
  )

  Owns-listed :
      (bs : List (PhysicalBlock T)) (id : String) (i : ℕ) → Owns bs id i → listed_ok bs id i ≡ true
  unfolding listed_ok
  Owns-listed bs id i (b, here, o) = ground arith

  -- Of the blocks that one request owns: what the counts and the checks say.
  pub record NewBlocks (bs : List (PhysicalBlock T)) (id : String) (new : List ℕ) : Type 0 where
    pub privates : sum_at (λ b. bit (is_private b)) bs new ≡ length new
    pub no_shared : sum_at (λ b. bit (is_shared b)) bs new ≡ 0
    pub listed : (i : ℕ) → count i new ≢ 0 → listed_ok bs id i ≡ true
    pub private_at : (i : ℕ) → count i new ≢ 0 → at (λ b. bit (is_private b)) bs i ≡ 1
    pub referenced : (i : ℕ) → count i new ≢ 0 → at references bs i ≡ 1

  pub NewBlocks-of :
      (bs : List (PhysicalBlock T)) (id : String) (new : List ℕ)
      → OwnsAll bs id new
      → NewBlocks bs id new
  NewBlocks-of bs id [] o = record {
    privates = refl;
    no_shared = refl;
    listed = λ i n. absurd (n refl);
    private_at = λ i n. absurd (n refl);
    referenced = λ i n. absurd (n refl);
  }
  NewBlocks-of bs id (k ∷ new) ((b, here, o), os) =
      let r = NewBlocks-of bs id new os in
      let w₁ : at (λ b. bit (is_private b)) bs k ≡ 1 =
        at-some (λ (c : PhysicalBlock T). bit (is_private c)) bs k here ∙ ground arith in
      let w₂ : at (λ b. bit (is_shared b)) bs k ≡ 0 =
        at-some (λ (c : PhysicalBlock T). bit (is_shared c)) bs k here ∙ ground arith in
      let w₃ : at references bs k ≡ 1 = at-some references bs k here ∙ ground arith in
      record {
        privates = omega (arith, r.privates, w₁);
        no_shared = omega (arith, r.no_shared, w₂);
        listed = λ i n.
            either k new i n (λ j. listed_ok bs id j ≡ true) (Owns-listed bs id k (b, here, o))
              (r.listed i);
        private_at = λ i n.
            either k new i n (λ j. at (λ b. bit (is_private b)) bs j ≡ 1) w₁ (r.private_at i);
        referenced = λ i n. either k new i n (λ j. at references bs j ≡ 1) w₃ (r.referenced i);
      }
    where
      either :
          (k : ℕ) (new : List ℕ) (i : ℕ)
          → count i (k ∷ new) ≢ 0
          → (P : ℕ → Type 0) → P k
          → (count i new ≢ 0 → P i)
          → P i
      either k new i n P here there = elim (ne-or-eq k i) [
        | inl ne ↦ there (λ e. n (omega (arith, bit_ne k i ne)))
        | inr eq ↦ subst P eq here
      ]
