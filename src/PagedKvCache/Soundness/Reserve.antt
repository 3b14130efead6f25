-- ===== src/PagedKvCache/Soundness/Reserve.antt =====
-- `reserve` and `grow_reservation` on a sound pool.
use mini_gpt.Prelude.{
  ℕ, ◌+◌, ◌≤◌, ◌<◌, ◌≡◌, refl, sym, String, Option, none, some, false, [], arith, leb, leb→le,
  leb→lt, le→leb, Bool-cases, Option-cases, inl, inr, str_eq,
}
use mini_gpt.Prelude.Int.{ℤ, pos, negsuc}
use mathlib.Core.Path.{subst}
use mini_gpt.Prelude.Tally
use mini_gpt.Prelude.Tally.{total}
use mini_gpt.Dict.{
  get, put, contains, sum_values, sum_values-put_new, IsDistinct-put, Items-put, contains-get,
}
use mini_gpt.Exec.{Ends, Ends-mono, Ends-continue, Returns, returns, raises}
use mini_gpt.PagedKvCache.Types.{RequestTable, PagedKvCachePool}
use mini_gpt.PagedKvCache.Blocks.{private_count, shared_count, protected_blocks, ceil_div}
use mini_gpt.PagedKvCache.Checks.{occurrences, update_peaks}
use mini_gpt.PagedKvCache.Reservation.{
  save_table, can_reserve, resolve_max_blocks, admit_table, reserve,
}
use mini_gpt.PagedKvCache.Accounts.{Books-congr}
use mini_gpt.PagedKvCache.Soundness.{TableSound, IsSound}
use mini_gpt.PagedKvCache.Soundness.Verify.{settle-IsSound, update_peaks-IsSound}
use mini_gpt.PagedKvCache.Soundness.Tables.{IsSound-next}

abbrev pub new_table : ℕ → ℕ → RequestTable
new_table count bound = record {
  reserved_blocks = count;
  block_ids = [];
  cache_length = 0;
  max_blocks = bound;
}

-- Rounding up an empty cache takes no block.
ceil_div_zero : (n : ℕ) → 0 < n → ceil_div 0 n ≡ 0
unfolding ceil_div
ceil_div_zero n h = grind arith

module _ {T : Type 0} where
  -- What `reserve` promises.
  pub record Reserved (p : PagedKvCachePool T) (id : String) (count bound : ℕ)
      (q : PagedKvCachePool T) : Type 0 where
    pub sound : IsSound q
    pub tables : q.tables ≡ put p.tables id (new_table count bound)
    pub protection : protected_blocks q ≡ protected_blocks p + count
    pub blocks : q.blocks ≡ p.blocks
    pub within : count ≤ bound

  new_table-TableSound :
      (n : ℕ) (p : PagedKvCachePool T) (id : String) (count bound : ℕ)
      → 0 < n
      → count ≤ bound
      → TableSound n p.blocks id (new_table count bound)
  unfolding private_count shared_count
  new_table-TableSound n p id count bound h w = record {
    nodup = λ i. omega arith;
    logical_order = sym (ceil_div_zero n h);
    within_reservation = omega arith;
    within_max = omega (arith, w);
    listed = λ i k. absurd (k refl);
    private_tail = λ r i e. cc;
  }

  module _ (p : PagedKvCachePool T) (id : String) (count bound : ℕ) (s : IsSound p)
      (e : get p.tables id ≡ none) (w : count ≤ bound)
      (fits : protected_blocks p + count ≤ p.config.num_blocks) where
    more :
        sum_values (λ u. u.reserved_blocks) (put p.tables id (new_table count bound))
        ≡ sum_values (λ u. u.reserved_blocks) p.tables + count
    more =
        sum_values-put_new (λ (u : RequestTable). u.reserved_blocks) p.tables id
          (new_table count bound) e

    same_occurrences :
        (j : ℕ) → occurrences (put p.tables id (new_table count bound)) j ≡ occurrences p.tables j
    unfolding occurrences
    same_occurrences j = omega (
      arith,
      sum_values-put_new (λ (u : RequestTable). Tally.count j u.block_ids) p.tables id
          (new_table count bound) e,
    )

    admitted-IsSound : IsSound (save_table id (new_table count bound) p)
    unfolding protected_blocks
    admitted-IsSound =
        let t = new_table count bound in
        IsSound-next p (save_table id t p) (put p.tables id t) refl refl refl s
          (Books-congr p same_occurrences s.accounts)
          (Items-put (TableSound p.config.block_tokens p.blocks) p.tables id t s.tables
            (new_table-TableSound p.config.block_tokens p id count bound s.positive w))
          (IsDistinct-put p.tables id t s.distinct) (omega (arith, more, fits))

    admitted : Reserved p id count bound (update_peaks (save_table id (new_table count bound) p))
    unfolding protected_blocks update_peaks
    admitted = record {
      sound = update_peaks-IsSound (save_table id (new_table count bound) p) admitted-IsSound;
      tables = refl;
      protection = omega (arith, more);
      blocks = refl;
      within = w;
    }

  -- The limits that validation hands on.
  pub record Resolved (p : PagedKvCachePool T) (reserved : ℤ) (limits : ℕ × ℕ)
      (q : PagedKvCachePool T) : Type 0 where
    pub unchanged : q ≡ p
    pub given : reserved ≡ pos limits.0
    pub ordered : limits.0 ≤ limits.1
    pub in_pool : limits.1 ≤ p.config.num_blocks

  resolve_tail :
      (p : PagedKvCachePool T) (n m : ℕ)
      → Ends (Resolved p (pos n)) (λ _ q. q ≡ p) (resolve_max_blocks (pos n) (some (pos m)) p)
  unfolding resolve_max_blocks
  resolve_tail p n m = elim (Bool-cases (leb n m)) [
    | inr e ↦ rw e (raises refl)
    | inl e ↦ elim (Bool-cases (leb m p.config.num_blocks)) [
      | inl f ↦
          rw (e, f)
            (returns (record {
              unchanged = refl;
              given = refl;
              ordered = leb→le _ _ e;
              in_pool = leb→le _ _ f;
            }))
      | inr f ↦ rw (e, f) (raises refl)
    ]
  ]

  resolve-Resolved :
      (p : PagedKvCachePool T) (reserved : ℤ) (bound : Option ℤ)
      → Ends (Resolved p reserved) (λ _ q. q ≡ p) (resolve_max_blocks reserved bound p)
  unfolding resolve_max_blocks
  resolve-Resolved p (negsuc n) bound = raises refl
  resolve-Resolved p (pos n) none = resolve_tail p n n
  resolve-Resolved p (pos n) (some (pos m)) = resolve_tail p n m
  resolve-Resolved p (pos n) (some (negsuc m)) = raises refl

  admit-Reserved :
      (p : PagedKvCachePool T) (id : String) (count bound : ℕ)
      → IsSound p
      → get p.tables id ≡ none
      → count ≤ bound
      → Ends
          (λ _. Reserved p id count bound)
          (λ e q. (q ≡ p) × (p.config.num_blocks < protected_blocks p + count))
          (admit_table id count bound p)
  unfolding admit_table can_reserve
  admit-Reserved p id count bound s e w =
      elim (Bool-cases (leb (protected_blocks p + count) p.config.num_blocks)) [
        | inl f ↦
            let fits = leb→le _ _ f in
            rw
              (
                f,
                settle-IsSound (save_table id (new_table count bound) p)
                    (admitted-IsSound p id count bound s e w fits),
              )
              (returns (admitted p id count bound s e w fits))
        | inr f ↦ rw f (raises (refl, leb→lt _ _ f))
      ]

  absent :
      (p : PagedKvCachePool T) (id : String) → contains p.tables id ≡ false → get p.tables id ≡ none
  absent p id h = elim (Option-cases (get p.tables id)) [
    | inl e ↦ e
    | inr (t, e) ↦ absurd (ground (arith, contains-get p.tables id))
  ]

  -- The reservation is one of the limits that the arguments stand for.
  abbrev pub ReservedSome : PagedKvCachePool T → String → ℤ → PagedKvCachePool T → Type 0
  ReservedSome p id reserved q =
      (limits : ℕ × ℕ) × (reserved ≡ pos limits.0) × Reserved p id limits.0 limits.1 q

  -- On a sound pool `reserve` either raises and leaves the pool as it was, or returns with a
  -- sound pool that has the request's empty table in addition, whose reservation is the number
  -- asked for, is at most its lifetime bound, and is added to the protected blocks; no block
  -- changes.
  pub reserve-Reserved :
      (p : PagedKvCachePool T) (id : String) (reserved : ℤ) (bound : Option ℤ)
      → IsSound p
      → Ends (λ _. ReservedSome p id reserved) (λ _ q. q ≡ p) (reserve id reserved bound p)
  unfolding reserve
  reserve-Reserved p id reserved bound s = elim (Bool-cases (str_eq id "")) [
    | inl e ↦ rw e (raises refl)
    | inr e ↦ elim (Bool-cases (contains p.tables id)) [
      | inl f ↦ rw (e, f) (raises refl)
      | inr f ↦
          rw (e, f)
            (Ends-continue _ (resolve-Resolved p reserved bound) λ l q r.
              subst
                (λ x.
                  Ends (λ _. ReservedSome p id reserved) (λ _ q. q ≡ p) (admit_table id l.0 l.1 x))
                (sym r.unchanged)
                (Ends-mono (admit-Reserved p id l.0 l.1 s (absent p id f) r.ordered)
                  (λ _ x y. (l, r.given, y)) (λ _ x y. y.0)))
    ]
  ]

  -- On a sound pool `reserve` returns whenever the identifier is new and not empty, the
  -- reservation is at most its lifetime bound, the bound is at most the pool's size, and the
  -- protected blocks and the reservation together are too.
  pub reserve_succeeds :
      (p : PagedKvCachePool T) (id : String) (count bound : ℕ)
      → IsSound p
      → str_eq id "" ≡ false
      → get p.tables id ≡ none
      → count ≤ bound
      → bound ≤ p.config.num_blocks
      → protected_blocks p + count ≤ p.config.num_blocks
      → Returns (λ _. Reserved p id count bound) (reserve id (pos count) (some (pos bound)) p)
  unfolding reserve resolve_max_blocks admit_table can_reserve
  reserve_succeeds p id count bound s i e w b fits =
      let new : contains p.tables id ≡ false = ground (arith, contains-get p.tables id) in
      rw
        (
          i,
          new,
          le→leb _ _ w,
          le→leb _ _ b,
          le→leb _ _ fits,
          settle-IsSound (save_table id (new_table count bound) p)
              (admitted-IsSound p id count bound s e w fits),
        )
        (returns (admitted p id count bound s e w fits))
