-- ===== src/Serving/Chunks/Tables.antt =====
-- What the growth of a reservation keeps of the pool: the length of every table.
use mini_gpt.Prelude.{
  ℕ, ◌+◌, ◌-◌, ◌≡◌, refl, sym, ◌∙◌, ap, String, Option, none, some, Bool, true, false, ltb, leb,
  Bool-cases, inl, inr, str_eq, eq_iff, if◌then◌else◌,
}
use mini_gpt.Prelude.Int.{pos}
use mathlib.Core.Path.{subst}
use mini_gpt.Dict.{get, put, get-put_self, get-put_ne}
use mini_gpt.Exec.{
  Exec, Result, ok, Error, Ends, Ends-continue, Ends-read, Ends-if, Ends-option, returns, raises,
  continue, guard, pure, ◌>>◌,
}
use mini_gpt.PagedKvCache.Types.{PagedKvCachePool, RequestTable, non_negative}
use mini_gpt.PagedKvCache.Blocks.{protected_blocks}
use mini_gpt.PagedKvCache.Checks.{verify_invariants, update_peaks}
use mini_gpt.PagedKvCache.Reservation.{
  table_of, settle, save_table, can_grow_reservation, grow_table, grow_reservation, current_total,
}

abbrev pub cache_length_of : Option RequestTable → Option ℕ
cache_length_of none = none
cache_length_of (some t) = some t.cache_length

-- A call that raises, or returns and leaves the state as it was.
abbrev pub Reads : {S A : Type 0} → S → Result A × S → Type 0
Reads s = Ends (λ _ s'. s' ≡ s) (λ _ _. Unit {0})

pub guard-Reads : {S : Type 0} (b : Bool) (x : Error) (s : S) → Reads s (guard b x s)
guard-Reads true x s = returns refl
guard-Reads false x s = raises tt

pub Ends-result :
    {S A : Type 0} {Q : A → S → Type 0} {E : Error → S → Type 0} {r : Result A × S}
    → Ends Q E r
    → Ends (λ a s. Q a s × (r ≡ (ok a, s))) E r
Ends-result (returns q) = returns (q, refl)
Ends-result (raises x) = raises x

pub Ends-test :
    {S A : Type 0} {Q : A → S → Type 0} {E : Error → S → Type 0} (b : Bool) (x y : Exec S A) {s : S}
    → (b ≡ true → Ends Q E (x s))
    → (b ≡ false → Ends Q E (y s))
    → Ends Q E ((if b then x else y) s)
Ends-test true x y p q = p refl
Ends-test false x y p q = q refl

pub Reads-then :
    {S A B : Type 0} {R : B → S → Type 0} {s : S} {r : Result A × S} (f : A → Exec S B)
    → Reads s r
    → ((a : A) → Ends R (λ _ _. Unit {0}) (f a s))
    → Ends R (λ _ _. Unit {0}) (continue r.0 f r.1)
Reads-then {R} f m k =
    Ends-continue f m (λ a s' same. subst (λ w. Ends R (λ _ _. Unit {0}) (f a w)) (sym same) (k a))

module _ {T : Type 0} where
  abbrev pub KeepsLengths : PagedKvCachePool T → PagedKvCachePool T → Type 0
  KeepsLengths p q =
      (id : String) → cache_length_of (get q.tables id) ≡ cache_length_of (get p.tables id)

  put-KeepsLengths :
      (p : PagedKvCachePool T) (id : String) (t t' : RequestTable)
      → get p.tables id ≡ some t
      → t'.cache_length ≡ t.cache_length
      → KeepsLengths p (record p { tables = put p.tables id t' })
  put-KeepsLengths p id t t' found same j = elim (Bool-cases (str_eq id j)) [
    | inl hit ↦
        subst (λ k. cache_length_of (get (put p.tables id t') k) ≡ cache_length_of (get p.tables k))
          ((eq_iff id j).0 hit)
          (ap cache_length_of (get-put_self p.tables id t')
            ∙ ap some same
            ∙ sym (ap cache_length_of found))
    | inr miss ↦ ap cache_length_of (get-put_ne p.tables id j t' miss)
  ]

  verify_read : (p : PagedKvCachePool T) → Reads p (verify_invariants p)
  unfolding verify_invariants
  verify_read p = guard-Reads _ _ p

  pool_table :
      (id : String) (p : PagedKvCachePool T)
      → Ends (λ t q. (q ≡ p) × (get p.tables id ≡ some t)) (λ _ _. Unit {0}) (table_of id p)
  unfolding table_of
  pool_table id p =
      Ends-option (get p.tables id) (λ _. raises tt) (λ t found. returns (refl, found))

  settled-KeepsLengths :
      (p p0 : PagedKvCachePool T) (n : ℕ)
      → KeepsLengths p p0
      → Ends (λ _ q. KeepsLengths p q) (λ _ _. Unit {0}) ((settle >> pure n) p0)
  unfolding settle update_peaks
  settled-KeepsLengths p p0 n k =
      Ends-continue (λ _. pure n) (verify_read (update_peaks p0))
        (λ _ q same. returns (subst (KeepsLengths p) (sym same) k))

  grow_table-KeepsLengths :
      (id : String) (goal : ℕ) (t : RequestTable) (p : PagedKvCachePool T)
      → get p.tables id ≡ some t
      → Ends (λ _ q. KeepsLengths p q) (λ _ _. Unit {0}) (grow_table id goal t p)
  unfolding grow_table
  grow_table-KeepsLengths id goal t p found =
      let t' = record t { reserved_blocks = t.reserved_blocks + (goal - current_total t p) } in
      Ends-if (leb goal (current_total t p)) (λ _. returns (λ j. refl))
        (λ _.
          Ends-if (ltb t.max_blocks goal) (λ _. raises tt)
            (λ _.
              Ends-if (leb (protected_blocks p + (goal - current_total t p)) p.config.num_blocks)
                (λ _.
                  settled-KeepsLengths p
                    (record (save_table id t' p) {
                      counters = record (p.counters) {
                        reservation_growth_count = p.counters.reservation_growth_count + 1;
                        reservation_growth_blocks =
                            p.counters.reservation_growth_blocks + (goal - current_total t p);
                      };
                    })
                    (goal - current_total t p) (put-KeepsLengths p id t t' found refl))
                (λ _. raises tt)))

  pub grow_reservation-KeepsLengths :
      (id : String) (target : ℕ) (p : PagedKvCachePool T)
      → Ends (λ _ q. KeepsLengths p q) (λ _ _. Unit {0}) (grow_reservation id (pos target) p)
  unfolding grow_reservation non_negative
  grow_reservation-KeepsLengths id target p =
      Ends-read _ (pool_table id p) (λ t found. grow_table-KeepsLengths id target t p found)

  pub can_grow_reservation-Reads :
      (id : String) (target : ℕ) (p : PagedKvCachePool T)
      → Reads p (can_grow_reservation id (pos target) p)
  unfolding can_grow_reservation non_negative
  can_grow_reservation-Reads id target p = Ends-read _ (pool_table id p) (λ t found. returns refl)
