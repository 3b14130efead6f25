-- ===== src/PagedKvCache/Soundness/Grow.antt =====
-- `grow_reservation` and its preview `can_grow_reservation` on a sound pool.
use mini_gpt.Prelude.{
  ℕ, ◌+◌, ◌-◌, ◌≤◌, ◌≡◌, refl, ◌∙◌, ap, String, some, Bool, true, false, arith, ltb, leb, leb→le,
  leb→lt, ltb→le, Bool-cases, inl, inr, eq_iff, if◌then◌else◌,
}
use mini_gpt.Prelude.Int.{pos}
use mini_gpt.Prelude.Tally
use mini_gpt.Dict.{
  get, put, sum_values, sum_values-put_old, IsDistinct-put, Items-put, Items-get, get-put,
}
use mini_gpt.Exec.{Ends, Ends-mono, returns, raises, ok, capacity}
use mini_gpt.PagedKvCache.Types.{RequestTable, PagedKvCachePool}
use mini_gpt.PagedKvCache.Blocks.{private_count, shared_count, protected_blocks}
use mini_gpt.PagedKvCache.Checks.{occurrences, update_peaks}
use mini_gpt.PagedKvCache.Reservation.{
  table_of, save_table, current_total, can_grow_reservation, grow_table, grow_reservation,
}
use mini_gpt.PagedKvCache.Accounts.{Books-congr}
use mini_gpt.PagedKvCache.Soundness.{TableSound, IsSound}
use mini_gpt.PagedKvCache.Soundness.Verify.{settle-IsSound, update_peaks-IsSound}
use mini_gpt.PagedKvCache.Soundness.Tables.{IsSound-next}

abbrev pub wider : RequestTable → ℕ → RequestTable
wider t delta = record t { reserved_blocks = t.reserved_blocks + delta }

module _ {T : Type 0} where
  -- What `grow_reservation` promises: the reservation covers the goal, and nothing else moved.
  pub record Grown (p : PagedKvCachePool T) (id : String) (goal : ℕ) (t : RequestTable) (delta : ℕ)
      (q : PagedKvCachePool T) : Type 0 where
    pub sound : IsSound q
    pub table : get q.tables id ≡ some (wider t delta)
    pub covers : goal ≤ current_total (wider t delta) q
    pub exact : delta ≡ goal - current_total t p
    pub protection : protected_blocks q ≡ protected_blocks p + delta
    pub blocks : q.blocks ≡ p.blocks

  -- The pool that the growing branch hands to its closing checks.
  abbrev grown : PagedKvCachePool T → String → RequestTable → ℕ → PagedKvCachePool T
  grown p id t delta = record (save_table id (wider t delta) p) {
    counters = record (p.counters) {
      reservation_growth_count = p.counters.reservation_growth_count + 1;
      reservation_growth_blocks = p.counters.reservation_growth_blocks + delta;
    };
  }

  module _ (p : PagedKvCachePool T) (id : String) (t : RequestTable) (delta : ℕ) (s : IsSound p)
      (e : get p.tables id ≡ some t) (bound : current_total t p + delta ≤ t.max_blocks)
      (fits : protected_blocks p + delta ≤ p.config.num_blocks) where
    more :
        sum_values (λ u. u.reserved_blocks) (put p.tables id (wider t delta))
        ≡ sum_values (λ u. u.reserved_blocks) p.tables + delta
    more = omega (
      arith,
      sum_values-put_old (λ (u : RequestTable). u.reserved_blocks) p.tables id (wider t delta) e,
    )

    same_occurrences :
        (j : ℕ) → occurrences (put p.tables id (wider t delta)) j ≡ occurrences p.tables j
    unfolding occurrences
    same_occurrences j = omega (
      arith,
      sum_values-put_old (λ (u : RequestTable). Tally.count j u.block_ids) p.tables id
          (wider t delta) e,
    )

    wider_sound : TableSound p.config.block_tokens p.blocks id (wider t delta)
    unfolding private_count shared_count
    wider_sound =
        let own = Items-get (TableSound p.config.block_tokens p.blocks) p.tables id s.tables e in
        record {
          nodup = own.nodup;
          logical_order = own.logical_order;
          within_reservation = omega (arith, own.within_reservation);
          within_max = omega (arith, bound);
          listed = own.listed;
          private_tail = own.private_tail;
        }

    grown-IsSound : IsSound (grown p id t delta)
    unfolding protected_blocks
    grown-IsSound =
        IsSound-next p (grown p id t delta) (put p.tables id (wider t delta)) refl refl refl s
          (Books-congr p same_occurrences s.accounts)
          (Items-put (TableSound p.config.block_tokens p.blocks) p.tables id (wider t delta)
            s.tables wider_sound)
          (IsDistinct-put p.tables id (wider t delta) s.distinct) (omega (arith, more, fits))

    grown_peaks :
        (goal : ℕ)
        → delta ≡ goal - current_total t p
        → Grown p id goal t delta (update_peaks (grown p id t delta))
    unfolding protected_blocks update_peaks shared_count
    grown_peaks goal d = record {
      sound = update_peaks-IsSound (grown p id t delta) grown-IsSound;
      table = get-put p.tables id id (wider t delta) ∙ ground (arith, eq_iff id id);
      covers = omega (arith, d);
      exact = d;
      protection = omega (arith, more);
      blocks = refl;
    }

  -- What `can_grow_reservation` answers.
  abbrev pub verdict : PagedKvCachePool T → ℕ → RequestTable → Bool
  verdict p goal t =
      if leb goal (current_total t p)
      then true
      else if ltb t.max_blocks goal
      then false
      else leb (protected_blocks p + (goal - current_total t p)) p.config.num_blocks

  grow_table-Grown :
      (p : PagedKvCachePool T) (id : String) (goal : ℕ) (t : RequestTable)
      → IsSound p
      → get p.tables id ≡ some t
      → Ends
          (λ d q. Grown p id goal t d q × (verdict p goal t ≡ true))
          (λ e q. (e ≡ capacity) × (q ≡ p) × (verdict p goal t ≡ false))
          (grow_table id goal t p)
  unfolding grow_table
  grow_table-Grown p id goal t s e = elim (Bool-cases (leb goal (current_total t p))) [
    | inl f ↦ rw f (
        returns (
          record {
            sound = s;
            table = e ∙ ap (λ n. some (record t { reserved_blocks = n })) (omega arith);
            covers = omega (arith, leb→le _ _ f);
            exact = omega (arith, leb→le _ _ f);
            protection = omega arith;
            blocks = refl;
          },
          refl,
        ))
    | inr f ↦ elim (Bool-cases (ltb t.max_blocks goal)) [
      | inl g ↦ rw (f, g) (raises (refl, refl, refl))
      | inr g ↦
          let delta = goal - current_total t p in
          elim (Bool-cases (leb (protected_blocks p + delta) p.config.num_blocks)) [
            | inl h ↦
                let bound : current_total t p + delta ≤ t.max_blocks =
                  omega (arith, leb→lt _ _ f, ltb→le _ _ g) in
                let fits = leb→le _ _ h in
                rw
                  (
                    f,
                    g,
                    h,
                    settle-IsSound (grown p id t delta) (grown-IsSound p id t delta s e bound fits),
                  )
                  (returns (grown_peaks p id t delta s e bound fits goal refl, refl))
            | inr h ↦ rw (f, g, h) (raises (refl, refl, refl))
          ]
    ]
  ]

  grow_step :
      (p : PagedKvCachePool T) (id : String) (goal : ℕ) (t : RequestTable)
      → get p.tables id ≡ some t
      → grow_reservation id (pos goal) p ≡ grow_table id goal t p
  unfolding grow_reservation table_of
  grow_step p id goal t e = ground arith

  preview_step :
      (p : PagedKvCachePool T) (id : String) (goal : ℕ) (t : RequestTable)
      → get p.tables id ≡ some t
      → (can_grow_reservation id (pos goal) p).0 ≡ ok (verdict p goal t)
  unfolding can_grow_reservation table_of
  preview_step p id goal t e = rw (e, table_of)

  -- On a sound pool, for a request that has a table and a target that is not negative,
  -- `grow_reservation` returns just where `can_grow_reservation` says yes, with a sound pool
  -- whose reservation covers the target and protects as many blocks more as it grew by, and
  -- elsewhere raises a capacity error and leaves the pool as it was.
  pub grow_reservation-Grown :
      (p : PagedKvCachePool T) (id : String) (goal : ℕ) (t : RequestTable)
      → IsSound p
      → get p.tables id ≡ some t
      → Ends
          (λ d q. Grown p id goal t d q × ((can_grow_reservation id (pos goal) p).0 ≡ ok true))
          (λ e q. (e ≡ capacity) × (q ≡ p) × ((can_grow_reservation id (pos goal) p).0 ≡ ok false))
          (grow_reservation id (pos goal) p)
  grow_reservation-Grown p id goal t s e = rw (grow_step p id goal t e) (
      Ends-mono (grow_table-Grown p id goal t s e)
        (λ d q x. (x.0, preview_step p id goal t e ∙ ap ok x.1))
        (λ d q x. (x.0, x.1, preview_step p id goal t e ∙ ap ok x.2)))
