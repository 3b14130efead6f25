-- ===== src/PagedKvCache/Soundness/Prefill/Whole.antt =====
-- `write_prefill` as a whole: every way that a call on a sound pool can end.
use mini_gpt.Prelude.{
  ℕ, ◌≤◌, ◌≡◌, refl, ap, String, none, some, true, false, ◌&&◌, List, [], ◌∷◌, arith, ◌==◌, leb,
  bit, leb→le, Bool-cases, Option-cases, inl, inr, ==_iff,
}
use mini_gpt.Prelude.Tally.{sum_at}
use mini_gpt.Dict.{get}
use mini_gpt.Exec.{
  Ends, Ends-mono, Ends-continue, Returns, returns, raises, ok, err, Error, capacity, ownership,
  continue,
}
use mini_gpt.PagedKvCache.Types.{RequestTable, PagedKvCachePool}
use mini_gpt.PagedKvCache.Blocks.{is_private, private_count}
use mini_gpt.PagedKvCache.Allocator.{acquire_blocks}
use mini_gpt.PagedKvCache.Checks.{occurrences}
use mini_gpt.PagedKvCache.Reservation.{table_of, required_blocks}
use mini_gpt.PagedKvCache.Storage.{KvCache, validate_cache, write_cache}
use mini_gpt.PagedKvCache.Storage.Validate.{Result-cases, validate_cache-Accepted}
use mini_gpt.PagedKvCache.Requests.{write_prefill, store_prefill, is_empty}
use mini_gpt.PagedKvCache.Accounts.Acquire.{Acquired, Refused, acquire_blocks-Acquired}
use mini_gpt.PagedKvCache.Soundness.{IsSound}
use mini_gpt.PagedKvCache.Soundness.Counts.{reservation_backed}
use mini_gpt.PagedKvCache.Soundness.Verify.{settle-IsSound}
use mini_gpt.PagedKvCache.Soundness.Prefill.{Prefilled, prefilled, prefilled-IsSound, filled, final}

module _ {T : Type 0} (p : PagedKvCachePool T) (id : String) (cache : KvCache T) where
  no_table : get p.tables id ≡ none → write_prefill id cache p ≡ (err ownership, p)
  unfolding write_prefill table_of
  no_table e = ground arith

  module _ (t : RequestTable) (e : get p.tables id ≡ some t) where
    not_fresh :
        ((t.cache_length == 0) && is_empty t.block_ids) ≡ false
        → write_prefill id cache p ≡ (err ownership, p)
    unfolding write_prefill table_of
    not_fresh f = ground arith

    module _ (f : ((t.cache_length == 0) && is_empty t.block_ids) ≡ true) where
      bad_cache :
          (x : Error) → validate_cache cache p ≡ err x → write_prefill id cache p ≡ (err x, p)
      unfolding write_prefill table_of
      bad_cache x v = rw (e, f, v, table_of)

      module _ (n : ℕ) (v : validate_cache cache p ≡ ok n) where
        too_long :
            leb (required_blocks p n) t.reserved_blocks ≡ false
            → write_prefill id cache p ≡ (err capacity, p)
        unfolding write_prefill table_of
        too_long r = rw (e, f, v, r, table_of)

        allocate :
            leb (required_blocks p n) t.reserved_blocks ≡ true
            → write_prefill id cache p
              ≡ continue
                  (acquire_blocks (required_blocks p n) id p).0
                  (store_prefill id cache n t)
                  (acquire_blocks (required_blocks p n) id p).1
        unfolding write_prefill table_of
        allocate r = rw (e, f, v, r, table_of)

  empty_ids : (t : RequestTable) → is_empty t.block_ids ≡ true → t.block_ids ≡ []
  empty_ids t h = empty t.block_ids h
    where
      empty : (is : List ℕ) → is_empty is ≡ true → is ≡ []
      empty [] h = refl
      empty (i ∷ is) h = cc

  module _ (t : RequestTable) (e : get p.tables id ≡ some t)
      (f : ((t.cache_length == 0) && is_empty t.block_ids) ≡ true) (n : ℕ)
      (v : validate_cache cache p ≡ ok n) (s : IsSound p)
      (room : required_blocks p n ≤ t.reserved_blocks) where
    ids_empty : t.block_ids ≡ []
    ids_empty = empty_ids t (ground arith)

    short : t.cache_length ≡ 0
    short = ground arith

    never-Refused :
        (x : Error) (q : PagedKvCachePool T)
        → Refused p (occurrences p.tables) (required_blocks p n) x q
        → ⊥
    unfolding private_count
    never-Refused x q r =
        let nothing : private_count p.blocks t ≡ 0 =
          ap (sum_at (λ b. bit (is_private b)) p.blocks) ids_empty in
        omega (
          arith,
          r.short,
          reservation_backed p id t (required_blocks p n) s e (omega (arith, nothing, room)),
        )

    stored :
        (new : List ℕ) (q : PagedKvCachePool T)
        → Acquired p (occurrences p.tables) (required_blocks p n) id new q
        → Returns (λ _. Prefilled p id cache) (store_prefill id cache n t new q)
    unfolding store_prefill write_cache
    stored new q a =
        let ac = validate_cache-Accepted p cache v in
        let full = filled p q id t cache n new s e ids_empty short ac room a in
        rw
          (
            (==_iff _ _).1 full,
            settle-IsSound (final p q id t cache n new s e ids_empty short ac room a)
                (prefilled-IsSound p q id t cache n new s e ids_empty short ac room a),
          )
          (returns (prefilled p q id t cache n new s e ids_empty short ac room a v))

  -- On a sound pool `write_prefill` either raises and leaves the pool exactly as it was, or
  -- returns with a sound pool in which `materialize` of the request gives every layer's keys and
  -- values as they were given, and changes nothing.
  pub write_prefill-Prefilled :
      IsSound p → Ends (λ _. Prefilled p id cache) (λ _ q. q ≡ p) (write_prefill id cache p)
  write_prefill-Prefilled s = elim (Option-cases (get p.tables id)) [
    | inl e ↦ rw (no_table e) (raises refl)
    | inr (t, e) ↦ elim (Bool-cases ((t.cache_length == 0) && is_empty t.block_ids)) [
      | inr f ↦ rw (not_fresh t e f) (raises refl)
      | inl f ↦ elim (Result-cases (validate_cache cache p)) [
        | inl (x, v) ↦ rw (bad_cache t e f x v) (raises refl)
        | inr (n, v) ↦ elim (Bool-cases (leb (required_blocks p n) t.reserved_blocks)) [
          | inr r ↦ rw (too_long t e f n v r) (raises refl)
          | inl r ↦
              let room = leb→le _ _ r in
              rw (allocate t e f n v r) (
                Ends-continue (store_prefill id cache n t)
                  (Ends-mono
                    (acquire_blocks-Acquired (required_blocks p n) id p (occurrences p.tables)
                      s.accounts)
                    (λ _ _ a. a) (λ x q z. absurd (never-Refused t e f n v s room x q z)))
                  (λ new q a.
                    Ends-mono (stored t e f n v s room new q a) (λ _ _ g. g) (λ _ _ z. absurd z)))
        ]
      ]
    ]
  ]
