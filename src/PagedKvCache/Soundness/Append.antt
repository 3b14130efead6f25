-- ===== src/PagedKvCache/Soundness/Append.antt =====
-- `append` and `append_delta` on a sound pool.
pub mod Whole
use mini_gpt.Prelude.{
  ℕ, suc, ◌+◌, ◌*◌, ◌/◌, ◌-◌, ◌%◌, ◌≡◌, ◌≢◌, ◌<◌, ◌≤◌, arith, refl, sym, ◌∙◌, ap, String, Option,
  none, some, Bool, true, false, List, [], ◌∷◌, ◌++◌, ◌==◌, leb, leb→le, length, length-append,
  Bool-cases, Option-cases, inl, inr, ==_iff, eq_iff, str_eq, get_elem?,
}
use mathlib.Core.Path.{subst, ap₂}
use native.Mathlib.Nat.{div-eq_of_lt-le, div-add-mod'}
use mini_gpt.Dict.{get, put, get-put, Items-get}
use mini_gpt.Exec.{
  Ends, Ends-mono, Ends-continue, Returns, returns, raises, Result, ok, err, Error, capacity,
  continue, invalid, ownership, index_error,
}
use mini_gpt.PagedKvCache.Types.{RequestTable, PagedKvCachePool, Storage}
use mini_gpt.PagedKvCache.Blocks.{private_count, ceil_div}
use mini_gpt.PagedKvCache.Allocator.{acquire_blocks}
use mini_gpt.PagedKvCache.Checks.{occurrences, update_peaks, last}
use mini_gpt.PagedKvCache.Reservation.{table_of, save_table, settle}
use mini_gpt.PagedKvCache.Storage.{
  KvCache, LayerKvCache, validate_cache, write_token, write_row, gather,
}
use mini_gpt.PagedKvCache.Storage.RoundTrip.{ceil_div_enough}
use mini_gpt.PagedKvCache.Storage.Tail.{ceil_inside, ceil_boundary, gather-write_row}
use mini_gpt.PagedKvCache.Storage.Validate.{Result-cases}
use mini_gpt.PagedKvCache.Requests.{append, append_delta, acquire_tail, store_token}
use mini_gpt.PagedKvCache.Accounts.{Books-congr}
use mini_gpt.PagedKvCache.Accounts.Frame.{Worked-refl}
use mini_gpt.PagedKvCache.Accounts.Acquire.{Acquired, Refused, acquire_blocks-Acquired}
use mini_gpt.PagedKvCache.Soundness.{TableSound, IsSound}
use mini_gpt.PagedKvCache.Soundness.Counts.{reservation_backed}
use mini_gpt.PagedKvCache.Soundness.Verify.{settle-IsSound, update_peaks-IsSound}
use mini_gpt.PagedKvCache.Soundness.Extend.{longer, extended, extended-IsSound}

last_some : (is : List ℕ) → last is ≡ none → length is ≡ 0
last_some [] e = refl
last_some (i ∷ []) e = cc
last_some (i ∷ j ∷ is) e = absurd (last_none j is e)
  where
    last_none : (j : ℕ) (is : List ℕ) → last (j ∷ is) ≡ none → ⊥
    last_none j [] e = cc
    last_none j (k ∷ is) e = last_none k is e

module _ {T : Type 0} where
  -- What an append promises: a sound pool, in which the request's table is one token longer, by at
  -- most one new block, and every other table is as it was. In each layer the rows that are gathered
  -- are those from before, and then the given token's.
  pub record Appended (p : PagedKvCachePool T) (id : String) (t : RequestTable) (cache : KvCache T)
      (token : ℕ) (q : PagedKvCachePool T) : Type 0 where
    pub sound : IsSound q
    pub new : List ℕ
    pub at_most_one : length new ≤ 1
    pub tables : q.tables ≡ put p.tables id (longer t new (t.cache_length + 1))
    pub keys :
        (l : ℕ) (lay : LayerKvCache T) (x : T)
        → get_elem? cache l ≡ some lay
        → get_elem? lay.key.rows token ≡ some x
        → gather
            (q.storage.key_blocks l)
            q.config.block_tokens
            (t.cache_length + 1)
            (t.block_ids ++ new)
          ≡ gather (p.storage.key_blocks l) p.config.block_tokens t.cache_length t.block_ids
            ++ x ∷ []
    pub values :
        (l : ℕ) (lay : LayerKvCache T) (x : T)
        → get_elem? cache l ≡ some lay
        → get_elem? lay.value.rows token ≡ some x
        → gather
            (q.storage.value_blocks l)
            q.config.block_tokens
            (t.cache_length + 1)
            (t.block_ids ++ new)
          ≡ gather (p.storage.value_blocks l) p.config.block_tokens t.cache_length t.block_ids
            ++ x ∷ []

  module _ (p : PagedKvCachePool T) (id : String) (t : RequestTable) (cache : KvCache T) (token : ℕ)
      (s : IsSound p) (e : get p.tables id ≡ some t) where
    own : TableSound p.config.block_tokens p.blocks id t
    own = Items-get (TableSound p.config.block_tokens p.blocks) p.tables id s.tables e

    inside :
        (t.cache_length % p.config.block_tokens == 0) ≡ false → acquire_tail id t p ≡ (ok [], p)
    unfolding acquire_tail
    inside f = rw f

    no_room :
        (t.cache_length % p.config.block_tokens == 0) ≡ true
        → leb (private_count p.blocks t + 1) t.reserved_blocks ≡ false
        → acquire_tail id t p ≡ (err capacity, p)
    unfolding acquire_tail
    no_room f r = rw (f, r)

    next_block :
        (t.cache_length % p.config.block_tokens == 0) ≡ true
        → leb (private_count p.blocks t + 1) t.reserved_blocks ≡ true
        → acquire_tail id t p ≡ acquire_blocks 1 id p
    unfolding acquire_tail
    next_block f r = rw (f, r)

    nothing-Acquired : Acquired p (occurrences p.tables) 0 id [] p
    nothing-Acquired = record {
      length-ids = refl;
      accounts = Books-congr p (λ j. omega arith) s.accounts;
      worked = Worked-refl (occurrences p.tables) p;
      owns = tt;
      fits = omega arith;
    }

    module _ (n : ℕ) (new : List ℕ) (q : PagedKvCachePool T)
        (a : Acquired p (occurrences p.tables) n id new q) (few : n ≤ 1)
        (sound : (w : Storage T) → IsSound (extended q id t new (t.cache_length + 1) w)) where
      after : ℕ → Storage T
      after i = (write_token cache i (t.cache_length % q.config.block_tokens) token q).storage

      store_step :
          (i : ℕ)
          → last (t.block_ids ++ new) ≡ some i
          → store_token id cache token t new q
            ≡ settle (extended q id t new (t.cache_length + 1) (after i))
      unfolding store_token after write_token
      store_step i l = rw (l, store_token)

      tokens : q.config.block_tokens ≡ p.config.block_tokens
      tokens = ap (λ c. c.block_tokens) a.worked.same.config

      -- The extended table is as sound as the pool that it stands in.
      table :
          (w : Storage T)
          → TableSound q.config.block_tokens q.blocks id (longer t new (t.cache_length + 1))
      table w =
          Items-get (TableSound q.config.block_tokens q.blocks)
            (put q.tables id (longer t new (t.cache_length + 1))) id (sound w).tables
            (get-put q.tables id id (longer t new (t.cache_length + 1))
              ∙ ground (arith, eq_iff id id))

      held : t.cache_length ≤ length t.block_ids * q.config.block_tokens
      held =
          subst (λ (d : ℕ). t.cache_length ≤ length t.block_ids * d) (sym tokens)
            (subst (λ (m : ℕ). t.cache_length ≤ m * p.config.block_tokens) (sym own.logical_order)
              (ceil_div_enough t.cache_length p.config.block_tokens s.positive))

      gathered :
          (side : LayerKvCache T → List T) (old before : ℕ → ℕ → ℕ → T) (i l : ℕ)
          {lay : LayerKvCache T} {x : T}
          → last (t.block_ids ++ new) ≡ some i
          → get_elem? cache l ≡ some lay
          → get_elem? (side lay) token ≡ some x
          → old ≡ before
          → gather
              (write_row side cache i (t.cache_length % q.config.block_tokens) token old l)
              q.config.block_tokens
              (t.cache_length + 1)
              (t.block_ids ++ new)
            ≡ gather (before l) p.config.block_tokens t.cache_length t.block_ids ++ x ∷ []
      gathered side old before i l {x} e g r o =
          gather-write_row side cache old l q.config.block_tokens t.cache_length i token
            (subst (λ (d : ℕ). 0 < d) (sym tokens) s.positive) g r t.block_ids new e
            (table p.storage).nodup (table p.storage).logical_order held
          ∙ ap₂ (λ (f : ℕ → ℕ → ℕ → T) (d : ℕ). gather (f l) d t.cache_length t.block_ids ++ x ∷ [])
              o tokens

      stored :
          (i : ℕ)
          → last (t.block_ids ++ new) ≡ some i
          → Returns (λ _. Appended p id t cache token) (store_token id cache token t new q)
      unfolding update_peaks after write_token
      stored i l =
          rw
            (
              store_step i l,
              settle-IsSound (extended q id t new (t.cache_length + 1) (after i)) (sound (after i)),
            )
            (returns (record {
              sound =
                  update_peaks-IsSound (extended q id t new (t.cache_length + 1) (after i))
                    (sound (after i));
              new = new;
              at_most_one = omega (arith, a.length-ids, few);
              tables = ap (λ m. put m id (longer t new (t.cache_length + 1))) a.worked.same.tables;
              keys = λ n lay x g r.
                  gathered (λ y. y.key.rows) q.storage.key_blocks p.storage.key_blocks i n l g r
                    (ap (λ w. w.key_blocks) a.worked.same.storage);
              values = λ n lay x g r.
                  gathered (λ y. y.value.rows) q.storage.value_blocks p.storage.value_blocks i n l g
                    r (ap (λ w. w.value_blocks) a.worked.same.storage);
            }))

      no_tail :
          last (t.block_ids ++ new) ≡ none
          → store_token id cache token t new q ≡ (err index_error, q)
      unfolding store_token
      no_tail l = rw (l, store_token)

    stored_inside :
        (t.cache_length % p.config.block_tokens == 0) ≡ false
        → Ends (λ _. Appended p id t cache token) (λ _ q. q ≡ p) (store_token id cache token t [] p)
    stored_inside f =
        let ragged : t.cache_length % p.config.block_tokens ≢ 0 = λ z. absurd (ground arith) in
        let sound =
          extended-IsSound p p id t [] 0 (t.cache_length + 1) s e nothing-Acquired
            (omega (
              arith,
              own.logical_order,
              ceil_inside t.cache_length p.config.block_tokens s.positive ragged,
            ))
            (omega (arith, own.within_reservation)) (λ r z. ragged) in
        elim (Option-cases (last (t.block_ids ++ []))) [
          | inl l ↦ rw (no_tail 0 [] p nothing-Acquired (omega arith) sound l) (raises refl)
          | inr (i, l) ↦
              Ends-mono (stored 0 [] p nothing-Acquired (omega arith) sound i l) (λ _ _ x. x)
                (λ _ _ x. absurd x)
        ]

    stored_new :
        (t.cache_length % p.config.block_tokens == 0) ≡ true
        → private_count p.blocks t + 1 ≤ t.reserved_blocks
        → (new : List ℕ) (q : PagedKvCachePool T) → Acquired p (occurrences p.tables) 1 id new q
        → Returns (λ _. Appended p id t cache token) (store_token id cache token t new q)
    stored_new f room new q a =
        let even : t.cache_length % p.config.block_tokens ≡ 0 = (==_iff _ _).0 f in
        let sound =
          extended-IsSound p q id t new 1 (t.cache_length + 1) s e a
            (omega (
              arith,
              own.logical_order,
              ceil_boundary t.cache_length p.config.block_tokens s.positive even,
            ))
            room (λ r z. absurd (omega (arith, z))) in
        elim (Option-cases (last (t.block_ids ++ new))) [
          | inl l ↦ absurd (
              omega (
                arith,
                last_some (t.block_ids ++ new) l,
                length-append t.block_ids new,
                a.length-ids,
              ))
          | inr (i, l) ↦ stored 1 new q a (omega arith) sound i l
        ]

    pub tail-Appended :
        Ends
          (λ _. Appended p id t cache token)
          (λ _ q. q ≡ p)
          (continue (acquire_tail id t p).0 (store_token id cache token t) (acquire_tail id t p).1)
    tail-Appended = elim (Bool-cases (t.cache_length % p.config.block_tokens == 0)) [
      | inr f ↦ rw (inside f) (stored_inside f)
      | inl f ↦ elim (Bool-cases (leb (private_count p.blocks t + 1) t.reserved_blocks)) [
        | inr r ↦ rw (no_room f r) (raises refl)
        | inl r ↦
            let room = leb→le _ _ r in
            rw (next_block f r) (
              Ends-continue (store_token id cache token t)
                (Ends-mono (acquire_blocks-Acquired 1 id p (occurrences p.tables) s.accounts)
                  (λ _ _ a. a)
                  (λ x q z. absurd (omega (arith, z.short, reservation_backed p id t 1 s e room))))
                (λ new q a. Ends-mono (stored_new f room new q a) (λ _ _ x. x) (λ _ _ x. absurd x)))
      ]
    ]
