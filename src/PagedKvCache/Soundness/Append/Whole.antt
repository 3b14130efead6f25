-- ===== src/PagedKvCache/Soundness/Append/Whole.antt =====
-- `append` and `append_delta` as a whole: every way that a call on a sound pool can end.
use mini_gpt.Prelude.{
  ℕ, ◌+◌, ◌-◌, ◌≡◌, arith, refl, ◌∙◌, ap, String, none, some, true, false, ◌==◌, Bool-cases,
  Option-cases, inl, inr, ==_iff,
}
use mathlib.Core.Path.{subst}
use mini_gpt.Dict.{get}
use mini_gpt.Exec.{Ends, Ends-mono, raises, ok, err, Error, continue, invalid, ownership}
use mini_gpt.PagedKvCache.Types.{RequestTable, PagedKvCachePool}
use mini_gpt.PagedKvCache.Reservation.{table_of}
use mini_gpt.PagedKvCache.Storage.{KvCache, validate_cache}
use mini_gpt.PagedKvCache.Storage.Validate.{Result-cases}
use mini_gpt.PagedKvCache.Requests.{append, append_delta, acquire_tail, store_token}
use mini_gpt.PagedKvCache.Soundness.{IsSound}
use mini_gpt.PagedKvCache.Soundness.Append.{Appended, tail-Appended}

module _ {T : Type 0} where
  module _ (p : PagedKvCachePool T) (id : String) (cache : KvCache T) where
    delta_bad : (x : Error) → validate_cache cache p ≡ err x → append_delta id cache p ≡ (err x, p)
    unfolding append_delta
    delta_bad x v = rw v

    delta_long :
        (n : ℕ)
        → validate_cache cache p ≡ ok n
        → (n == 1) ≡ false
        → append_delta id cache p ≡ (err invalid, p)
    unfolding append_delta
    delta_long n v f = rw (v, f)

    delta_missing :
        (n : ℕ)
        → validate_cache cache p ≡ ok n
        → (n == 1) ≡ true
        → get p.tables id ≡ none
        → append_delta id cache p ≡ (err ownership, p)
    unfolding append_delta table_of
    delta_missing n v f e = rw (v, f, e, table_of)

    delta_step :
        (n : ℕ) (t : RequestTable)
        → validate_cache cache p ≡ ok n
        → (n == 1) ≡ true
        → get p.tables id ≡ some t
        → append_delta id cache p
          ≡ continue (acquire_tail id t p).0 (store_token id cache 0 t) (acquire_tail id t p).1
    unfolding append_delta table_of
    delta_step n t v f e = rw (v, f, e, table_of)

    append_missing : get p.tables id ≡ none → append id cache p ≡ (err ownership, p)
    unfolding append table_of
    append_missing e = rw (e, table_of)

    append_bad :
        (t : RequestTable) (x : Error)
        → get p.tables id ≡ some t
        → validate_cache cache p ≡ err x
        → append id cache p ≡ (err x, p)
    unfolding append table_of
    append_bad t x e v = rw (e, table_of, v)

    append_long :
        (t : RequestTable) (n : ℕ)
        → get p.tables id ≡ some t
        → validate_cache cache p ≡ ok n
        → (n == t.cache_length + 1) ≡ false
        → append id cache p ≡ (err invalid, p)
    unfolding append table_of
    append_long t n e v f = rw (e, table_of, v, f)

    append_step :
        (t : RequestTable) (n : ℕ)
        → get p.tables id ≡ some t
        → validate_cache cache p ≡ ok n
        → (n == t.cache_length + 1) ≡ true
        → append id cache p
          ≡ continue
              (acquire_tail id t p).0
              (store_token id cache (n - 1) t)
              (acquire_tail id t p).1
    unfolding append table_of
    append_step t n e v f = rw (e, table_of, v, f)

    -- The table that is extended is the one that the request had.
    abbrev pub AppendedTo : (RequestTable → ℕ) → PagedKvCachePool T → Type 0
    AppendedTo token q =
        (t : RequestTable) × (get p.tables id ≡ some t) × Appended p id t cache (token t) q

    -- On a sound pool `append_delta` either raises and leaves the pool exactly as it was, or
    -- returns, for a cache of one token, with a sound pool in which the request's table is one
    -- token longer, by at most one new block, every other table is as it was, and the rows
    -- gathered from each layer's blocks are those from before and then the first row of the
    -- delta.
    pub append_delta-Appended :
        IsSound p
        → Ends
            (λ _ q. AppendedTo (λ _. 0) q × (validate_cache cache p ≡ ok 1))
            (λ _ q. q ≡ p)
            (append_delta id cache p)
    append_delta-Appended s = elim (Result-cases (validate_cache cache p)) [
      | inl (x, v) ↦ rw (delta_bad x v) (raises refl)
      | inr (n, v) ↦ elim (Bool-cases (n == 1)) [
        | inr f ↦ rw (delta_long n v f) (raises refl)
        | inl f ↦ elim (Option-cases (get p.tables id)) [
          | inl e ↦ rw (delta_missing n v f e) (raises refl)
          | inr (t, e) ↦ rw (delta_step n t v f e) (
              Ends-mono (tail-Appended p id t cache 0 s e)
                (λ _ _ x. ((t, e, x), v ∙ ap ok ((==_iff _ _).0 f))) (λ _ _ x. x))
        ]
      ]
    ]

    -- On a sound pool `append` either raises and leaves the pool exactly as it was, or returns
    -- with a sound pool in which the request's table is one token longer, by at most one new
    -- block, every other table is as it was, and the rows gathered from each layer's blocks are
    -- those from before and then the cache's row at the old length.
    pub append-Appended :
        IsSound p
        → Ends (λ _ q. AppendedTo (λ t. t.cache_length) q) (λ _ q. q ≡ p) (append id cache p)
    append-Appended s = elim (Option-cases (get p.tables id)) [
      | inl e ↦ rw (append_missing e) (raises refl)
      | inr (t, e) ↦ elim (Result-cases (validate_cache cache p)) [
        | inl (x, v) ↦ rw (append_bad t x e v) (raises refl)
        | inr (n, v) ↦ elim (Bool-cases (n == t.cache_length + 1)) [
          | inr f ↦ rw (append_long t n e v f) (raises refl)
          | inl f ↦ rw (append_step t n e v f) (
              Ends-mono (tail-Appended p id t cache (n - 1) s e)
                (λ _ q x. (t, e, subst (λ k. Appended p id t cache k q) (ground (arith, f)) x))
                (λ _ _ x. x))
        ]
      ]
    ]
