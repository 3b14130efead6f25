-- ===== src/PagedKvCache/Soundness/Extend.antt =====
-- A request's table takes in the blocks that were acquired for it.
use mini_gpt.Prelude.{
  ℕ, ◌+◌, ◌%◌, ◌≤◌, ◌≡◌, ◌≢◌, refl, sym, ◌∙◌, ap, String, some, List, [], ◌∷◌, ◌++◌, arith, bit,
  length, length-append, inl, inr, ◌⊎◌,
}
use mathlib.Core.List.{append-nil}
use mini_gpt.Prelude.Tally.{count, count-append, at, sum_at-append}
use mini_gpt.Dict.{
  Dict, get, put, Items-get, Items-put, IsDistinct-put, sum_values-put_old, sum_values-delete,
}
use mini_gpt.PagedKvCache.Types.{RequestTable, PagedKvCachePool, Storage}
use mini_gpt.PagedKvCache.Blocks.{
  is_private, is_shared, private_count, shared_count, protected_blocks, ceil_div,
}
use mini_gpt.PagedKvCache.Checks.{last, occurrences}
use mini_gpt.PagedKvCache.Reservation.{save_table}
use mini_gpt.PagedKvCache.Accounts.{Books-congr, ne-or-eq}
use mini_gpt.PagedKvCache.Accounts.Acquire.{Acquired}
use mini_gpt.PagedKvCache.Accounts.Roles.{role_at, role_at-get}
use mini_gpt.PagedKvCache.Soundness.{
  TableSound, TableSound-role, private_count-role, IsSound, count-last,
}
use mini_gpt.PagedKvCache.Soundness.Tables.{IsSound-next, Items-roles, NewBlocks, NewBlocks-of}

abbrev pub longer : RequestTable → List ℕ → ℕ → RequestTable
longer t new cache_length = record t { block_ids = t.block_ids ++ new; cache_length = cache_length }

pub count-le-occurrences :
    (m : Dict RequestTable) (id : String) (t : RequestTable) (j : ℕ)
    → get m id ≡ some t
    → count j t.block_ids ≤ occurrences m j
unfolding occurrences
count-le-occurrences m id t j e =
    omega (arith, sum_values-delete (λ (u : RequestTable). count j u.block_ids) m id e)

last-append : (is new : List ℕ) → (new ≡ []) ⊎ (last (is ++ new) ≡ last new)
last-append is [] = inl refl
last-append [] (k ∷ new) = inr refl
last-append (i ∷ []) (k ∷ new) = inr refl
last-append (i ∷ j ∷ is) (k ∷ new) = elim (last-append (j ∷ is) (k ∷ new)) [
  | inl e ↦ inl e
  | inr e ↦ inr e
]

module _ {T : Type 0} where
  abbrev pub extended :
      PagedKvCachePool T → String → RequestTable → List ℕ → ℕ → Storage T → PagedKvCachePool T
  extended q id t new cache_length s =
      save_table id (longer t new cache_length) (record q { storage = s })

  module _ (p q : PagedKvCachePool T) (id : String) (t : RequestTable) (new : List ℕ) (n : ℕ)
      (cache_length : ℕ) (s : IsSound p) (e : get p.tables id ≡ some t)
      (a : Acquired p (occurrences p.tables) n id new q)
      (long : length t.block_ids + n ≡ ceil_div cache_length p.config.block_tokens)
      (room : private_count p.blocks t + n ≤ t.reserved_blocks)
      (tail : cache_length % p.config.block_tokens ≢ 0
        → n ≡ 0
        → t.cache_length % p.config.block_tokens ≢ 0) where
    kept : (j : ℕ) → count j t.block_ids ≢ 0 → role_at q.blocks j ≡ role_at p.blocks j
    kept j k =
        role_at-get p.blocks q.blocks j
          (a.worked.frame j (λ z. k (omega (arith, count-le-occurrences p.tables id t j e))))

    own : TableSound p.config.block_tokens q.blocks id t
    own =
        TableSound-role p.config.block_tokens p.blocks q.blocks id t kept
          (Items-get (TableSound p.config.block_tokens p.blocks) p.tables id s.tables e)

    private_own : private_count q.blocks t ≡ private_count p.blocks t
    private_own = private_count-role p.blocks q.blocks t kept

    fresh : NewBlocks q.blocks id new
    fresh = NewBlocks-of q.blocks id new a.owns

    -- A new block stands in no table yet, and once among the new ones.
    new_once : (j : ℕ) → count j new ≢ 0 → (count j new ≡ 1) × (occurrences p.tables j ≡ 0)
    new_once j k = omega (arith, a.accounts.held_tally j, fresh.referenced j k)

    longer_tail :
        cache_length % p.config.block_tokens ≢ 0
        → (i : ℕ) → last (t.block_ids ++ new) ≡ some i
        → at (λ b. bit (is_private b)) q.blocks i ≡ 1
    longer_tail r i l = elim (last-append t.block_ids new) [
      | inl none_new ↦
          own.private_tail (tail r (sym a.length-ids ∙ ap length none_new)) i
            (sym (ap last (ap (◌++◌ t.block_ids) none_new ∙ append-nil t.block_ids)) ∙ l)
      | inr from_new ↦ fresh.private_at i (count-last new (sym from_new ∙ l))
    ]

    longer_sound : TableSound p.config.block_tokens q.blocks id (longer t new cache_length)
    unfolding private_count shared_count
    longer_sound = record {
      nodup = λ i. once i;
      logical_order = omega (arith, long, length-append t.block_ids new, a.length-ids);
      within_reservation = omega (
        arith,
        sum_at-append (λ b. bit (is_private b)) q.blocks t.block_ids new,
        fresh.privates,
        a.length-ids,
        private_own,
        room,
      );
      within_max = omega (
        arith,
        sum_at-append (λ b. bit (is_shared b)) q.blocks t.block_ids new,
        fresh.no_shared,
        own.within_max,
      );
      listed = λ i k. elim (either i k) [
        | inl old ↦ own.listed i (λ z. old z)
        | inr x ↦ fresh.listed i x
      ];
      private_tail = longer_tail;
    }
      where
        once : (i : ℕ) → count i (t.block_ids ++ new) ≤ 1
        once i = elim (ne-or-eq (count i new) 0) [
          | inl k ↦ omega (
            arith,
            new_once i k,
            count-le-occurrences p.tables id t i e,
            count-append i t.block_ids new,
          )
          | inr z ↦ omega (arith, own.nodup i, count-append i t.block_ids new)
        ]

        either :
            (i : ℕ)
            → count i (t.block_ids ++ new) ≢ 0
            → (count i t.block_ids ≢ 0) ⊎ (count i new ≢ 0)
        either i k = elim (ne-or-eq (count i t.block_ids) 0) [
          | inl old ↦ inl old
          | inr z ↦ inr (λ w. k (omega (arith, count-append i t.block_ids new)))
        ]

    extended_occurrences :
        (j : ℕ)
        → occurrences (put p.tables id (longer t new cache_length)) j
          ≡ occurrences p.tables j + count j new
    unfolding occurrences
    extended_occurrences j = omega (
      arith,
      sum_values-put_old (λ (u : RequestTable). count j u.block_ids) p.tables id
          (longer t new cache_length) e,
      count-append j t.block_ids new,
    )

    -- The invariant holds again, whatever was written to the tensors meanwhile.
    pub extended-IsSound : (w : Storage T) → IsSound (extended q id t new cache_length w)
    unfolding protected_blocks
    extended-IsSound w =
        IsSound-next p (extended q id t new cache_length w)
          (put p.tables id (longer t new cache_length)) a.worked.same.config
          a.worked.same.length_blocks
          (ap (λ m. put m id (longer t new cache_length)) a.worked.same.tables) s
          (Books-congr q extended_occurrences a.accounts)
          (Items-put (TableSound p.config.block_tokens q.blocks) p.tables id
            (longer t new cache_length)
            (Items-roles p.config.block_tokens p.blocks q.blocks p.tables
              (λ j k. role_at-get p.blocks q.blocks j (a.worked.frame j k)) s.tables)
            longer_sound)
          (IsDistinct-put p.tables id (longer t new cache_length) s.distinct)
          (omega (
            arith,
            a.worked.active,
            sum_values-put_old (λ (u : RequestTable). u.reserved_blocks) p.tables id
                (longer t new cache_length) e,
            s.within_pool,
          ))
