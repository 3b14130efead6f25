-- ===== src/PagedKvCache/Soundness/Prefill.antt =====
-- `write_prefill` on a sound pool, and `materialize` after it.
pub mod Whole
use mini_gpt.Prelude.{
  ℕ, zero, suc, ◌+◌, ◌*◌, ◌%◌, ◌≤◌, ◌<◌, ◌≡◌, ◌≢◌, refl, sym, ◌∙◌, ap, String, Option, none, some,
  Bool, true, false, not, ◌&&◌, ◌||◌, List, [], ◌∷◌, ◌++◌, arith, bit, ◌==◌, leb, leb→le, length,
  get_elem?, Bool-cases, Option-cases, inl, inr, ==_iff, str_eq, eq_iff, if◌then◌else◌,
}
use mathlib.Core.Path.{subst, ap₂}
use mini_gpt.Prelude.Tally.{count, sum_at}
use mini_gpt.Dict.{Dict, get, put, get-put}
use mini_gpt.Exec.{
  Ends, Ends-mono, Ends-continue, Returns, returns, raises, Result, ok, err, Error, capacity,
  ownership, continue,
}
use mini_gpt.PagedKvCache.Types.{RequestTable, PagedKvCachePool, Storage}
use mini_gpt.PagedKvCache.Blocks.{is_private, private_count, ceil_div}
use mini_gpt.PagedKvCache.Allocator.{acquire_blocks}
use mini_gpt.PagedKvCache.Checks.{occurrences, update_peaks}
use mini_gpt.PagedKvCache.Reservation.{table_of, save_table, settle, required_blocks}
use mini_gpt.PagedKvCache.Storage.{
  KvCache, LayerKvCache, validate_cache, write_cache, write_blocks, gather, gather_layers,
}
use mini_gpt.PagedKvCache.Storage.RoundTrip.{
  write_blocks_end, gather-keys, gather-values, ceil_div_enough,
}
use mini_gpt.PagedKvCache.Storage.Validate.{
  Result-cases, Accepted, validate_cache-Accepted, AllLong-get, dense, gather_layers-dense,
}
use mini_gpt.PagedKvCache.Requests.{
  write_prefill, store_prefill, undo_blocks, materialize, is_empty,
}
use mini_gpt.PagedKvCache.Accounts.Acquire.{Acquired, Refused, acquire_blocks-Acquired}
use mini_gpt.PagedKvCache.Accounts.{ne-or-eq}
use mini_gpt.PagedKvCache.Soundness.Tables.{NewBlocks-of}
use mini_gpt.PagedKvCache.Soundness.{TableSound, IsSound}
use mini_gpt.PagedKvCache.Soundness.Counts.{reservation_backed}
use mini_gpt.PagedKvCache.Soundness.Verify.{settle-IsSound, update_peaks-IsSound}
use mini_gpt.PagedKvCache.Soundness.Extend.{longer, extended, extended-IsSound}

is_empty-length : (is : List ℕ) → is_empty is ≡ true → length is ≡ 0
is_empty-length [] h = refl
is_empty-length (i ∷ is) h = cc

module _ {T : Type 0} where
  -- What `write_prefill` promises: the invariant, and that the cache can be read back.
  pub record Prefilled (p : PagedKvCachePool T) (id : String) (cache : KvCache T)
      (q : PagedKvCachePool T) : Type 0 where
    pub sound : IsSound q
    pub cache_length : ℕ
    pub validated : validate_cache cache p ≡ ok cache_length
    pub table : RequestTable
    pub found : get q.tables id ≡ some table
    pub table_length : table.cache_length ≡ cache_length
    pub read_back : materialize id q ≡ (ok (dense cache), q)

  pub materialize_found :
      (p : PagedKvCachePool T) (id : String) (t : RequestTable)
      → get p.tables id ≡ some t
      → ((t.cache_length == 0) || is_empty t.block_ids) ≡ false
      → materialize id p ≡ (ok (gather_layers p.storage p.config.block_tokens t 0 p.n_layer), p)
  unfolding materialize table_of
  materialize_found p id t e n = rw (e, table_of, n)

  module _ (p q : PagedKvCachePool T) (id : String) (t : RequestTable) (cache : KvCache T)
      (cache_length : ℕ) (new : List ℕ) (s : IsSound p) (e : get p.tables id ≡ some t)
      (empty : t.block_ids ≡ []) (short : t.cache_length ≡ 0)
      (ok_cache : Accepted p cache cache_length)
      (room : required_blocks p cache_length ≤ t.reserved_blocks)
      (a : Acquired p (occurrences p.tables) (required_blocks p cache_length) id new q) where
    abbrev pub written : Storage T × ℕ
    written = write_blocks cache q.config.block_tokens new cache_length 0 q.storage

    abbrev pub final : PagedKvCachePool T
    final = extended q id t new cache_length written.0

    same_tokens : q.config.block_tokens ≡ p.config.block_tokens
    same_tokens = ap (λ c. c.block_tokens) a.worked.same.config

    enough : cache_length ≤ length new * q.config.block_tokens
    unfolding required_blocks
    enough =
        let n : ceil_div cache_length p.config.block_tokens ≡ length new = sym a.length-ids in
        subst (λ (d : ℕ). cache_length ≤ length new * d) (sym same_tokens)
          (subst (λ (m : ℕ). cache_length ≤ m * p.config.block_tokens) n
            (ceil_div_enough cache_length p.config.block_tokens s.positive))

    pub filled : written.1 ≡ cache_length
    filled =
        write_blocks_end cache q.config.block_tokens new cache_length 0 q.storage (omega arith)
          (omega (arith, enough))

    nothing_private : private_count p.blocks t ≡ 0
    unfolding private_count
    nothing_private = ap (sum_at (λ b. bit (is_private b)) p.blocks) empty

    not_none : required_blocks p cache_length ≢ 0
    not_none z =
        let none_new : length new ≡ 0 = a.length-ids ∙ z in
        let l : cache_length ≤ 0 * q.config.block_tokens =
          subst (λ (n : ℕ). cache_length ≤ n * q.config.block_tokens) none_new enough in
        absurd (omega (arith, ok_cache.positive))

    pub prefilled-IsSound : IsSound final
    unfolding required_blocks
    prefilled-IsSound =
        extended-IsSound p q id t new (required_blocks p cache_length) cache_length s e a
          (omega (arith, ap length empty)) (omega (arith, nothing_private, room))
          (λ r z. absurd (not_none z)) written.0

    prefilled_table : get (update_peaks final).tables id ≡ some (longer t new cache_length)
    unfolding update_peaks
    prefilled_table =
        get-put q.tables id id (longer t new cache_length) ∙ ground (arith, eq_iff id id)

    once : (j : ℕ) → count j new ≤ 1
    once j = elim (ne-or-eq (count j new) 0) [
      | inl k ↦
          omega
            (arith, a.accounts.held_tally j, (NewBlocks-of q.blocks id new a.owns).referenced j k)
      | inr z ↦ omega arith
    ]

    ids_new : t.block_ids ++ new ≡ new
    ids_new = ap (λ l. l ++ new) empty

    layer_back :
        (j : ℕ) (lay : LayerKvCache T)
        → get_elem? cache j ≡ some lay
        → (gather
              (written.0.key_blocks (0 + j))
              q.config.block_tokens
              cache_length
              (t.block_ids ++ new)
            ≡ lay.key.rows)
          × (gather
                (written.0.value_blocks (0 + j))
                q.config.block_tokens
                cache_length
                (t.block_ids ++ new)
              ≡ lay.value.rows)
    layer_back j lay g =
        let (k, v) = AllLong-get cache_length cache j ok_cache.lengths g in
        (
          ap₂ (λ i l. gather (written.0.key_blocks i) q.config.block_tokens cache_length l)
                (omega arith) ids_new
              ∙ gather-keys cache q.config.block_tokens new cache_length q.storage j g once enough
                  k,
          ap₂ (λ i l. gather (written.0.value_blocks i) q.config.block_tokens cache_length l)
                (omega arith) ids_new
              ∙ gather-values cache q.config.block_tokens new cache_length q.storage j g once enough
                  v,
        )

    not_empty : ((cache_length == 0) || is_empty (t.block_ids ++ new)) ≡ false
    not_empty = ground (
      arith,
      ok_cache.positive,
      is_empty-length (t.block_ids ++ new),
      ap length ids_new,
      a.length-ids,
      not_none,
    )

    layers_back :
        gather_layers written.0 q.config.block_tokens (longer t new cache_length) 0 q.n_layer
        ≡ dense cache
    layers_back =
        ap (gather_layers written.0 q.config.block_tokens (longer t new cache_length) 0)
          (a.worked.same.n_layer ∙ sym ok_cache.layers)
        ∙ gather_layers-dense written.0 q.config.block_tokens (longer t new cache_length) 0 cache
            layer_back

    pub prefilled :
        validate_cache cache p ≡ ok cache_length → Prefilled p id cache (update_peaks final)
    unfolding update_peaks
    prefilled v = record {
      sound = update_peaks-IsSound final prefilled-IsSound;
      cache_length = cache_length;
      validated = v;
      table = longer t new cache_length;
      found = prefilled_table;
      table_length = refl;
      read_back =
          materialize_found (update_peaks final) id (longer t new cache_length) prefilled_table
            not_empty
          ∙ ap (λ l. (ok l, update_peaks final)) layers_back;
    }
