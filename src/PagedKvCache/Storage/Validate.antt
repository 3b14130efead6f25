-- ===== src/PagedKvCache/Storage/Validate.antt =====
-- What `_validate_cache` guarantees of a cache that it accepts.
use mini_gpt.Prelude.{
  ℕ, zero, suc, ◌+◌, ◌<◌, ◌≡◌, refl, sym, ◌∙◌, ap, Option, none, some, true, ◌&&◌, List, [], ◌∷◌,
  arith, ◌==◌, length, get_elem?, Bool-cases, inl, inr, map, some-eq, ◌⊎◌,
}
use mathlib.Core.Path.{subst, ap₂}
use mini_gpt.Exec.{Result, ok, err, Error}
use mini_gpt.PagedKvCache.Types.{PagedKvCachePool, Storage, RequestTable}
use mini_gpt.PagedKvCache.Storage.{
  LayerKvCache, KvCache, layer_ok, validate_layers, validate_cache, gather, gather_layers,
}

pub Result-cases :
    {A : Type 0} (r : Result A) → ((e : Error) × (r ≡ err e)) ⊎ ((a : A) × (r ≡ ok a))
Result-cases (err e) = inl (e, refl)
Result-cases (ok a) = inr (a, refl)

module _ {T : Type 0} where
  -- Both tensors of every layer hold the same number of tokens.
  abbrev pub AllLong : ℕ → KvCache T → Type 0
  AllLong n [] = Unit
  AllLong n (l ∷ ls) = (length l.key.rows ≡ n) × (length l.value.rows ≡ n) × AllLong n ls

  layer_lengths :
      (p : PagedKvCachePool T) (l : LayerKvCache T)
      → layer_ok p l ≡ true
      → length l.value.rows ≡ length l.key.rows
  unfolding layer_ok
  layer_lengths p l h = ground arith

  validate_known :
      (p : PagedKvCachePool T) (cache : KvCache T) (n : ℕ) {r : Option ℕ}
      → validate_layers p cache (some n) ≡ ok r
      → (r ≡ some n) × AllLong n cache
  unfolding validate_layers
  validate_known p [] n h = (cc, tt)
  validate_known p (l ∷ ls) n {r} h = elim (Bool-cases (layer_ok p l && (length l.key.rows == n))) [
    | inl e ↦
        let (a, b) = validate_known p ls n {r = r} (ground arith) in
        let good : layer_ok p l ≡ true = ground arith in
        let long : length l.key.rows ≡ n = ground arith in
        (a, (long, layer_lengths p l good ∙ long, b))
    | inr e ↦ absurd (ground arith)
  ]

  validate_first :
      (p : PagedKvCachePool T) (cache : KvCache T) {n : ℕ}
      → validate_layers p cache none ≡ ok (some n)
      → AllLong n cache
  unfolding validate_layers
  validate_first p [] h = tt
  validate_first p (l ∷ ls) {n} h = elim (Bool-cases (layer_ok p l)) [
    | inl e ↦
        let (a, b) = validate_known p ls (length l.key.rows) {r = some n} (ground arith) in
        let long : length l.key.rows ≡ n = ground arith in
        (long, layer_lengths p l e ∙ long, subst (λ k. AllLong k ls) long b)
    | inr e ↦ absurd (ground arith)
  ]

  -- An accepted cache has a token, one entry for each layer of the pool, and the same length in all.
  pub record Accepted (p : PagedKvCachePool T) (cache : KvCache T) (n : ℕ) : Type 0 where
    pub positive : 0 < n
    pub layers : length cache ≡ p.n_layer
    pub lengths : AllLong n cache

  -- A cache that `_validate_cache` accepts with a length has at least one token, an entry for
  -- each layer of the pool, and keys and values of that length in every layer.
  pub validate_cache-Accepted :
      (p : PagedKvCachePool T) (cache : KvCache T) {n : ℕ}
      → validate_cache cache p ≡ ok n
      → Accepted p cache n
  unfolding validate_cache
  validate_cache-Accepted p cache {n} h = elim (Result-cases (validate_layers p cache none)) [
    | inl (e, q) ↦ absurd (ground arith)
    | inr (none, q) ↦ absurd (ground arith)
    | inr (some m, q) ↦ record {
      positive = ground arith;
      layers = ground arith;
      lengths =
          let same : m ≡ n = ground arith in
          subst (λ k. AllLong k cache) same (validate_first p cache q);
    }
  ]

  pub AllLong-get :
      (n : ℕ) (cache : KvCache T) (l : ℕ) {lay : LayerKvCache T}
      → AllLong n cache
      → get_elem? cache l ≡ some lay
      → (length lay.key.rows ≡ n) × (length lay.value.rows ≡ n)
  AllLong-get n [] l h e = cc
  AllLong-get n (x ∷ xs) zero h e = (
    ap (λ (y : LayerKvCache T). length y.key.rows) (sym (some-eq e)) ∙ h.0,
    ap (λ (y : LayerKvCache T). length y.value.rows) (sym (some-eq e)) ∙ h.1,
  )
  AllLong-get n (x ∷ xs) (suc l) h e = AllLong-get n xs l h.2 e

  -- A dense cache as `materialize` returns one.
  abbrev pub dense : KvCache T → List (List T × List T)
  dense = map λ l. (l.key.rows, l.value.rows)

  pub gather_layers-dense :
      (s : Storage T) (bt : ℕ) (t : RequestTable) (k : ℕ) (cache : KvCache T)
      → ((j : ℕ) (lay : LayerKvCache T)
          → get_elem? cache j ≡ some lay
          → (gather (s.key_blocks (k + j)) bt t.cache_length t.block_ids ≡ lay.key.rows)
            × (gather (s.value_blocks (k + j)) bt t.cache_length t.block_ids ≡ lay.value.rows))
      → gather_layers s bt t k (length cache) ≡ dense cache
  unfolding gather_layers
  gather_layers-dense s bt t k [] h = refl
  gather_layers-dense s bt t k (l ∷ ls) h =
      let (keys, values) = h 0 l refl in
      let at : k ≡ k + 0 = omega arith in
      ap₂ ◌∷◌
        (ap₂ (λ (x y : List T). (x, y))
          (ap (λ i. gather (s.key_blocks i) bt t.cache_length t.block_ids) at ∙ keys)
          (ap (λ i. gather (s.value_blocks i) bt t.cache_length t.block_ids) at ∙ values))
        (gather_layers-dense s bt t (k + 1) ls (λ j lay e.
          let next : k + 1 + j ≡ k + suc j = omega arith in
          (
            ap (λ i. gather (s.key_blocks i) bt t.cache_length t.block_ids) next
                ∙ (h (suc j) lay e).0,
            ap (λ i. gather (s.value_blocks i) bt t.cache_length t.block_ids) next
                ∙ (h (suc j) lay e).1,
          )))
