-- ===== src/PagedKvCache/Prefix/Collisions.antt =====
-- A look-up attaches only blocks that hold the prompt's own tokens, whatever the hashes are.
use mini_gpt.Prelude.{
  ℕ, suc, ◌*◌, ◌/◌, ◌≡◌, refl, ap, String, Option, none, some, Bool, true, false, List, [], ◌∷◌,
  ◌&&◌, arith, ◌==◌, ==_iff, get_elem?, take, Bool-cases, Option-cases, inl, inr, length,
}
use mathlib.Core.Path.{ap₂}
use mini_gpt.Dict.{get}
use mini_gpt.Exec.{
  Ends, Ends-mono, Ends-continue, ok, err, returns, raises, continue, ownership, index_error,
  invalid, pure,
}
use mini_gpt.PagedKvCache.Types.{PagedKvCachePool, PhysicalBlock, PrefixCacheNamespace}
use mini_gpt.PagedKvCache.Blocks.{is_shared}
use mini_gpt.PagedKvCache.Allocator.{block_at}
use mini_gpt.PagedKvCache.Prefix.{
  Hashing, same_tokens, is_string, is_tokens, token_block, chain_from, prefix_hash_chain,
  validate_canonical, longest_from, longest_prefix,
}

same_tokens-eq : (xs ys : List ℕ) → same_tokens xs ys ≡ true → xs ≡ ys
same_tokens-eq [] [] e = refl
same_tokens-eq [] (y ∷ ys) e = cc
same_tokens-eq (x ∷ xs) [] e = cc
same_tokens-eq (x ∷ xs) (y ∷ ys) e = elim (Bool-cases (x == y)) [
  | inl h ↦ ap₂ ◌∷◌ ((==_iff x y).0 h) (same_tokens-eq xs ys (ground arith))
  | inr h ↦ absurd (ground arith)
]

is_tokens-eq : (o : Option (List ℕ)) (ys : List ℕ) → is_tokens o ys ≡ true → o ≡ some ys
is_tokens-eq none ys e = cc
is_tokens-eq (some xs) ys e = ap some (same_tokens-eq xs ys e)

module _ {T : Type 0} where
  -- A shared block at the index that holds the tokens.
  abbrev pub Holds : PagedKvCachePool T → ℕ → List ℕ → Type 0
  Holds p i tokens =
      (b : PhysicalBlock T) × (get_elem? p.blocks i ≡ some b)
      × (is_shared b ≡ true)
      × (b.token_block ≡ some tokens)

  -- The blocks hold the prompt's tokens, block by block from a logical index on.
  abbrev pub HoldsPrompt : PagedKvCachePool T → List ℕ → ℕ → List ℕ → Type 0
  HoldsPrompt p prompt k [] = Unit
  HoldsPrompt p prompt k (i ∷ is) =
      Holds p i (token_block p.config.block_tokens (k * p.config.block_tokens) prompt)
      × HoldsPrompt p prompt (suc k) is

  module _ (p : PagedKvCachePool T) (i : ℕ) (hash : String) (tokens : List ℕ)
      (fingerprint : String) where
    canonical_missing :
        get_elem? p.blocks i ≡ none
        → validate_canonical i hash tokens fingerprint p ≡ (err index_error, p)
    unfolding validate_canonical block_at
    canonical_missing e = rw (e, block_at)

    abbrev matches : PhysicalBlock T → Bool
    matches b =
        is_shared b
        && (is_string b.prefix_hash hash
            && (is_string b.token_fingerprint fingerprint && is_tokens b.token_block tokens))

    canonical_bad :
        (b : PhysicalBlock T)
        → get_elem? p.blocks i ≡ some b
        → matches b ≡ false
        → validate_canonical i hash tokens fingerprint p ≡ (err ownership, p)
    unfolding validate_canonical block_at
    canonical_bad b e m = rw (e, block_at, m)

    canonical_ok :
        (b : PhysicalBlock T)
        → get_elem? p.blocks i ≡ some b
        → matches b ≡ true
        → validate_canonical i hash tokens fingerprint p ≡ (ok tt, p)
    unfolding validate_canonical block_at
    canonical_ok b e m = rw (e, block_at, m)

    pub validate_canonical-Holds :
        Ends
          (λ _ q. (q ≡ p) × Holds p i tokens)
          (λ _ q. q ≡ p)
          (validate_canonical i hash tokens fingerprint p)
    validate_canonical-Holds = elim (Option-cases (get_elem? p.blocks i)) [
      | inl e ↦ rw (canonical_missing e) (raises refl)
      | inr (b, e) ↦ elim (Bool-cases (matches b)) [
        | inr m ↦ rw (canonical_bad b e m) (raises refl)
        | inl m ↦ rw (canonical_ok b e m) (
            returns (
              refl,
              (b, e, ground (arith, m), is_tokens-eq b.token_block tokens (ground (arith, m))),
            ))
      ]
    ]

  module _ (hashing : Hashing) (p : PagedKvCachePool T) (prompt : List ℕ) where
    abbrev tokens_at : ℕ → List ℕ
    tokens_at k = token_block p.config.block_tokens (k * p.config.block_tokens) prompt

    no_entry :
        (k : ℕ) (hash : String) (hashes : List String)
        → get p.prefix_index hash ≡ none
        → longest_from hashing prompt k (hash ∷ hashes) p ≡ (ok ([], []), p)
    unfolding longest_from
    no_entry k hash hashes e = rw (e, longest_from)

    entry :
        (k i : ℕ) (hash : String) (hashes : List String)
        → get p.prefix_index hash ≡ some i
        → longest_from hashing prompt k (hash ∷ hashes) p
          ≡ continue
              (validate_canonical i hash (tokens_at k) (hashing.fingerprint (tokens_at k)) p).0
              (λ _ q.
                continue
                  (longest_from hashing prompt (suc k) hashes q).0
                  (λ rest. pure (i ∷ rest.0, hash ∷ rest.1))
                  (longest_from hashing prompt (suc k) hashes q).1)
              (validate_canonical i hash (tokens_at k) (hashing.fingerprint (tokens_at k)) p).1
    unfolding longest_from
    entry k i hash hashes e = rw (e, longest_from)

    longest_from-HoldsPrompt :
        (k : ℕ) (hashes : List String)
        → Ends
            (λ r q. (q ≡ p) × HoldsPrompt p prompt k r.0 × (r.1 ≡ take (length r.0) hashes))
            (λ _ q. q ≡ p)
            (longest_from hashing prompt k hashes p)
    longest_from-HoldsPrompt k [] =
        unfold longest_from in returns {a = ([], [])} {s = p} (refl, tt, refl)
    longest_from-HoldsPrompt k (hash ∷ hashes) = elim (Option-cases (get p.prefix_index hash)) [
      | inl e ↦ rw (no_entry k hash hashes e) (returns (refl, tt, refl))
      | inr (i, e) ↦ rw (entry k i hash hashes e) (
          Ends-continue _
            (validate_canonical-Holds p i hash (tokens_at k) (hashing.fingerprint (tokens_at k)))
            (λ _ q h. rw h.0 (
              Ends-continue (λ rest. pure (i ∷ rest.0, hash ∷ rest.1))
                (longest_from-HoldsPrompt (suc k) hashes)
                (λ r q' g. returns (g.0, (h.1, g.1), ap (◌∷◌ hash) g.2)))))
    ]

    no_namespace :
        p.prefix_cache_namespace ≡ none → longest_prefix hashing prompt p ≡ (err invalid, p)
    unfolding longest_prefix
    no_namespace e = rw (e, longest_prefix)

    abbrev chain : PrefixCacheNamespace → List String
    chain n =
        chain_from hashing (hashing.digest n) p.config.block_tokens prompt
          (length prompt / p.config.block_tokens) 0 ""

    look_up :
        (n : PrefixCacheNamespace)
        → p.prefix_cache_namespace ≡ some n
        → longest_prefix hashing prompt p ≡ longest_from hashing prompt 0 (chain n) p
    unfolding longest_prefix prefix_hash_chain
    look_up n e = rw (e, longest_prefix)

    -- Whatever the hash functions are, `_longest_prefix` leaves the pool as it was, and if it
    -- returns, the blocks that it found are shared, and each holds, as its recorded tokens, the
    -- prompt's own tokens of the same position.
    pub longest_prefix-HoldsPrompt :
        Ends
          (λ r q. (q ≡ p) × HoldsPrompt p prompt 0 r.0)
          (λ _ q. q ≡ p)
          (longest_prefix hashing prompt p)
    longest_prefix-HoldsPrompt = elim (Option-cases p.prefix_cache_namespace) [
      | inl e ↦ rw (no_namespace e) (raises refl)
      | inr (n, e) ↦
          rw (look_up n e)
            (Ends-mono (longest_from-HoldsPrompt 0 (chain n)) (λ _ _ g. (g.0, g.1)) (λ _ _ g. g))
    ]
