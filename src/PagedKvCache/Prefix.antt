-- ===== src/PagedKvCache/Prefix.antt =====
-- src/minigpt/paged_kv_cache.py: the look-up of the automatic prefix cache. `prefix_hash_chain`,
-- `_validate_canonical`, `_longest_prefix`, `prefix_block_tokens`, `_require_prefix_namespace`.
pub mod Collisions
pub mod Attach
pub mod Promote
mod Tests
use mini_gpt.Prelude.{
  ℕ, zero, suc, ◌+◌, ◌*◌, ◌-◌, ◌/◌, String, Option, none, some, Bool, true, false, List, [], ◌∷◌,
  ◌&&◌, ◌==◌, str_eq, length, take, drop, if◌then◌else◌,
}
use mini_gpt.Dict.{get}
use mini_gpt.Exec.{
  Exec, Result, ok, err, invalid, ownership, pure, raise, guard, continue, ◌>>=◌, ◌>>◌,
}
use mini_gpt.PagedKvCache.Types.{PagedKvCachePool, PhysicalBlock, PrefixCacheNamespace}
use mini_gpt.PagedKvCache.Blocks.{is_shared}
use mini_gpt.PagedKvCache.Allocator.{block_at}

abbrev pub same_tokens : List ℕ → List ℕ → Bool
same_tokens [] [] = true
same_tokens (x ∷ xs) (y ∷ ys) = (x == y) && same_tokens xs ys
same_tokens _ _ = false

abbrev pub is_string : Option String → String → Bool
is_string none t = false
is_string (some s) t = str_eq s t

abbrev pub is_tokens : Option (List ℕ) → List ℕ → Bool
is_tokens none ys = false
is_tokens (some xs) ys = same_tokens xs ys

-- prompt_tokens[start : start + block_tokens]
abbrev pub token_block : ℕ → ℕ → List ℕ → List ℕ
token_block block_tokens start prompt = take block_tokens (drop start prompt)

-- What the code takes from json and hashlib: the digest of a namespace, the hash of a block after
-- its namespace and its parent, and the fingerprint of a block alone.
pub record Hashing : Type 0 where
  pub digest : PrefixCacheNamespace → String
  pub chained : String → String → List ℕ → String
  pub fingerprint : List ℕ → String

module _ (hashing : Hashing) where
  -- The loop of `prefix_hash_chain`, for as many complete blocks as are left from `start`.
  unfoldable pub chain_from : String → ℕ → List ℕ → ℕ → ℕ → String → List String
  chain_from digest block_tokens prompt zero start parent = []
  chain_from digest block_tokens prompt (suc n) start parent =
      let hash = hashing.chained digest parent (token_block block_tokens start prompt) in
      hash ∷ chain_from digest block_tokens prompt n (start + block_tokens) hash

module _ {T : Type 0} where
  -- _require_prefix_namespace
  abbrev pub require_prefix_namespace : Exec (PagedKvCachePool T) PrefixCacheNamespace
  require_prefix_namespace p = elim p.prefix_cache_namespace [
    | none ↦ (err invalid, p)
    | some n ↦ (ok n, p)
  ]

  unfoldable pub validate_canonical :
      ℕ → String → List ℕ → String → Exec (PagedKvCachePool T) (Unit {0})
  validate_canonical i hash tokens fingerprint = do
    b ← block_at i
    guard
        (is_shared b
          && (is_string b.prefix_hash hash
              && (is_string b.token_fingerprint fingerprint && is_tokens b.token_block tokens)))
        ownership

module _ {T : Type 0} (hashing : Hashing) where
  unfoldable pub prefix_hash_chain : List ℕ → Exec (PagedKvCachePool T) (List String)
  unfolding chain_from
  prefix_hash_chain prompt = do
    namespace ← require_prefix_namespace
    λ p. (
      ok (
          chain_from hashing (hashing.digest namespace) p.config.block_tokens prompt
            (length prompt / p.config.block_tokens) 0 ""),
      p,
    )

  -- The loop of `_longest_prefix`, from a logical index on.
  unfoldable pub longest_from :
      List ℕ → ℕ → List String → Exec (PagedKvCachePool T) (List ℕ × List String)
  unfolding validate_canonical
  longest_from prompt k [] p = (ok ([], []), p)
  longest_from prompt k (hash ∷ hashes) p = elim (get p.prefix_index hash) [
    | none ↦ (ok ([], []), p)
    | some i ↦
        let tokens = token_block p.config.block_tokens (k * p.config.block_tokens) prompt in
        (do
          validate_canonical i hash tokens (hashing.fingerprint tokens)
          rest ← longest_from prompt (suc k) hashes
          pure (i ∷ rest.0, hash ∷ rest.1))
          p
  ]

  unfoldable pub longest_prefix : List ℕ → Exec (PagedKvCachePool T) (List ℕ × List String)
  unfolding prefix_hash_chain longest_from
  longest_prefix prompt = do hashes ← prefix_hash_chain prompt; longest_from prompt 0 hashes

-- prefix_block_tokens
unfoldable pub prefix_block_tokens :
    {T : Type 0} → String → Exec (PagedKvCachePool T) (Option (List ℕ))
prefix_block_tokens hash p = elim (get p.prefix_index hash) [
  | none ↦ (ok none, p)
  | some i ↦ (do b ← block_at i; pure b.token_block) p
]
