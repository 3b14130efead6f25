-- ===== src/PagedKvCache/Prefix/Attach.antt =====
-- src/minigpt/paged_kv_cache.py: `reserve_with_prefix` and its preview `can_reserve_with_prefix`.
use mini_gpt.Prelude.{
  ℕ, ◌+◌, ◌*◌, ◌-◌, String, Option, Bool, List, [], ◌∷◌, not, bit, ltb, leb, ◌==◌, str_eq, length,
  if◌then◌else◌, is_some,
}
use mini_gpt.Prelude.Int.{ℤ}
use mini_gpt.Prelude.Tally.{sum_at}
use mini_gpt.Dict.{contains}
use mini_gpt.Exec.{Exec, ok, err, invalid, capacity, ownership, pure, guard, ◌>>=◌, ◌>>◌}
use mini_gpt.PagedKvCache.Types.{PagedKvCachePool}
use mini_gpt.PagedKvCache.Blocks.{protected_blocks}
use mini_gpt.PagedKvCache.Allocator.{block_at, touch}
use mini_gpt.PagedKvCache.Reservation.{resolve_max_blocks, save_table, settle}
use mini_gpt.PagedKvCache.Requests.{take_recent_evictions}
use mini_gpt.PagedKvCache.Prefix.{Hashing, longest_prefix}

pub record PrefixCacheLookup : Type 0 where
  pub prefix_hashes : List String
  pub block_ids : List ℕ
  pub prefix_hit_blocks : ℕ
  pub prefix_hit_tokens : ℕ
  pub prefix_miss_tokens : ℕ
  pub evicted_prefix_hashes : List String

module _ {T : Type 0} where
  -- How many of the blocks nobody refers to.
  abbrev pub newly_active : PagedKvCachePool T → List ℕ → ℕ
  newly_active p ids = sum_at (λ b. bit (b.active_refcount == 0)) p.blocks ids

  -- for block_id in block_ids: block.active_refcount += 1; self._touch(block)
  unfoldable pub attach_blocks : List ℕ → Exec (PagedKvCachePool T) (Unit {0})
  attach_blocks [] = pure tt
  attach_blocks (i ∷ is) = do
    b ← block_at i
    λ p. (ok tt, touch i (record b { active_refcount = b.active_refcount + 1 }) p)
    attach_blocks is

  unfoldable pub count_lookup : ℕ → ℕ → ℕ → PagedKvCachePool T → PagedKvCachePool T
  count_lookup hits hit_tokens miss_tokens p = record p {
    counters = record (p.counters) {
      prefix_lookup_requests = p.counters.prefix_lookup_requests + 1;
      prefix_hit_requests = p.counters.prefix_hit_requests + bit (ltb 0 hits);
      prefix_hit_blocks = p.counters.prefix_hit_blocks + hits;
      prefix_hit_tokens = p.counters.prefix_hit_tokens + hit_tokens;
      prefix_miss_tokens = p.counters.prefix_miss_tokens + miss_tokens;
    };
  }

  -- What is left of `reserve_with_prefix` once the blocks are attached.
  unfoldable pub record_prefix :
      String → ℕ → ℕ → ℕ → List ℕ → List String → Exec (PagedKvCachePool T) PrefixCacheLookup
  unfolding count_lookup settle take_recent_evictions
  record_prefix id private_reservation resolved prompt_length ids hashes p =
      let hit_tokens = length ids * p.config.block_tokens in
      let miss_tokens = prompt_length - hit_tokens in
      (do
        settle
        evicted ← take_recent_evictions
        pure (record {
          prefix_hashes = hashes;
          block_ids = ids;
          prefix_hit_blocks = length ids;
          prefix_hit_tokens = hit_tokens;
          prefix_miss_tokens = miss_tokens;
          evicted_prefix_hashes = evicted;
        }))
        (count_lookup (length ids) hit_tokens miss_tokens (
          save_table id
            (record {
              reserved_blocks = private_reservation;
              block_ids = ids;
              cache_length = hit_tokens;
              max_blocks = resolved;
            })
            p))

  unfoldable pub attach_prefix :
      String → ℕ → ℕ → ℕ → List ℕ → List String → Exec (PagedKvCachePool T) PrefixCacheLookup
  unfolding attach_blocks record_prefix
  attach_prefix id reserved resolved prompt_length ids hashes p =
      let private_reservation = reserved - length ids in
      if ltb reserved (length ids)
      then (err capacity, p)
      else if leb (protected_blocks p + newly_active p ids + private_reservation)
          p.config.num_blocks
      then (do
        attach_blocks ids
        record_prefix id private_reservation resolved prompt_length ids hashes)
          p
      else (err capacity, p)

  unfoldable pub reserve_with_prefix :
      Hashing → String → ℤ → List ℕ → Option ℤ → Exec (PagedKvCachePool T) PrefixCacheLookup
  unfolding longest_prefix attach_prefix
  reserve_with_prefix hashing id reserved prompt bound = do
    λ p. guard (is_some p.prefix_cache_namespace) invalid p
    guard (not (str_eq id "")) invalid
    λ p. guard (not (contains p.tables id)) ownership p
    limits ← resolve_max_blocks reserved bound
    hit ← longest_prefix hashing prompt
    attach_prefix id limits.0 limits.1 (length prompt) hit.0 hit.1

  -- The preview, for a reservation that is not negative.
  unfoldable pub can_reserve_with_prefix : Hashing → ℕ → List ℕ → Exec (PagedKvCachePool T) Bool
  unfolding longest_prefix
  can_reserve_with_prefix hashing reserved prompt = do
    hit ← longest_prefix hashing prompt
    guard (leb (length hit.0) reserved) invalid
    λ p. (
      ok (
          leb (protected_blocks p + newly_active p hit.0 + (reserved - length hit.0))
            p.config.num_blocks),
      p,
    )
