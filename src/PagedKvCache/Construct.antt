-- ===== src/PagedKvCache/Construct.antt =====
-- src/minigpt/paged_kv_cache.py: `PagedKVCachePool.__init__`. What `torch.empty` leaves in the tensors is
-- an argument.
use mini_gpt.Prelude.{
  ℕ, zero, suc, ◌+◌, ◌<◌, ◌≡◌, refl, sym, ap, String, Option, none, some, Bool, true, ◌&&◌, List,
  [], ◌∷◌, arith, bit, ◌==◌, str_eq, if◌then◌else◌, length-replicate, replicate, get_elem?, some-eq,
}
use mathlib.Core.Path.{subst}
use mini_gpt.Prelude.Int.{ℤ, pos}
use mini_gpt.Prelude.Tally.{count, at, total}
use mini_gpt.Dict.{size}
use mini_gpt.Exec.{Result, ok, err, invalid}
use mini_gpt.PagedKvCache.Types.{
  PagedKvCacheConfig, PrefixCacheNamespace, PhysicalBlock, PagedKvCachePool, Storage, Counters,
  fresh_block,
}
use mini_gpt.PagedKvCache.Blocks.{
  is_free, is_shared, is_active, references, block_ok, protected_blocks,
}
use mini_gpt.PagedKvCache.Checks.{occurrences}
use mini_gpt.PagedKvCache.Soundness.{IsSound}

-- list(range(start, start + n))
abbrev pub range : ℕ → ℕ → List ℕ
range start zero = []
range start (suc n) = start ∷ range (suc start) n

abbrev pub no_counters : Counters
no_counters = record {
  peak_allocated_blocks = 0;
  peak_reserved_blocks = 0;
  allocation_count = 0;
  free_count = 0;
  block_reuse_count = 0;
  prefix_cache_evictions = 0;
  prefix_lookup_requests = 0;
  prefix_hit_requests = 0;
  prefix_hit_blocks = 0;
  prefix_hit_tokens = 0;
  prefix_miss_tokens = 0;
  reservation_growth_count = 0;
  reservation_growth_blocks = 0;
}

-- The checks of the constructor on the namespace of the prefix cache.
abbrev pub namespace_ok : PagedKvCacheConfig → String → String → Option PrefixCacheNamespace → Bool
namespace_ok c dtype device none = true
namespace_ok c dtype device (some n) =
    (n.block_tokens == c.block_tokens) && (str_eq n.dtype dtype && str_eq n.device device)

count-range_below : (i start n : ℕ) → i < start → count i (range start n) ≡ 0
count-range_below i start zero h = refl
count-range_below i start (suc n) h = ground (arith, count-range_below i (suc start) n)

free_range :
    (T : Type 0) (i j start n : ℕ)
    → j ≡ start + i
    → count j (range start n)
      ≡ at (λ (b : PhysicalBlock T). bit (is_free b)) (replicate n fresh_block) i
free_range T i j start zero e = refl
free_range T zero j start (suc n) e = ground (arith, count-range_below j (suc start) n)
free_range T (suc i) j start (suc n) e =
    ground (arith, free_range T i j (suc start) n (omega arith))

module _ {T : Type 0} where
  abbrev pub empty_pool :
      PagedKvCacheConfig
      → ℕ
      → ℕ
      → ℕ
      → String
      → String
      → Option PrefixCacheNamespace
      → Storage T
      → PagedKvCachePool T
  empty_pool c n_layer n_head head_size dtype device namespace storage = record {
    config = c;
    n_layer = n_layer;
    n_head = n_head;
    head_size = head_size;
    dtype = dtype;
    device = device;
    prefix_cache_namespace = namespace;
    storage = storage;
    free_blocks = range 0 c.num_blocks;
    blocks = replicate c.num_blocks fresh_block;
    tables = [];
    prefix_index = [];
    logical_clock = 0;
    recent_evictions = [];
    ever_allocated = [];
    counters = no_counters;
  }

  unfoldable pub new_pool :
      PagedKvCacheConfig
      → ℤ
      → ℤ
      → ℤ
      → String
      → String
      → Option PrefixCacheNamespace
      → Storage T
      → Result (PagedKvCachePool T)
  new_pool c (pos (suc l)) (pos (suc h)) (pos (suc d)) dtype device namespace storage =
      if namespace_ok c dtype device namespace
      then ok (empty_pool c (suc l) (suc h) (suc d) dtype device namespace storage)
      else err invalid
  new_pool c n_layer n_head head_size dtype device namespace storage = err invalid

  at_fresh :
      (w : PhysicalBlock T → ℕ) (n i : ℕ) → w fresh_block ≡ 0 → 0 ≡ at w (replicate n fresh_block) i
  at_fresh w zero i h = refl
  at_fresh w (suc n) zero h = sym h
  at_fresh w (suc n) (suc i) h = at_fresh w n i h

  total_fresh :
      (w : PhysicalBlock T → ℕ) (n : ℕ) → w fresh_block ≡ 0 → total w (replicate n fresh_block) ≡ 0
  total_fresh w zero h = refl
  total_fresh w (suc n) h = omega (arith, h, total_fresh w n h)

  get_fresh :
      (n i : ℕ) {b : PhysicalBlock T}
      → get_elem? (replicate n fresh_block) i ≡ some b
      → fresh_block ≡ b
  get_fresh zero i e = cc
  get_fresh (suc n) zero e = some-eq e
  get_fresh (suc n) (suc i) e = get_fresh n i e

  empty_pool-IsSound :
      (c : PagedKvCacheConfig) (l h d : ℕ) (dtype device : String)
      (namespace : Option PrefixCacheNamespace) (s : Storage T)
      → 0 < c.block_tokens
      → IsSound (empty_pool c l h d dtype device namespace s)
  unfolding protected_blocks occurrences size
  empty_pool-IsSound c l h d dtype device namespace s positive = record {
    accounts = record {
      free_tally = λ i. free_range T i i 0 c.num_blocks (omega arith);
      held_tally = λ i. at_fresh references c.num_blocks i refl;
      well_formed = λ i b e. ap block_ok (sym (get_fresh c.num_blocks i e));
      indexed = λ i b e sh. absurd (ground (arith, get_fresh c.num_blocks i {b = b} e));
      index_size = sym (total_fresh (λ b. bit (is_shared b)) c.num_blocks refl);
      index_distinct = tt;
    };
    tables = tt;
    distinct = tt;
    within_pool = omega (arith, total_fresh (λ b. bit (is_active b)) c.num_blocks refl);
    full = length-replicate c.num_blocks fresh_block;
    positive = positive;
  }

  -- Every pool that the constructor returns for a positive block length is sound.
  pub new_pool-IsSound :
      (c : PagedKvCacheConfig) (l h d : ℤ) (dtype device : String)
      (namespace : Option PrefixCacheNamespace) (s : Storage T) {p : PagedKvCachePool T}
      → 0 < c.block_tokens
      → new_pool c l h d dtype device namespace s ≡ ok p
      → IsSound p
  unfolding new_pool
  new_pool-IsSound c (pos (suc l)) (pos (suc h)) (pos (suc d)) dtype device namespace s {p} k e =
      let same : empty_pool c (suc l) (suc h) (suc d) dtype device namespace s ≡ p = ground arith in
      subst IsSound same (empty_pool-IsSound c (suc l) (suc h) (suc d) dtype device namespace s k)
  new_pool-IsSound c l h d dtype device namespace s k e = cc
