-- ===== src/PagedKvCache/Reservation.antt =====
-- src/minigpt/paged_kv_cache.py: `reserve`, `grow_reservation` and their previews.
use mini_gpt.Prelude.{
  ℕ, ◌+◌, ◌-◌, String, Option, none, some, Bool, true, false, [], not, ltb, leb, str_eq,
  if◌then◌else◌,
}
use mini_gpt.Prelude.Int.{ℤ}
use mini_gpt.Dict.{get, put, contains}
use mini_gpt.Exec.{Exec, ok, err, invalid, capacity, ownership, pure, lift, guard, ◌>>=◌, ◌>>◌}
use mini_gpt.PagedKvCache.Types.{RequestTable, PagedKvCachePool, non_negative}
use mini_gpt.PagedKvCache.Blocks.{shared_count, protected_blocks, ceil_div}
use mini_gpt.PagedKvCache.Checks.{verify_invariants, update_peaks}

module _ {T : Type 0} where
  -- _table
  unfoldable pub table_of : String → Exec (PagedKvCachePool T) RequestTable
  table_of id p = elim (get p.tables id) [ none ↦ (err ownership, p) | some t ↦ (ok t, p) ]

  abbrev pub save_table : String → RequestTable → PagedKvCachePool T → PagedKvCachePool T
  save_table id t p = record p { tables = put p.tables id t }

  -- The two calls that end every operation that changes the pool.
  unfoldable pub settle : Exec (PagedKvCachePool T) (Unit {0})
  unfolding update_peaks verify_invariants
  settle p = verify_invariants (update_peaks p)

  unfoldable pub required_blocks : PagedKvCachePool T → ℕ → ℕ
  unfolding ceil_div
  required_blocks p cache_tokens = ceil_div cache_tokens p.config.block_tokens

  -- can_reserve, past its test of the argument's sign
  unfoldable pub can_reserve : ℕ → PagedKvCachePool T → Bool
  unfolding protected_blocks
  can_reserve reserved p = leb (protected_blocks p + reserved) p.config.num_blocks

  -- _resolve_max_blocks: the validated reservation and its lifetime bound
  unfoldable pub resolve_max_blocks : ℤ → Option ℤ → Exec (PagedKvCachePool T) (ℕ × ℕ)
  unfolding non_negative
  resolve_max_blocks reserved bound = do
    count ← lift (non_negative reserved)
    resolved ← lift (elim bound [ none ↦ ok count | some m ↦ non_negative m ])
    guard (leb count resolved) invalid
    λ p. if leb resolved p.config.num_blocks then (ok (count, resolved), p) else (err capacity, p)

  unfoldable pub admit_table : String → ℕ → ℕ → Exec (PagedKvCachePool T) (Unit {0})
  unfolding can_reserve settle
  admit_table id count resolved p =
      if can_reserve count p
      then settle (
          save_table id
            (record {
              reserved_blocks = count;
              block_ids = [];
              cache_length = 0;
              max_blocks = resolved;
            })
            p)
      else (err capacity, p)

  unfoldable pub reserve : String → ℤ → Option ℤ → Exec (PagedKvCachePool T) (Unit {0})
  unfolding resolve_max_blocks admit_table
  reserve id reserved bound = do
    guard (not (str_eq id "")) invalid
    λ p. guard (not (contains p.tables id)) ownership p
    limits ← resolve_max_blocks reserved bound
    admit_table id limits.0 limits.1

  -- current_total_reserved_blocks, of a table
  abbrev pub current_total : RequestTable → PagedKvCachePool T → ℕ
  current_total t p = t.reserved_blocks + shared_count p.blocks t

  unfoldable pub can_grow_reservation : String → ℤ → Exec (PagedKvCachePool T) Bool
  unfolding non_negative table_of
  can_grow_reservation id target = do
    goal ← lift (non_negative target)
    t ← table_of id
    λ p. (
      ok (
          if leb goal (current_total t p)
          then true
          else if ltb t.max_blocks goal
          then false
          else leb (protected_blocks p + (goal - current_total t p)) p.config.num_blocks),
      p,
    )

  -- grow_reservation, once the request's table is known
  unfoldable pub grow_table : String → ℕ → RequestTable → Exec (PagedKvCachePool T) ℕ
  unfolding settle
  grow_table id goal t p =
      let delta = goal - current_total t p in
      if leb goal (current_total t p)
      then (ok 0, p)
      else if ltb t.max_blocks goal
      then (err capacity, p)
      else if leb (protected_blocks p + delta) p.config.num_blocks
      then (settle >> pure delta)
          (record (save_table id (record t { reserved_blocks = t.reserved_blocks + delta }) p) {
            counters = record (p.counters) {
              reservation_growth_count = p.counters.reservation_growth_count + 1;
              reservation_growth_blocks = p.counters.reservation_growth_blocks + delta;
            };
          })
      else (err capacity, p)

  unfoldable pub grow_reservation : String → ℤ → Exec (PagedKvCachePool T) ℕ
  unfolding non_negative table_of grow_table
  grow_reservation id target = do
    goal ← lift (non_negative target)
    t ← table_of id
    grow_table id goal t
