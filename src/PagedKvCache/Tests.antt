-- ===== src/PagedKvCache/Tests.antt =====
-- Runs of the pool on small concrete inputs: two tokens to a block, three blocks, one layer, and
-- tensor slices that are numbers.
use mini_gpt.Prelude.{
  ℕ, ◌+◌, ◌≤◌, ◌≡◌, refl, ap, none, some, true, false, List, [], ◌∷◌, arith, length, set,
}
use mini_gpt.Prelude.Int.{pos}
use mini_gpt.Prelude.Tally.{count}
use mini_gpt.Dict.{get, put}
use mini_gpt.Exec.{Ends, Returns, returns, raises, Result, ok, Error, capacity}
use mini_gpt.PagedKvCache.Types.{
  PagedKvCacheConfig, PhysicalBlock, RequestTable, PagedKvCachePool, Storage,
}
use mini_gpt.PagedKvCache.Blocks.{protected_blocks, private_count}
use mini_gpt.PagedKvCache.Allocator.{acquire_blocks, evict_one, return_blocks, release_table_blocks}
use mini_gpt.PagedKvCache.Checks.{occurrences, verify_invariants}
use mini_gpt.PagedKvCache.Reservation.{
  reserve, grow_reservation, can_grow_reservation, table_of, current_total,
}
use mini_gpt.PagedKvCache.Storage.{
  CacheTensor, LayerKvCache, KvCache, validate_cache, write_blocks, gather,
}
use mini_gpt.PagedKvCache.Requests.{write_prefill, release}
use mini_gpt.PagedKvCache.Requests.{release_all}
use mini_gpt.PagedKvCache.Soundness.Drain.{Emptied, release_all-Emptied}
use mini_gpt.PagedKvCache.Construct.{empty_pool, new_pool, new_pool-IsSound}
use mini_gpt.PagedKvCache.Soundness.{IsSound}
use mathlib.Core.Path.{subst}
use mini_gpt.PagedKvCache.Types.{shared}
use mini_gpt.PagedKvCache.Accounts.{Books, Accounts-set, bit_ne}
use mini_gpt.PagedKvCache.Accounts.Acquire.{Acquired, Refused, acquire_blocks-Acquired, evictable}
use mini_gpt.PagedKvCache.Accounts.Return.{Returned, return_blocks-Returned}
use mini_gpt.PagedKvCache.Accounts.Release.{Released, release_table_blocks-Released}
use mini_gpt.PagedKvCache.Accounts.Roles.{MayReleaseAll}
use mini_gpt.PagedKvCache.Accounts.Evict.Step.{EvictOutcome, evict_one-EvictOutcome}
use mini_gpt.PagedKvCache.Storage.RoundTrip.{gather-keys, gather-values}
use mini_gpt.PagedKvCache.Storage.Validate.{Accepted, validate_cache-Accepted}
use mini_gpt.PagedKvCache.Soundness.Counts.{reservation_backed}
use mini_gpt.PagedKvCache.Soundness.Verify.{verify-IsSound}
use mini_gpt.PagedKvCache.Soundness.Grow.{Grown, grow_reservation-Grown}
use mini_gpt.PagedKvCache.Requests.{append, append_delta, materialize}
use mini_gpt.PagedKvCache.Soundness.Append.Whole.{
  append-Appended, append_delta-Appended, AppendedTo,
}
use mini_gpt.PagedKvCache.Soundness.Release.{LetGo, release-LetGo}
use mini_gpt.PagedKvCache.Soundness.Reserve.{
  Reserved, ReservedSome, reserve-Reserved, reserve_succeeds, new_table,
}
use mini_gpt.PagedKvCache.Soundness.Prefill.{Prefilled}
use mini_gpt.PagedKvCache.Soundness.Prefill.Whole.{write_prefill-Prefilled}

ok-eq : {A : Type 0} {a b : A} → ok a ≡ ok b → a ≡ b
ok-eq e = cc

-- The state that a call leaves when it returns.
left :
    {S A : Type 0} {Q : S → Type 0} {E : Error → S → Type 0} {r : Result A × S} {a : A}
    → Ends (λ _ q. Q q) E r
    → r.0 ≡ ok a
    → Q r.1
left (returns q) e = q
left (raises x) e = cc

left_with :
    {S A : Type 0} {Q : A → S → Type 0} {E : Error → S → Type 0} {r : Result A × S} {a : A}
    → Ends Q E r
    → r.0 ≡ ok a
    → Q a r.1
left_with {Q} (returns {a} {s} q) e = subst (λ b. Q b s) (ok-eq e) q
left_with (raises x) e = cc

abbrev config : PagedKvCacheConfig
config = record { block_tokens = 2; num_blocks = 3 }

abbrev blank : Storage ℕ
blank = record { key_blocks = λ _ _ _. 0; value_blocks = λ _ _ _. 0 }

abbrev pool : PagedKvCachePool ℕ
pool = empty_pool config 1 1 1 "f" "cpu" none blank

new_pool-IsSound_example : IsSound pool
unfolding new_pool
new_pool-IsSound_example =
    new_pool-IsSound config (pos 1) (pos 1) (pos 1) "f" "cpu" none blank {p = pool} (omega arith)
      refl

abbrev tensor : List ℕ → CacheTensor ℕ
tensor rows = record {
  rank = 4;
  batch = 1;
  heads = 1;
  head_size = 1;
  dtype = "f";
  device = "cpu";
  requires_grad = false;
  rows = rows;
}

abbrev cache : KvCache ℕ
cache = record { key = tensor (11 ∷ 12 ∷ 13 ∷ []); value = tensor (21 ∷ 22 ∷ 23 ∷ []) } ∷ []

abbrev reserved : PagedKvCachePool ℕ
reserved = (reserve "r" (pos 2) (some (pos 3)) pool).1

reserve_ok : (reserve "r" (pos 2) (some (pos 3)) pool).0 ≡ ok tt
unfolding reserve mini_gpt.Dict.contains mini_gpt.Dict.all_items put mini_gpt.Dict.size
reserve_ok = refl

reserve_succeeds_example :
    Returns (λ _. Reserved pool "r" 2 3) (reserve "r" (pos 2) (some (pos 3)) pool)
unfolding protected_blocks get mini_gpt.Dict.sum_values
reserve_succeeds_example =
    reserve_succeeds pool "r" 2 3 new_pool-IsSound_example refl refl (omega arith) (omega arith)
      (omega arith)

reserved-IsSound : IsSound reserved
reserved-IsSound = (left reserve_succeeds_example reserve_ok).sound

reserved_table : get reserved.tables "r" ≡ some (new_table 2 3)
unfolding get put
reserved_table = ap (λ m. get m "r") (left reserve_succeeds_example reserve_ok).tables

write_prefill-Prefilled_example :
    Ends
      (λ _. Prefilled reserved "r" cache)
      (λ _ q. q ≡ reserved)
      (write_prefill "r" cache reserved)
write_prefill-Prefilled_example = write_prefill-Prefilled reserved "r" cache reserved-IsSound

prefill_ok : (write_prefill "r" cache reserved).0 ≡ ok tt
unfolding write_prefill reserve get mini_gpt.Dict.contains mini_gpt.Dict.all_items put
    mini_gpt.Dict.size validate_cache mini_gpt.PagedKvCache.Reservation.required_blocks
    acquire_blocks mini_gpt.PagedKvCache.Allocator.evict_until
    mini_gpt.PagedKvCache.Allocator.claim_blocks mini_gpt.PagedKvCache.Allocator.claim_block
    mini_gpt.PagedKvCache.Storage.write_cache
prefill_ok = refl

abbrev filled_pool : PagedKvCachePool ℕ
filled_pool = (write_prefill "r" cache reserved).1

filled_Prefilled : Prefilled reserved "r" cache filled_pool
filled_Prefilled = left write_prefill-Prefilled_example prefill_ok

abbrev filled_table : RequestTable
filled_table = record {
  reserved_blocks = 2;
  block_ids = 0 ∷ 1 ∷ [];
  cache_length = 3;
  max_blocks = 3;
}

found_filled : get filled_pool.tables "r" ≡ some filled_table
unfolding write_prefill reserve get mini_gpt.Dict.contains mini_gpt.Dict.all_items put
    mini_gpt.Dict.size validate_cache mini_gpt.PagedKvCache.Reservation.required_blocks
    acquire_blocks mini_gpt.PagedKvCache.Allocator.evict_until
    mini_gpt.PagedKvCache.Allocator.claim_blocks mini_gpt.PagedKvCache.Allocator.claim_block
    mini_gpt.PagedKvCache.Storage.write_cache
found_filled = refl

reserve-Reserved_example :
    Ends (λ _. ReservedSome pool "r" (pos 4)) (λ _ q. q ≡ pool) (reserve "r" (pos 4) none pool)
reserve-Reserved_example = reserve-Reserved pool "r" (pos 4) none new_pool-IsSound_example

grow_reservation-Grown_example :
    Ends
      (λ d q.
        Grown reserved "r" 3 (new_table 2 3) d q
        × ((can_grow_reservation "r" (pos 3) reserved).0 ≡ ok true))
      (λ e q.
        (e ≡ capacity)
        × (q ≡ reserved)
        × ((can_grow_reservation "r" (pos 3) reserved).0 ≡ ok false))
      (grow_reservation "r" (pos 3) reserved)
grow_reservation-Grown_example =
    grow_reservation-Grown reserved "r" 3 (new_table 2 3) reserved-IsSound reserved_table

reservation_backed_example : 2 ≤ length reserved.free_blocks + evictable reserved
unfolding private_count
reservation_backed_example =
    reservation_backed reserved "r" (new_table 2 3) 2 reserved-IsSound reserved_table (omega arith)

verify-IsSound_example : verify_invariants filled_pool ≡ (ok tt, filled_pool)
verify-IsSound_example = verify-IsSound filled_pool filled_Prefilled.sound

release-LetGo_example : Returns (λ _. LetGo filled_pool "r") (release "r" filled_pool)
release-LetGo_example =
    release-LetGo filled_pool "r" filled_table filled_Prefilled.sound found_filled

abbrev longer_cache : KvCache ℕ
longer_cache =
    record { key = tensor (11 ∷ 12 ∷ 13 ∷ 14 ∷ []); value = tensor (21 ∷ 22 ∷ 23 ∷ 24 ∷ []) } ∷ []

append-Appended_example :
    Ends
      (λ _ q. AppendedTo filled_pool "r" longer_cache (λ t. t.cache_length) q)
      (λ _ q. q ≡ filled_pool)
      (append "r" longer_cache filled_pool)
append-Appended_example = append-Appended filled_pool "r" longer_cache filled_Prefilled.sound

abbrev delta : KvCache ℕ
delta = record { key = tensor (14 ∷ []); value = tensor (24 ∷ []) } ∷ []

append_delta-Appended_example :
    Ends
      (λ _ q.
        AppendedTo filled_pool "r" delta (λ _. 0) q × (validate_cache delta filled_pool ≡ ok 1))
      (λ _ q. q ≡ filled_pool)
      (append_delta "r" delta filled_pool)
append_delta-Appended_example = append_delta-Appended filled_pool "r" delta filled_Prefilled.sound

-- Both go on from the second slot of the second block.
append_read_back :
    (materialize "r" (append_delta "r" delta filled_pool).1).0
    ≡ ok ((11 ∷ 12 ∷ 13 ∷ 14 ∷ [], 21 ∷ 22 ∷ 23 ∷ 24 ∷ []) ∷ [])
unfolding append_delta materialize get validate_cache write_prefill reserve mini_gpt.Dict.contains
    mini_gpt.Dict.all_items put mini_gpt.Dict.size mini_gpt.PagedKvCache.Reservation.required_blocks
    acquire_blocks mini_gpt.PagedKvCache.Allocator.evict_until
    mini_gpt.PagedKvCache.Allocator.claim_blocks mini_gpt.PagedKvCache.Allocator.claim_block
    mini_gpt.PagedKvCache.Storage.write_cache mini_gpt.PagedKvCache.Storage.write_token
append_read_back = refl

abbrev nothing_held : ℕ → ℕ
nothing_held i = 0

acquire_blocks-Acquired_example :
    Ends
      (Acquired pool nothing_held 2 "r")
      (Refused pool nothing_held 2)
      (acquire_blocks 2 "r" pool)
unfolding occurrences
acquire_blocks-Acquired_example =
    acquire_blocks-Acquired 2 "r" pool nothing_held new_pool-IsSound_example.accounts

acquire_ok : (acquire_blocks 2 "r" pool).0 ≡ ok (0 ∷ 1 ∷ [])
unfolding acquire_blocks mini_gpt.PagedKvCache.Allocator.evict_until
    mini_gpt.PagedKvCache.Allocator.claim_blocks mini_gpt.PagedKvCache.Allocator.claim_block
acquire_ok = refl

abbrev claimed : PagedKvCachePool ℕ
claimed = (acquire_blocks 2 "r" pool).1

claimed-Acquired : Acquired pool nothing_held 2 "r" (0 ∷ 1 ∷ []) claimed
claimed-Acquired = left_with acquire_blocks-Acquired_example acquire_ok

return_blocks-Returned_example :
    Returns
      (λ _. Returned claimed nothing_held (0 ∷ 1 ∷ []))
      (return_blocks (0 ∷ 1 ∷ []) "r" claimed)
return_blocks-Returned_example =
    return_blocks-Returned (0 ∷ 1 ∷ []) "r" claimed nothing_held claimed-Acquired.accounts
      claimed-Acquired.owns

may_release : MayReleaseAll claimed.blocks "r" (0 ∷ 1 ∷ [])
unfolding acquire_blocks mini_gpt.PagedKvCache.Allocator.evict_until
    mini_gpt.PagedKvCache.Allocator.claim_blocks mini_gpt.PagedKvCache.Allocator.claim_block
may_release = ((_, refl, refl), ((_, refl, refl), tt))

release_table_blocks-Released_example :
    Returns (λ _. Released claimed nothing_held) (release_table_blocks (0 ∷ 1 ∷ []) "r" claimed)
release_table_blocks-Released_example =
    release_table_blocks-Released (0 ∷ 1 ∷ []) "r" claimed nothing_held claimed-Acquired.accounts
      may_release

-- A pool whose first block is idle in the prefix cache.
abbrev idle_block : PhysicalBlock ℕ
idle_block = record {
  state = shared;
  owner_request_id = none;
  prefix_hash = some "h";
  active_refcount = 0;
  last_used = 1;
  token_fingerprint = some "f";
  token_block = some (5 ∷ 6 ∷ []);
  boundary_logits = some 9;
}

abbrev idle_pool : PagedKvCachePool ℕ
idle_pool = record pool {
  blocks = set pool.blocks 0 idle_block;
  free_blocks = 1 ∷ 2 ∷ [];
  prefix_index = ("h", 0) ∷ [];
}

idle_pool-Books : Books idle_pool nothing_held
unfolding occurrences get mini_gpt.Dict.size mini_gpt.Dict.contains
idle_pool-Books =
    Accounts-set new_pool-IsSound_example.accounts 0 refl idle_block (1 ∷ 2 ∷ []) (("h", 0) ∷ [])
      nothing_held (λ j ne. omega (arith, bit_ne 0 j ne)) refl (λ j ne. refl) refl refl
      (λ hash j ne e. cc) (λ z. refl) refl (refl, tt)

evict_one-EvictOutcome_example : Returns (EvictOutcome idle_pool nothing_held) (evict_one idle_pool)
evict_one-EvictOutcome_example = evict_one-EvictOutcome idle_pool nothing_held idle_pool-Books

once : (i : ℕ) → count i (2 ∷ 0 ∷ []) ≤ 1
once i = ground arith

gather-keys_example :
    gather ((write_blocks cache 2 (2 ∷ 0 ∷ []) 3 0 blank).0.key_blocks 0) 2 3 (2 ∷ 0 ∷ [])
    ≡ 11 ∷ 12 ∷ 13 ∷ []
gather-keys_example = gather-keys cache 2 (2 ∷ 0 ∷ []) 3 blank 0 refl once (omega arith) refl

gather-values_example :
    gather ((write_blocks cache 2 (2 ∷ 0 ∷ []) 3 0 blank).0.value_blocks 0) 2 3 (2 ∷ 0 ∷ [])
    ≡ 21 ∷ 22 ∷ 23 ∷ []
gather-values_example = gather-values cache 2 (2 ∷ 0 ∷ []) 3 blank 0 refl once (omega arith) refl

validate_cache-Accepted_example : Accepted pool cache 3
unfolding validate_cache
validate_cache-Accepted_example = validate_cache-Accepted pool cache {n = 3} refl

release_all-Emptied_example : Returns (λ _. Emptied) (release_all filled_pool)
release_all-Emptied_example = release_all-Emptied filled_pool filled_Prefilled.sound
