-- ===== src/Serving/Admission.antt =====
-- src/minigpt/serving.py: strict FIFO admission with its reservations, and cancellations in a child module.
pub mod Cancellation
unfoldable pub use Cancellation.*
use mini_gpt.Prelude.{
  ℕ, zero, suc, ◌+◌, ◌-◌, ◌*◌, ◌/◌, min, String, Option, none, some, Bool, true, false, List, [],
  ◌∷◌, ◌++◌, ◌&&◌, ◌||◌, not, ltb, leb, ◌==◌, if◌then◌else◌, is_some, length, take, drop,
}
use mini_gpt.Prelude.Int.{ℤ, pos, leb_ℤ, is_negative}
use mini_gpt.Dict.{keys}
use mini_gpt.Exec.{Exec, ok, bad_config, pure, guard, ◌>>=◌, ◌>>◌}
use mini_gpt.PagedKvCache.Types.{PagedKvCachePool}
use mini_gpt.PagedKvCache.Reservation.{required_blocks, can_reserve, reserve}
use mini_gpt.PagedKvCache.Requests.{take_recent_evictions}
use mini_gpt.PagedKvCache.Prefix.{Hashing}
use mini_gpt.PagedKvCache.Prefix.Attach.{can_reserve_with_prefix, reserve_with_prefix}
use mini_gpt.Serving.Types.{
  prefilling, recomputing, finished, cancelled, failed, cancelled_event, cancellation_requested,
  admitted, finished_event, failed_event, prefix_lookup, prefix_hit, prefix_evict, Detail,
  exceeds_budget, exceeds_pool, looked_up, shared_blocks, evicted_hash, RequestState, id_of,
  all_tokens, Engine,
}
use mini_gpt.Serving.State.{
  holds, remove_one, add_once, is_terminal, is_preempted, last_tokens, reservation_for,
  reserved_cache_tokens, lifetime_reserved_cache_tokens, emit_event, emit, emit_detail, save,
  state_of, cleared, on_pool, retire,
}

module _ {T : Type 0} where
  -- _intrinsic_admission_failure
  unfoldable pub intrinsic_failure : RequestState T → Engine T → Option Detail
  unfolding reservation_for required_blocks
  intrinsic_failure s e =
      let required = reservation_for e.config.block_size s.request in
      if ltb e.config.scheduler.max_cached_tokens required
      then some (exceeds_budget required e.config.scheduler.max_cached_tokens)
      else elim e.pool [
        | none ↦ none
        | some p ↦
            if ltb p.config.num_blocks (required_blocks p required)
            then some (exceeds_pool (required_blocks p required) p.config.num_blocks)
            else none
      ]

  -- _current_reservation_for
  unfoldable pub current_reservation_for : RequestState T → Engine T → ℕ
  unfolding reservation_for
  current_reservation_for s e =
      if not e.config.scheduler.lazy_kv_reservation
      then reservation_for e.config.block_size s.request
      else if s.request.max_new_tokens == 0
      then 0
      else if is_preempted s.status
      then length
          (last_tokens e.config.block_size (take (length (all_tokens s) - 1) (all_tokens s)))
      else min (length s.request.prompt_tokens) e.config.block_size

  -- The blocks that `_reservation_limits` gives for a number of tokens.
  unfoldable pub blocks_for : ℕ → Engine T → ℕ
  unfolding required_blocks
  blocks_for tokens e = elim e.pool [ none ↦ 0 | some p ↦ required_blocks p tokens ]

  -- _lifetime_reservation_cap
  abbrev pub lifetime_reservation_cap : Engine T → ℕ
  lifetime_reservation_cap e =
      e.config.scheduler.max_cached_tokens * e.config.scheduler.kv_overcommit_ratio.numerator
      / e.config.scheduler.kv_overcommit_ratio.denominator

  -- The tests of `_admit` and `_waiting_head_needs_kv` against the two token budgets.
  unfoldable pub over_budget : RequestState T → Engine T → Bool
  unfolding current_reservation_for reservation_for reserved_cache_tokens
      lifetime_reserved_cache_tokens
  over_budget s e =
      ltb e.config.scheduler.max_cached_tokens
        (reserved_cache_tokens e + current_reservation_for s e)
      || (e.config.scheduler.lazy_kv_reservation
          && ltb (lifetime_reservation_cap e)
              (lifetime_reserved_cache_tokens e + reservation_for e.config.block_size s.request))

  abbrev pub prefix_cache_enabled : PagedKvCachePool T → Bool
  prefix_cache_enabled p = is_some p.prefix_cache_namespace

  abbrev pub pool_prefix_enabled : Option (PagedKvCachePool T) → Bool
  pool_prefix_enabled none = false
  pool_prefix_enabled (some p) = prefix_cache_enabled p

  -- state = self._states[self._waiting[0]], and `popleft`
  abbrev pub pop_waiting : Engine T → Engine T
  pop_waiting e = record e { waiting_ids = drop 1 e.waiting_ids }

  abbrev pub emit_each_eviction : RequestState T → ℤ → List String → Engine T → Engine T
  emit_each_eviction s timestamp [] e = e
  emit_each_eviction s timestamp (hash ∷ hashes) e =
      emit_each_eviction s timestamp hashes
        (emit_detail prefix_evict s timestamp (evicted_hash hash) e)

  -- _emit_prefix_evictions
  unfoldable pub emit_prefix_evictions : RequestState T → ℤ → Exec (Engine T) (Unit {0})
  unfolding emit_event take_recent_evictions emit_each_eviction
  emit_prefix_evictions s timestamp e = elim e.pool [
    | none ↦ (ok tt, e)
    | some p ↦
        if prefix_cache_enabled p
        then (do
          hashes ← on_pool p take_recent_evictions
          λ e. (ok tt, emit_each_eviction s timestamp hashes e))
            e
        else (ok tt, e)
  ]

module _ {T : Type 0} (hashing : Hashing) where
  -- Whether the pool has room for the head of the queue.
  unfoldable pub pool_fits : RequestState T → ℕ → Exec (Engine T) Bool
  unfolding can_reserve can_reserve_with_prefix
  pool_fits s blocks e = elim e.pool [
    | none ↦ (ok true, e)
    | some p ↦
        if prefix_cache_enabled p && not (is_preempted s.status)
        then on_pool p (can_reserve_with_prefix hashing blocks s.request.prompt_tokens) e
        else (ok (can_reserve blocks p), e)
  ]

  -- The reservation of an admitted request in the pool, and what its object learns from it.
  unfoldable pub reserve_pool : RequestState T → Bool → ℕ → ℕ → Exec (Engine T) (RequestState T)
  unfolding reserve reserve_with_prefix
  reserve_pool s resuming blocks lifetime_blocks e = elim e.pool [
    | none ↦ (ok s, e)
    | some p ↦
        if prefix_cache_enabled p && not resuming
        then (do
          lookup ← on_pool p (
              reserve_with_prefix hashing (id_of s) (pos blocks) s.request.prompt_tokens
                (some (pos lifetime_blocks)))
          pure (record s {
            prefix_hit_blocks = lookup.prefix_hit_blocks;
            prefix_hit_tokens = lookup.prefix_hit_tokens;
            prefix_miss_tokens = lookup.prefix_miss_tokens;
            reserved_cache_blocks = blocks;
          }))
            e
        else (do
          on_pool p (reserve (id_of s) (pos blocks) (some (pos lifetime_blocks)))
          pure (record s { reserved_cache_blocks = blocks }))
            e
  ]

  -- The events of an admission that found the prefix cache on.
  unfoldable pub announce_prefix : RequestState T → ℤ → Exec (Engine T) (Unit {0})
  unfolding emit_event emit_prefix_evictions
  announce_prefix s tick_time e =
      if pool_prefix_enabled e.pool
      then (do
        λ e. (
          ok tt,
          emit_detail prefix_lookup s tick_time
              (looked_up s.prefix_hit_blocks s.prefix_hit_tokens s.prefix_miss_tokens) e,
        )
        λ e. (
          ok tt,
          if s.prefix_hit_blocks == 0
              then e
              else emit_detail prefix_hit s tick_time (shared_blocks s.prefix_hit_blocks) e,
        )
        emit_prefix_evictions s tick_time)
          e
      else (ok tt, e)

  -- The reserved request joins the active list.
  unfoldable pub activate : RequestState T → Bool → ℤ → Exec (Engine T) (Unit {0})
  unfolding emit_event announce_prefix
  activate s resuming tick_time e =
      if resuming
      then (
        ok tt,
        record (save (record s { status = recomputing }) e) {
          active_ids = e.active_ids ++ id_of s ∷ [];
        },
      )
      else (do
        let s' = record s { status = prefilling }
        λ e. (ok tt, record (save s' e) { active_ids = e.active_ids ++ id_of s ∷ [] })
        announce_prefix s' tick_time
        λ e. (ok tt, emit admitted s' tick_time e))
          e

  -- The head of the queue fits: it is popped, and finishes at once or is reserved and activated.
  unfoldable pub admit_fitting : RequestState T → ℤ → Exec (Engine T) (Unit {0})
  unfolding current_reservation_for reservation_for blocks_for emit_event reserve_pool activate
  admit_fitting s tick_time e =
      let resuming = is_preempted s.status in
      let current = current_reservation_for s e in
      let blocks = blocks_for current e in
      let lifetime_blocks = blocks_for (reservation_for e.config.block_size s.request) e in
      let s' = record s {
        admission_time = if resuming then s.admission_time else some tick_time;
        reserved_cache_tokens = current;
      } in
      if s.request.max_new_tokens == 0
      then (let s'' = record s' {
        status = finished;
        finish_time = some tick_time;
        reserved_cache_tokens = 0;
      } in
          (
            ok tt,
            emit finished_event s'' tick_time
                (emit admitted s'' tick_time (save s'' (pop_waiting e))),
          ))
      else (do
        s'' ← reserve_pool s' resuming blocks lifetime_blocks
        activate s'' resuming tick_time)
          (save s' (pop_waiting e))

  -- The head of the queue can never fit.
  unfoldable pub reject_head : RequestState T → Detail → ℤ → Engine T → Engine T
  unfolding emit_event
  reject_head s reason tick_time e =
      let s' = record s {
        failure_reason = some reason;
        status = failed;
        finish_time = some tick_time;
      } in
      emit_detail failed_event s' tick_time reason (save s' (pop_waiting e))

  -- One round of the loop of `_admit`: whether it goes on.
  unfoldable pub admit_head : RequestState T → ℤ → Exec (Engine T) Bool
  unfolding intrinsic_failure over_budget current_reservation_for blocks_for pool_fits admit_fitting
      reject_head
  admit_head s tick_time e = elim (intrinsic_failure s e) [
    | some reason ↦ (ok true, reject_head s reason tick_time e)
    | none ↦
        if leb e.config.scheduler.max_active_requests (length e.active_ids) || over_budget s e
        then (ok false, e)
        else (do
          fits ← pool_fits s (blocks_for (current_reservation_for s e) e)
          if fits then admit_fitting s tick_time >> pure true else pure false)
            e
  ]

  -- `while self._waiting`: each round but the last takes a request from the queue.
  unfoldable pub admit_rounds : ℕ → ℤ → Exec (Engine T) (Unit {0})
  unfolding state_of admit_head
  admit_rounds zero tick_time e = (ok tt, e)
  admit_rounds (suc fuel) tick_time e = elim e.waiting_ids [
    | [] ↦ (ok tt, e)
    | id ∷ ids ↦
        (do
          s ← state_of id
          more ← admit_head s tick_time
          if more then admit_rounds fuel tick_time else pure tt)
          e
  ]

  unfoldable pub admit : ℤ → Exec (Engine T) (Unit {0})
  unfolding admit_rounds
  admit tick_time e = admit_rounds (length e.waiting_ids) tick_time e

  -- _waiting_head_needs_kv
  unfoldable pub waiting_head_needs_kv : Exec (Engine T) Bool
  unfolding state_of intrinsic_failure over_budget current_reservation_for blocks_for pool_fits
  waiting_head_needs_kv e = elim e.waiting_ids [
    | [] ↦ (ok false, e)
    | id ∷ ids ↦
        (do
          s ← state_of id
          λ e. elim (intrinsic_failure s e) [
            | some reason ↦ (ok false, e)
            | none ↦
                if over_budget s e
                then (ok true, e)
                else (do
                  fits ← pool_fits s (blocks_for (current_reservation_for s e) e)
                  pure (not fits))
                    e
          ])
          e
  ]
