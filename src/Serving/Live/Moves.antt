-- ===== src/Serving/Live/Moves.antt =====
-- The steps of one request that keep the invariant: its object changes in its place, or it leaves
-- the queues.
use mini_gpt.Prelude.{
  ℕ, ◌+◌, ◌≤◌, ◌≡◌, ◌∙◌, ap, String, Option, some, List, arith, str_eq, eq_iff, if◌then◌else◌,
}
use mini_gpt.Dict.{Dict, get, put}
use mini_gpt.PagedKvCache.Types.{PagedKvCachePool}
use mini_gpt.Serving.Types.{
  RequestStatus, waiting, prefilling, decoding, preempted, recomputing, finished, cancelled, failed,
  EngineConfig, RequestState,
}
use mini_gpt.Serving.State.{remove_one}
use mini_gpt.Serving.Live.Tally.{tally, tally-remove_one, length-remove_one}
use mini_gpt.Serving.Live.Sums.{value, sum_over-remove_one, sum_over-put}
use mini_gpt.Serving.Live.Invariant.{
  queue_bit, service_bit, place, StateSound, Scheduled, Scheduled-put,
}

pub queue_bit_bound : (status : RequestStatus) → queue_bit status + service_bit status ≤ 1
queue_bit_bound waiting = omega arith
queue_bit_bound prefilling = omega arith
queue_bit_bound decoding = omega arith
queue_bit_bound preempted = omega arith
queue_bit_bound recomputing = omega arith
queue_bit_bound finished = omega arith
queue_bit_bound cancelled = omega arith
queue_bit_bound failed = omega arith

module _ {T : Type 0} (config : EngineConfig) (pool : Option (PagedKvCachePool T))
    (states : Dict (RequestState T)) (ws xs : List String) (id : String) (s s' : RequestState T)
    (l : Scheduled config pool states ws xs) (e : get states id ≡ some s) where
  waits_at : tally id ws ≡ queue_bit s.status
  waits_at = l.queued id ∙ ap (place queue_bit) e

  serves_at : tally id xs ≡ service_bit s.status
  serves_at = l.serving id ∙ ap (place service_bit) e

  tally_kept :
      (js : List String) (n m : ℕ)
      → tally id js ≡ n
      → m ≡ n
      → (j : String) → tally j js ≡ (if str_eq id j then m else tally j js)
  tally_kept js n m h k j = ground (arith, eq_iff id j)

  tally_removed :
      (js : List String)
      → tally id js ≤ 1
      → (j : String) → tally j (remove_one js id) ≡ (if str_eq id j then 0 else tally j js)
  tally_removed js h j = ground (arith, eq_iff id j, tally-remove_one js id j)

  -- The object changes, and the request stays where it is.
  pub Scheduled-keep :
      StateSound id s'
      → queue_bit s'.status ≡ queue_bit s.status
      → service_bit s'.status ≡ service_bit s.status
      → s'.reserved_cache_tokens ≤ s.reserved_cache_tokens
      → Scheduled config pool (put states id s') ws xs
  Scheduled-keep own q v r =
      Scheduled-put config pool states ws xs ws xs id s' l own
        (tally_kept ws (queue_bit s.status) (queue_bit s'.status) waits_at q)
        (tally_kept xs (service_bit s.status) (service_bit s'.status) serves_at v)
        (omega (
          arith,
          l.within_budget,
          sum_over-put (λ u. u.reserved_cache_tokens) states id s' xs no_more,
        ))
        l.within_active
    where
      no_more : s'.reserved_cache_tokens ≤ value (λ u. u.reserved_cache_tokens) (get states id)
      no_more = rw e r

  -- The request leaves both queues, with nothing reserved.
  pub Scheduled-retire :
      StateSound id s'
      → queue_bit s'.status ≡ 0
      → service_bit s'.status ≡ 0
      → s'.reserved_cache_tokens ≡ 0
      → Scheduled config pool (put states id s') (remove_one ws id) (remove_one xs id)
  Scheduled-retire own q v r =
      Scheduled-put config pool states ws xs (remove_one ws id) (remove_one xs id) id s' l own
        (rw q (tally_removed ws (omega (arith, waits_at, queue_bit_bound s.status))))
        (rw v (tally_removed xs (omega (arith, serves_at, queue_bit_bound s.status))))
        (omega (
          arith,
          l.within_budget,
          sum_over-remove_one (λ u. u.reserved_cache_tokens) (put states id s') xs id,
          sum_over-put (λ u. u.reserved_cache_tokens) states id s' xs (omega (arith, r)),
        ))
        (omega (arith, l.within_active, length-remove_one xs id))
