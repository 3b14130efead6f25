-- ===== src/Serving/Live/Invariant.antt =====
-- The invariant of a dense engine: every request stands once in the queue that its status names,
-- and the active requests keep to the limits.
use mini_gpt.Prelude.{
  ℕ, ◌≤◌, ◌≡◌, refl, String, Option, none, some, List, arith, str_eq, eq_iff, length, if◌then◌else◌,
  Bool-cases, inl, inr,
}
use mathlib.Core.Path.{subst}
use mini_gpt.Dict.{Dict, get, put, get-put}
use mini_gpt.PagedKvCache.Types.{PagedKvCachePool}
use mini_gpt.Serving.Types.{
  RequestStatus, waiting, prefilling, decoding, preempted, recomputing, EngineConfig, RequestState,
  id_of, Engine,
}
use mini_gpt.Serving.State.{sum_over}
use mini_gpt.Serving.Live.Tally.{tally}

-- How often a request stands in the waiting queue, and in the active list.
abbrev pub queue_bit : RequestStatus → ℕ
queue_bit waiting = 1
queue_bit preempted = 1
queue_bit status = 0

abbrev pub service_bit : RequestStatus → ℕ
service_bit prefilling = 1
service_bit decoding = 1
service_bit recomputing = 1
service_bit status = 0

module _ {T : Type 0} where
  abbrev pub place : (RequestStatus → ℕ) → Option (RequestState T) → ℕ
  place f none = 0
  place f (some s) = f s.status

  pub record StateSound (id : String) (s : RequestState T) : Type 0 where
    pub named : id_of s ≡ id
    pub bounded : s.cached_tokens ≤ s.reserved_cache_tokens
    pub idle : service_bit s.status ≡ 0 → s.reserved_cache_tokens ≡ 0

  -- The tokens that the requests of a list have reserved.
  abbrev pub reserved_over : Dict (RequestState T) → List String → ℕ
  reserved_over states ids = sum_over (λ s. s.reserved_cache_tokens) states ids

  pub record Scheduled (config : EngineConfig) (pool : Option (PagedKvCachePool T))
      (states : Dict (RequestState T)) (waiting_ids active_ids : List String) : Type 0 where
    pub dense : pool ≡ none
    pub sound : (id : String) (s : RequestState T) → get states id ≡ some s → StateSound id s
    pub queued : (id : String) → tally id waiting_ids ≡ place queue_bit (get states id)
    pub serving : (id : String) → tally id active_ids ≡ place service_bit (get states id)
    pub within_budget : reserved_over states active_ids ≤ config.scheduler.max_cached_tokens
    pub within_active : length active_ids ≤ config.scheduler.max_active_requests

  abbrev pub IsLive : Engine T → Type 0
  IsLive e = Scheduled e.config e.pool e.states e.waiting_ids e.active_ids

  place-put :
      (f : RequestStatus → ℕ) (states : Dict (RequestState T)) (id j : String) (s : RequestState T)
      → place f (get (put states id s) j)
        ≡ (if str_eq id j then f s.status else place f (get states j))
  place-put f states id j s =
      rw (get-put states id j s)
        (elim (Bool-cases (str_eq id j)) [ inl e ↦ rw e refl | inr e ↦ rw e refl ])

  sound-put :
      (states : Dict (RequestState T)) (id : String) (s' : RequestState T)
      → ((j : String) (s : RequestState T) → get states j ≡ some s → StateSound j s)
      → StateSound id s'
      → (j : String) (s : RequestState T) → get (put states id s') j ≡ some s
      → StateSound j s
  sound-put states id s' h own j s e = elim (Bool-cases (str_eq id j)) [
    | inl same ↦
        let p : s' ≡ s = ground (arith, get-put states id j s') in
        let q : id ≡ j = (eq_iff id j).0 same in
        subst (λ k. StateSound k s) q (subst (StateSound id) p own)
    | inr other ↦ h j s (ground (arith, get-put states id j s'))
  ]

  -- A request's object is replaced, and its places in the two queues follow its new status.
  pub Scheduled-put :
      (config : EngineConfig) (pool : Option (PagedKvCachePool T)) (states : Dict (RequestState T))
      (ws xs ws' xs' : List String) (id : String) (s' : RequestState T)
      → Scheduled config pool states ws xs
      → StateSound id s'
      → ((j : String) → tally j ws' ≡ (if str_eq id j then queue_bit s'.status else tally j ws))
      → ((j : String) → tally j xs' ≡ (if str_eq id j then service_bit s'.status else tally j xs))
      → reserved_over (put states id s') xs' ≤ config.scheduler.max_cached_tokens
      → length xs' ≤ config.scheduler.max_active_requests
      → Scheduled config pool (put states id s') ws' xs'
  Scheduled-put config pool states ws xs ws' xs' id s' l own waits serves budget active = record {
    dense = l.dense;
    sound = sound-put states id s' l.sound own;
    queued = λ j. ground (arith, waits j, l.queued j, place-put queue_bit states id j s');
    serving = λ j. ground (arith, serves j, l.serving j, place-put service_bit states id j s');
    within_budget = budget;
    within_active = active;
  }
