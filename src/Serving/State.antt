-- ===== src/Serving/State.antt =====
-- src/minigpt/serving.py: the queues and the events of the engine, and the transitions of one
-- request that the phases of a tick share.
use mini_gpt.Prelude.{
  ℕ, ◌+◌, ◌-◌, min, max, String, Option, none, some, Bool, true, false, List, [], ◌∷◌, ◌++◌, str_eq,
  ◌==◌, if◌then◌else◌, length, drop,
}
use mini_gpt.Prelude.Int.{ℤ}
use mini_gpt.Dict.{Dict, get, put, contains}
use mini_gpt.Exec.{Exec, ok, err, unknown_request, duplicate_request, ◌>>◌}
use mini_gpt.PagedKvCache.Types.{PagedKvCachePool}
use mini_gpt.PagedKvCache.Requests.{release}
use mini_gpt.Serving.Types.{
  RequestStatus, prefilling, decoding, preempted, recomputing, finished, cancelled, failed,
  EngineEventType, submitted, finished_event, failed_event, Detail, GenerationRequest, RequestState,
  new_state, id_of, Engine,
}

-- `in` and `remove` of a deque or a list of identifiers.
abbrev pub holds : List String → String → Bool
holds [] id = false
holds (j ∷ js) id = if str_eq j id then true else holds js id

abbrev pub is_empty : List String → Bool
is_empty [] = true
is_empty (id ∷ ids) = false

abbrev pub remove_one : List String → String → List String
remove_one [] id = []
remove_one (j ∷ js) id = if str_eq j id then js else j ∷ remove_one js id

abbrev pub add_once : List String → String → List String
add_once js id = if holds js id then js else js ++ id ∷ []

-- _terminal_statuses
abbrev pub is_terminal : RequestStatus → Bool
is_terminal finished = true
is_terminal cancelled = true
is_terminal failed = true
is_terminal _ = false

abbrev pub is_preempted : RequestStatus → Bool
is_preempted preempted = true
is_preempted _ = false

abbrev pub is_prefilling : RequestStatus → Bool
is_prefilling prefilling = true
is_prefilling _ = false

abbrev pub is_decoding : RequestStatus → Bool
is_decoding decoding = true
is_decoding _ = false

abbrev pub is_recomputing : RequestStatus → Bool
is_recomputing recomputing = true
is_recomputing _ = false

-- xs[-n:], for a positive n
abbrev pub last_tokens : ℕ → List ℕ → List ℕ
last_tokens n xs = drop (length xs - n) xs

-- _reservation_for
unfoldable pub reservation_for : ℕ → GenerationRequest → ℕ
reservation_for block_size r =
    if r.max_new_tokens == 0
    then 0
    else min block_size (min (length r.prompt_tokens) block_size + (r.max_new_tokens - 1))

abbrev pub is_id : Option String → String → Bool
is_id none id = false
is_id (some j) id = str_eq j id

module _ {T : Type 0} where
  -- sum(f(self._states[item]) for item in items)
  abbrev pub sum_over : (RequestState T → ℕ) → Dict (RequestState T) → List String → ℕ
  sum_over f states [] = 0
  sum_over f states (id ∷ ids) =
      elim (get states id) [ none ↦ 0 | some s ↦ f s ] + sum_over f states ids

  unfoldable pub cached_tokens : Engine T → ℕ
  cached_tokens e = sum_over (λ s. s.cached_tokens) e.states e.active_ids

  unfoldable pub reserved_cache_tokens : Engine T → ℕ
  reserved_cache_tokens e = sum_over (λ s. s.reserved_cache_tokens) e.states e.active_ids

  unfoldable pub lifetime_reserved_cache_tokens : Engine T → ℕ
  unfolding reservation_for
  lifetime_reserved_cache_tokens e =
      sum_over (λ s. reservation_for e.config.block_size s.request) e.states e.active_ids

  -- The difference stops at zero, as its `max` does.
  unfoldable pub overcommitted_cache_tokens : Engine T → ℕ
  unfolding lifetime_reserved_cache_tokens reserved_cache_tokens
  overcommitted_cache_tokens e = lifetime_reserved_cache_tokens e - reserved_cache_tokens e

  unfoldable pub update_peaks : Engine T → Engine T
  unfolding cached_tokens reserved_cache_tokens overcommitted_cache_tokens
  update_peaks e = record e {
    peaks = record {
      active = max e.peaks.active (length e.active_ids);
      waiting = max e.peaks.waiting (length e.waiting_ids);
      cached = max e.peaks.cached (cached_tokens e);
      reserved = max e.peaks.reserved (reserved_cache_tokens e);
      lifetime_reserved = max e.peaks.lifetime_reserved (lifetime_reserved_cache_tokens e);
      overcommitted = max e.peaks.overcommitted (overcommitted_cache_tokens e);
    };
  }

  -- _emit, of an event with all its fields
  unfoldable pub emit_event :
      EngineEventType → RequestState T → ℤ → Option ℕ → Option Detail → Bool → Engine T → Engine T
  unfolding update_peaks
  emit_event kind s timestamp token_id detail used_fallback e =
      let e' = update_peaks e in
      record e' {
        events =
            e'.events
            ++ record {
              sequence = length e'.events;
              timestamp = timestamp;
              event_type = kind;
              request_id = id_of s;
              status = s.status;
              token_id = token_id;
              detail = detail;
              used_fallback = used_fallback;
              active_requests = length e'.active_ids;
              waiting_requests = length e'.waiting_ids;
              cached_tokens = cached_tokens e';
              reserved_cache_tokens = reserved_cache_tokens e';
            }
              ∷ [];
      }

  abbrev pub emit : EngineEventType → RequestState T → ℤ → Engine T → Engine T
  emit kind s timestamp e = emit_event kind s timestamp none none false e

  abbrev pub emit_detail : EngineEventType → RequestState T → ℤ → Detail → Engine T → Engine T
  emit_detail kind s timestamp detail e = emit_event kind s timestamp none (some detail) false e

  -- The object that `self._states` holds for the request is mutated.
  abbrev pub save : RequestState T → Engine T → Engine T
  save s e = record e { states = put e.states (id_of s) s }

  -- request_state, and `self._states[request_id]` where the key may be missing
  unfoldable pub state_of : String → Exec (Engine T) (RequestState T)
  state_of id e = elim (get e.states id) [ none ↦ (err unknown_request, e) | some s ↦ (ok s, e) ]

  unfoldable pub submit : GenerationRequest → Exec (Engine T) (Unit {0})
  unfolding emit_event
  submit request e = if contains e.states request.request_id then (err duplicate_request, e) else (
    ok tt,
    emit submitted (new_state request) request.arrival_time (record (save (new_state request) e) {
      waiting_ids = e.waiting_ids ++ request.request_id ∷ [];
    }),
  )

  -- What a request keeps when it leaves the engine, or is preempted: no cache, and no reservation.
  abbrev pub cleared : RequestState T → RequestState T
  cleared s = record s {
    kv_cache = none;
    prefill_logits_chunks = [];
    cached_tokens = 0;
    reserved_cache_tokens = 0;
    reserved_cache_blocks = 0;
  }

  -- `_clear_growth_blocked` without, and with, an identifier
  abbrev pub clear_growth_blocked : Engine T → Engine T
  clear_growth_blocked e = record e {
    growth_blocked_request_id = none;
    growth_blocked_target_tokens = 0;
  }

  unfoldable pub clear_growth_blocked_of : String → Engine T → Engine T
  clear_growth_blocked_of id e =
      let blocks = is_id e.growth_blocked_request_id id in
      record e {
        growth_blocked_request_id = if blocks then none else e.growth_blocked_request_id;
        growth_blocked_target_tokens = if blocks then 0 else e.growth_blocked_target_tokens;
      }

  -- A call of a method of the pool.
  abbrev pub on_pool :
      {A : Type 0} → PagedKvCachePool T → Exec (PagedKvCachePool T) A → Exec (Engine T) A
  on_pool p m e = let (r, q) = m p in (r, record e { pool = some q })

  unfoldable pub release_resident : String → Exec (Engine T) (Unit {0})
  release_resident id e = elim e.pool [
    | none ↦ (ok tt, e)
    | some p ↦ if contains p.tables id then on_pool p (release id) e else (ok tt, e)
  ]

  -- _remove_live_state, up to the fields of the request's object
  unfoldable pub leave_queues : String → Engine T → Engine T
  leave_queues id e = record e {
    waiting_ids = remove_one e.waiting_ids id;
    active_ids = remove_one e.active_ids id;
  }

  -- `_remove_live_state`, and then the status and the other fields that its caller writes.
  unfoldable pub retire : RequestState T → RequestState T → Exec (Engine T) (Unit {0})
  unfolding leave_queues release_resident clear_growth_blocked_of
  retire s s' = do
    λ e. release_resident (id_of s) (leave_queues (id_of s) e)
    λ e. (ok tt, clear_growth_blocked_of (id_of s) (save s' e))

  unfoldable pub finish_state : RequestState T → ℤ → Exec (Engine T) (Unit {0})
  unfolding retire emit_event
  finish_state s timestamp = do
    let s' = record (cleared s) { status = finished; finish_time = some timestamp }
    retire s s'
    λ e. (ok tt, emit finished_event s' timestamp e)

  unfoldable pub fail_state : RequestState T → ℤ → Detail → Exec (Engine T) (Unit {0})
  unfolding retire emit_event
  fail_state s timestamp reason = do
    let s' = record (cleared s) {
      status = failed;
      failure_reason = some reason;
      finish_time = some timestamp;
    }
    retire s s'
    λ e. (ok tt, emit_detail failed_event s' timestamp reason e)
