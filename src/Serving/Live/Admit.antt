-- ===== src/Serving/Live/Admit.antt =====
-- Admission in a dense engine.
pub mod Queue
use mini_gpt.Prelude.{
  ℕ, zero, suc, ◌+◌, ◌-◌, ◌≤◌, ◌<◌, ◌≡◌, ◌⊎◌, refl, sym, ◌∙◌, ap, String, Option, none, some, Bool,
  true, false, List, [], ◌∷◌, ◌++◌, arith, bit, str_eq, eq_iff, Bool-cases, inl, inr, if◌then◌else◌,
  ◌||◌, Option-cases, ltb, leb, length, drop, ◌==◌,
}
use mini_gpt.Prelude.Int.{ℤ}
use mathlib.Core.Path.{subst}
use mini_gpt.Prelude.{length-append}
use mini_gpt.Dict.{Dict, get, put, put-put, get-put_self, get-put_ne}
use mini_gpt.Exec.{
  Exec, Result, ok, Ends, Ends-continue, Ends-mono, Returns, returns, continue, pure, ◌>>=◌, ◌>>◌,
}
use mini_gpt.PagedKvCache.Prefix.{Hashing}
use mini_gpt.Serving.Types.{
  RequestStatus, waiting, prefilling, decoding, preempted, recomputing, finished, cancelled, failed,
  admitted, finished_event, failed_event, Detail, RequestState, id_of, Engine,
}
use mini_gpt.Serving.State.{
  is_terminal, is_preempted, emit_event, emit, emit_detail, save, state_of, reservation_for,
  reserved_cache_tokens,
}
use mini_gpt.Serving.Admission.{
  intrinsic_failure, current_reservation_for, blocks_for, over_budget, pop_waiting, pool_fits,
  reserve_pool, announce_prefix, activate, admit_fitting, reject_head, admit_head, admit_rounds,
  admit, pool_prefix_enabled,
}
use mini_gpt.Serving.Live.Tally.{tally, tally-append}
use mini_gpt.Serving.Live.Sums.{
  value, sum_over-append, sum_over-put, sum_over-put_apart, sum_over-cons,
}
use mini_gpt.Serving.Live.Invariant.{
  queue_bit, service_bit, place, StateSound, reserved_over, Scheduled, Scheduled-put, IsLive,
}
use mini_gpt.Serving.Live.Moves.{queue_bit_bound}
use mini_gpt.Serving.Live.Progress.{
  Extends-refl, Later-live, Advanced, Advanced-refl, Advanced-trans, Updated, Updated-Advanced,
  Runs, Runs-then,
}
use mini_gpt.Serving.Live.Requests.{state_found, Updated-emit}

queued_live : (status : RequestStatus) → queue_bit status ≡ 1 → is_terminal status ≡ false
queued_live waiting h = refl
queued_live prefilling h = refl
queued_live decoding h = refl
queued_live preempted h = refl
queued_live recomputing h = refl
queued_live finished h = absurd (omega (arith, h))
queued_live cancelled h = absurd (omega (arith, h))
queued_live failed h = absurd (omega (arith, h))

module _ {T : Type 0} where
  -- The head of the queue has a request, which waits.
  pub head_found :
      (e : Engine T) (id : String) (ids : List String)
      → IsLive e
      → e.waiting_ids ≡ id ∷ ids
      → (s : RequestState T) × (get e.states id ≡ some s) × (queue_bit s.status ≡ 1)
  head_found e id ids l w =
      let placed : 0 < place queue_bit (get e.states id) =
        omega (arith, l.queued id, ap (tally id) w, at_head) in
      elim (Option-cases (get e.states id)) [
        | inl n ↦ absurd (omega (arith, placed, ap (place queue_bit) n))
        | inr (s, found) ↦
            (s, found, omega (arith, placed, ap (place queue_bit) found, queue_bit_bound s.status))
      ]
    where
      at_head : 0 < tally id (id ∷ ids)
      at_head = ground (arith, eq_iff id id)

  -- The head's request leaves the queue: it joins the active list, or it ends.
  module _ (e : Engine T) (s : RequestState T) (ids : List String) (l : IsLive e)
      (found : get e.states (id_of s) ≡ some s) (at : queue_bit s.status ≡ 1)
      (w : e.waiting_ids ≡ id_of s ∷ ids) where
    pub unreserved : s.reserved_cache_tokens ≡ 0
    unreserved = (l.sound (id_of s) s found).idle (omega (arith, at, queue_bit_bound s.status))

    uncached : s.cached_tokens ≡ 0
    uncached = omega (arith, unreserved, (l.sound (id_of s) s found).bounded)

    alone : tally (id_of s) ids ≡ 0
    alone = omega (
      arith,
      l.queued (id_of s),
      ap (place queue_bit) found,
      at,
      ap (tally (id_of s)) w,
      ap bit ((eq_iff (id_of s) (id_of s)).1 refl),
    )

    popped :
        (j : String)
        → tally j (drop 1 e.waiting_ids) ≡ (if str_eq (id_of s) j then 0 else tally j e.waiting_ids)
    popped j = rw w (elim (Bool-cases (str_eq (id_of s) j)) [
      | inl same ↦ rw same (subst (λ k. tally k ids ≡ 0) ((eq_iff (id_of s) j).0 same) alone)
      | inr other ↦ rw other (omega arith)
    ])

    not_active : tally (id_of s) e.active_ids ≡ 0
    not_active =
        omega
          (arith, l.serving (id_of s), ap (place service_bit) found, queue_bit_bound s.status, at)

    -- It ends without a reservation.
    abbrev pub ended_as : Option ℤ → Option Detail → RequestStatus → ℤ → ℕ → RequestState T
    ended_as admission reason status time reserved = record s {
      admission_time = admission;
      failure_reason = reason;
      status = status;
      finish_time = some time;
      reserved_cache_tokens = reserved;
    }

    pub head_ends :
        (admission : Option ℤ) (reason : Option Detail) (status : RequestStatus) (time : ℤ)
        (reserved : ℕ)
        → queue_bit status + service_bit status ≡ 0
        → reserved ≡ 0
        → Updated
            (id_of s)
            s
            e
            (save (ended_as admission reason status time reserved) (pop_waiting e))
    head_ends admission reason status time reserved over r =
        let s' = ended_as admission reason status time reserved in
        record {
          new = s';
          live =
              Scheduled-put e.config e.pool e.states e.waiting_ids e.active_ids
                (drop 1 e.waiting_ids) e.active_ids (id_of s) s' l
                (record { named = refl; bounded = omega (arith, uncached); idle = λ _. r })
                (λ j.
                  popped j
                  ∙ ap (λ n. if str_eq (id_of s) j then n else tally j e.waiting_ids)
                      (omega (arith, over)))
                (stays status over)
                (omega (
                  arith,
                  l.within_budget,
                  sum_over-put (λ u. u.reserved_cache_tokens) e.states (id_of s) s' e.active_ids
                      (omega (arith, r)),
                ))
                l.within_active;
          config = refl;
          here = get-put_self e.states (id_of s) s';
          others = λ j. get-put_ne e.states (id_of s) j s';
          later = Later-live s s' (queued_live s.status at) refl (Extends-refl s.generated_tokens);
          log = Extends-refl e.events;
        }
      where
        stays :
            (status : RequestStatus)
            → queue_bit status + service_bit status ≡ 0
            → (j : String)
            → tally j e.active_ids
              ≡ (if str_eq (id_of s) j then service_bit status else tally j e.active_ids)
        stays status over j = elim (Bool-cases (str_eq (id_of s) j)) [
          | inl same ↦ rw same (
              subst (λ k. tally k e.active_ids ≡ 0) ((eq_iff (id_of s) j).0 same) not_active
              ∙ omega (arith, over))
          | inr other ↦ rw other refl
        ]

    -- It is reserved, and joins the active list.
    abbrev pub reserved_as : Option ℤ → ℕ → RequestState T
    reserved_as admission reserved = record s {
      admission_time = admission;
      reserved_cache_tokens = reserved;
    }

    abbrev pub active_as : Option ℤ → ℕ → RequestStatus → RequestState T
    active_as admission reserved status = record s {
      admission_time = admission;
      reserved_cache_tokens = reserved;
      status = status;
    }

    abbrev pub joined : Option ℤ → ℕ → RequestStatus → Engine T
    joined admission reserved status =
        record (save (active_as admission reserved status)
          (save (reserved_as admission reserved) (pop_waiting e))) {
            active_ids = e.active_ids ++ id_of s ∷ [];
          }

    module _ (admission : Option ℤ) (reserved : ℕ) (status : RequestStatus)
        (serves : service_bit status ≡ 1)
        (fits : reserved_cache_tokens e + reserved ≤ e.config.scheduler.max_cached_tokens)
        (room : length e.active_ids < e.config.scheduler.max_active_requests) where
      appended :
          (j : String)
          → tally j (e.active_ids ++ id_of s ∷ [])
            ≡ (if str_eq (id_of s) j then service_bit status else tally j e.active_ids)
      appended j = elim (Bool-cases (str_eq (id_of s) j)) [
        | inl same ↦ rw same (
            omega (
              arith,
              tally-append j e.active_ids (id_of s ∷ []),
              ap bit same,
              serves,
              subst (λ k. tally k e.active_ids ≡ 0) ((eq_iff (id_of s) j).0 same) not_active,
            ))
        | inr other ↦
            rw other (omega (arith, tally-append j e.active_ids (id_of s ∷ []), ap bit other))
      ]

      joined-Scheduled :
          Scheduled e.config e.pool
            (put e.states (id_of s) (active_as admission reserved status))
            (drop 1 e.waiting_ids)
            (e.active_ids ++ id_of s ∷ [])
      unfolding reserved_cache_tokens
      joined-Scheduled =
          let s' = active_as admission reserved status in
          let apart =
            sum_over-put_apart (λ u. u.reserved_cache_tokens) e.states (id_of s) s' e.active_ids
              not_active in
          let both =
            sum_over-append (λ u. u.reserved_cache_tokens) (put e.states (id_of s) s') e.active_ids
              (id_of s ∷ []) in
          let own =
            sum_over-cons (λ u. u.reserved_cache_tokens) (put e.states (id_of s) s') (id_of s) [] in
          let read =
            ap (value (λ u. u.reserved_cache_tokens)) (get-put_self e.states (id_of s) s') in
          Scheduled-put e.config e.pool e.states e.waiting_ids e.active_ids (drop 1 e.waiting_ids)
            (e.active_ids ++ id_of s ∷ []) (id_of s) s' l
            (record {
              named = refl;
              bounded = omega (arith, uncached);
              idle = λ o. absurd (omega (arith, o, serves));
            })
            (λ j.
              popped j
              ∙ ap (λ n. if str_eq (id_of s) j then n else tally j e.waiting_ids)
                  (omega (arith, serves, queue_bit_bound status)))
            appended (omega (arith, apart, both, own, read, fits))
            (omega (arith, room, length-append e.active_ids (id_of s ∷ [])))

      pub joined-Updated : Updated (id_of s) s e (joined admission reserved status)
      joined-Updated =
          let s1 = reserved_as admission reserved in
          let s2 = active_as admission reserved status in
          let once = put-put e.states (id_of s) s1 s2 in
          record {
            new = s2;
            live =
                subst
                  (λ d.
                    Scheduled e.config e.pool d (drop 1 e.waiting_ids)
                      (e.active_ids ++ id_of s ∷ []))
                  (sym once) joined-Scheduled;
            config = refl;
            here =
                subst (λ d. get d (id_of s) ≡ some s2) (sym once)
                  (get-put_self e.states (id_of s) s2);
            others = λ j o.
                subst (λ d. get d j ≡ get e.states j) (sym once)
                  (get-put_ne e.states (id_of s) j s2 o);
            later =
                Later-live s s2 (queued_live s.status at) refl (Extends-refl s.generated_tokens);
            log = Extends-refl e.events;
          }
