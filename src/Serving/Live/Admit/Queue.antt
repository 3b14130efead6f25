-- ===== src/Serving/Live/Admit/Queue.antt =====
-- The loop of `_admit` in a dense engine.
use mini_gpt.Prelude.{
  ℕ, zero, suc, ◌+◌, ◌≤◌, ◌<◌, ◌≡◌, ◌⊎◌, refl, sym, ◌∙◌, ap, String, Option, none, some, Bool, true,
  false, List, [], ◌∷◌, ◌++◌, arith, inl, inr, if◌then◌else◌, ◌||◌, leb, ltb→le, leb→lt, length,
  drop, ◌==◌,
}
use mini_gpt.Prelude.Int.{ℤ}
use mathlib.Core.Path.{subst}
use mini_gpt.Dict.{get}
use mini_gpt.Exec.{
  Exec, ok, Ends-continue, Ends-mono, Ends-if, Ends-option, Returns, returns, continue, pure, ◌>>◌,
}
use mini_gpt.PagedKvCache.Prefix.{Hashing}
use mini_gpt.Serving.Types.{
  prefilling, recomputing, finished, failed, admitted, finished_event, failed_event, Detail,
  RequestState, id_of, Engine,
}
use mini_gpt.Serving.State.{
  is_preempted, emit_event, emit, save, state_of, reservation_for, reserved_cache_tokens,
}
use mini_gpt.Serving.Admission.{
  intrinsic_failure, current_reservation_for, blocks_for, over_budget, pop_waiting, pool_fits,
  reserve_pool, announce_prefix, activate, admit_fitting, reject_head, admit_head, admit_rounds,
  admit,
}
use mini_gpt.Serving.Live.Invariant.{queue_bit, IsLive}
use mini_gpt.Serving.Live.Progress.{
  Advanced, Advanced-refl, Advanced-trans, Updated, Updated-Advanced,
}
use mini_gpt.Serving.Live.Requests.{state_found, Updated-emit}
use mini_gpt.Serving.Live.Admit.{
  unreserved, head_found, head_ends, ended_as, reserved_as, active_as, joined, joined-Updated,
}

left_false : (a b : Bool) → (a || b) ≡ false → a ≡ false
left_false true b e = cc
left_false false b e = refl

right_false : (a b : Bool) → (a || b) ≡ false → b ≡ false
right_false true b e = cc
right_false false b e = e

list-cases : (xs : List String) → (xs ≡ []) ⊎ ((x : String) × (ys : List String) × (xs ≡ x ∷ ys))
list-cases [] = inl refl
list-cases (x ∷ ys) = inr (x, ys, refl)

module _ {T : Type 0} where
  -- The step of a head that left the queue.
  abbrev Popped : RequestState T → Engine T → Engine T → Type 0
  Popped s e e' = Updated (id_of s) s e e' × (e'.waiting_ids ≡ drop 1 e.waiting_ids)

  -- Why a request that could be admitted is not: every place is taken, or a budget has no room.
  abbrev pub Refused : RequestState T → Engine T → Type 0
  Refused s e =
      (leb e.config.scheduler.max_active_requests (length e.active_ids) || over_budget s e) ≡ true

  -- The queue after admission: its head is refused, if there is one.
  abbrev pub Stopped : Engine T → Type 0
  Stopped e =
      (e.waiting_ids ≡ [])
      ⊎ ((id : String) × (ids : List String) × (e.waiting_ids ≡ id ∷ ids)
          × ((s : RequestState T) × (get e.states id ≡ some s) × Refused s e))

  -- What admission promises.
  pub record Admitted (e e' : Engine T) : Type 0 where
    pub live : IsLive e'
    pub advanced : Advanced e e'
    pub in_order : (taken : List String) × (e.waiting_ids ≡ taken ++ e'.waiting_ids)
    pub stopped : Stopped e'

module _ {T : Type 0} (hashing : Hashing) where
  pool_fits_dense :
      (s : RequestState T) (blocks : ℕ) (e : Engine T)
      → e.pool ≡ none
      → pool_fits hashing s blocks e ≡ (ok true, e)
  unfolding pool_fits
  pool_fits_dense s blocks e h = rw h refl

  reserve_pool_dense :
      (s : RequestState T) (resuming : Bool) (blocks lifetime : ℕ) (e : Engine T)
      → e.pool ≡ none
      → reserve_pool hashing s resuming blocks lifetime e ≡ (ok s, e)
  unfolding reserve_pool
  reserve_pool_dense s resuming blocks lifetime e h = rw h refl

  reserved_dense :
      (s : RequestState T) (resuming : Bool) (blocks lifetime : ℕ) (e : Engine T)
      → e.pool ≡ none
      → Returns (λ a x. (a ≡ s) × (x ≡ e)) (reserve_pool hashing s resuming blocks lifetime e)
  reserved_dense s resuming blocks lifetime e h =
      subst (Returns (λ a x. (a ≡ s) × (x ≡ e)))
        (sym (reserve_pool_dense s resuming blocks lifetime e h)) (returns (refl, refl))

  announce_dense :
      (s : RequestState T) (tick_time : ℤ) (e : Engine T)
      → e.pool ≡ none
      → announce_prefix hashing s tick_time e ≡ (ok tt, e)
  unfolding announce_prefix
  announce_dense s tick_time e h = rw h refl

  module _ (e : Engine T) (s : RequestState T) (ids : List String) (tick_time : ℤ) (l : IsLive e)
      (found : get e.states (id_of s) ≡ some s) (at : queue_bit s.status ≡ 1)
      (w : e.waiting_ids ≡ id_of s ∷ ids) where
    reject_head-Popped : (reason : Detail) → Popped s e (reject_head hashing s reason tick_time e)
    unfolding reject_head emit_event
    reject_head-Popped reason =
        let s' =
          ended_as e s ids l found at w s.admission_time (some reason) failed tick_time
            s.reserved_cache_tokens in
        (
          Updated-emit (id_of s) s e (save s' (pop_waiting e)) failed_event s' tick_time none
              (some reason) false
              (head_ends e s ids l found at w s.admission_time (some reason) failed tick_time
                s.reserved_cache_tokens refl (unreserved e s ids l found at w)),
          refl,
        )

    module _ (admission : Option ℤ) (reserved : ℕ)
        (fits : reserved_cache_tokens e + reserved ≤ e.config.scheduler.max_cached_tokens)
        (room : length e.active_ids < e.config.scheduler.max_active_requests) where
      activate-Popped :
          (resuming : Bool)
          → Returns
              (λ _ e'. Popped s e e')
              (activate hashing
                (reserved_as e s ids l found at w admission reserved)
                resuming
                tick_time
                (save (reserved_as e s ids l found at w admission reserved) (pop_waiting e)))
      unfolding activate emit_event
      activate-Popped true =
          returns (
            joined-Updated e s ids l found at w admission reserved recomputing refl fits room,
            refl,
          )
      activate-Popped false =
          let s' = active_as e s ids l found at w admission reserved prefilling in
          let e' = joined e s ids l found at w admission reserved prefilling in
          rw (announce_dense s' tick_time e' l.dense) (
            returns (
              Updated-emit (id_of s) s e e' admitted s' tick_time none none false (
                  joined-Updated e s ids l found at w admission reserved prefilling refl fits room),
              refl,
            ))

    -- The head fits: it is popped, and joins the active list or finishes at once.
    admit_fitting-Popped :
        reserved_cache_tokens e + current_reservation_for s e ≤ e.config.scheduler.max_cached_tokens
        → length e.active_ids < e.config.scheduler.max_active_requests
        → Returns (λ _ e'. Popped s e e') (admit_fitting hashing s tick_time e)
    unfolding admit_fitting emit_event
    admit_fitting-Popped fits room =
        let admission = if is_preempted s.status then s.admission_time else some tick_time in
        let current = current_reservation_for s e in
        let s0 = ended_as e s ids l found at w admission s.failure_reason finished tick_time 0 in
        let s' = reserved_as e s ids l found at w admission current in
        Ends-if (s.request.max_new_tokens == 0)
          (λ _. returns (
            Updated-emit (id_of s) s e (emit admitted s0 tick_time (save s0 (pop_waiting e)))
                finished_event s0 tick_time none none false
                (Updated-emit (id_of s) s e (save s0 (pop_waiting e)) admitted s0 tick_time none
                  none false
                  (head_ends e s ids l found at w admission s.failure_reason finished tick_time 0
                    refl refl)),
            refl,
          ))
          (λ _.
            Ends-continue _
              (reserved_dense s' (is_preempted s.status) (blocks_for current e)
                (blocks_for (reservation_for e.config.block_size s.request) e)
                (save s' (pop_waiting e)) l.dense)
              (λ a x (same_state, same_engine).
                subst
                  (λ a.
                    Returns (λ _ e'. Popped s e e')
                      (activate hashing a (is_preempted s.status) tick_time x))
                  (sym same_state)
                  (subst
                    (λ x.
                      Returns (λ _ e'. Popped s e e')
                        (activate hashing s' (is_preempted s.status) tick_time x))
                    (sym same_engine)
                    (activate-Popped admission current fits room (is_preempted s.status)))))

  fits_budget :
      (s : RequestState T) (e : Engine T)
      → over_budget s e ≡ false
      → reserved_cache_tokens e + current_reservation_for s e ≤ e.config.scheduler.max_cached_tokens
  unfolding over_budget
  fits_budget s e h = ltb→le _ _ (left_false _ _ h)

  -- What one round does with the head.
  Headed : RequestState T → Engine T → Bool → Engine T → Type 0
  Headed s e more e' = ((more ≡ true) × Popped s e e') ⊎ ((more ≡ false) × (e' ≡ e) × Refused s e)

  admit_head-Headed :
      (e : Engine T) (s : RequestState T) (ids : List String) (tick_time : ℤ)
      → IsLive e
      → get e.states (id_of s) ≡ some s
      → queue_bit s.status ≡ 1
      → e.waiting_ids ≡ id_of s ∷ ids
      → Returns (Headed s e) (admit_head hashing s tick_time e)
  unfolding admit_head Headed
  admit_head-Headed e s ids tick_time l found at w =
      Ends-option (intrinsic_failure s e)
        (λ _.
          Ends-if
            (leb e.config.scheduler.max_active_requests (length e.active_ids) || over_budget s e)
            (λ full. returns (inr (refl, refl, full)))
            (λ room.
              subst
                (λ r. Returns (Headed s e) (
                  continue r.0
                    (λ fits.
                      if fits then admit_fitting hashing s tick_time >> pure true else pure false)
                    r.1))
                (sym (pool_fits_dense s (blocks_for (current_reservation_for s e) e) e l.dense))
                (Ends-continue _
                  (admit_fitting-Popped e s ids tick_time l found at w
                    (fits_budget s e (right_false _ _ room)) (leb→lt _ _ (left_false _ _ room)))
                  (λ _ e' p. returns (inl (refl, p))))))
        (λ reason _. returns (inl (refl, reject_head-Popped e s ids tick_time l found at w reason)))

  abbrev after_head : ℕ → ℤ → Bool → Exec (Engine T) (Unit {0})
  after_head fuel tick_time more = if more then admit_rounds hashing fuel tick_time else pure tt

  rounds_next :
      (fuel : ℕ) (tick_time : ℤ) (e : Engine T) (id : String) (ids : List String)
      → e.waiting_ids ≡ id ∷ ids
      → admit_rounds hashing (suc fuel) tick_time e
        ≡ continue
            (state_of id e).0
            (λ s e1.
              continue
                (admit_head hashing s tick_time e1).0
                (after_head fuel tick_time)
                (admit_head hashing s tick_time e1).1)
            (state_of id e).1
  unfolding admit_rounds
  rounds_next fuel tick_time e id ids w = rw w refl

  rounds_end :
      (fuel : ℕ) (tick_time : ℤ) (e : Engine T)
      → e.waiting_ids ≡ []
      → admit_rounds hashing fuel tick_time e ≡ (ok tt, e)
  unfolding admit_rounds
  rounds_end zero tick_time e w = refl
  rounds_end (suc fuel) tick_time e w = rw w refl

  Admitted-next :
      (e e' e'' : Engine T) (s : RequestState T) (ids : List String)
      → get e.states (id_of s) ≡ some s
      → e.waiting_ids ≡ id_of s ∷ ids
      → Popped s e e'
      → Admitted e' e''
      → Admitted e e''
  Admitted-next e e' e'' s ids found w (u, popped) a =
      let (taken, order) = a.in_order in
      record {
        live = a.live;
        advanced = Advanced-trans (Updated-Advanced found u) a.advanced;
        in_order = (id_of s ∷ taken, w ∙ ap (λ k. id_of s ∷ k) (rest taken order));
        stopped = a.stopped;
      }
    where
      rest :
          (taken : List String)
          → e'.waiting_ids ≡ taken ++ e''.waiting_ids
          → ids ≡ taken ++ e''.waiting_ids
      rest taken order = sym (ap (drop 1) w) ∙ sym popped ∙ order

  Admitted-refl : (e : Engine T) → IsLive e → Stopped e → Admitted e e
  Admitted-refl e l stop = record {
    live = l;
    advanced = Advanced-refl e;
    in_order = ([], refl);
    stopped = stop;
  }

  -- A round, and the rounds after it.
  round_then :
      (fuel : ℕ) (tick_time : ℤ) (e : Engine T) (id : String) (ids : List String)
      → IsLive e
      → e.waiting_ids ≡ id ∷ ids
      → ((e' : Engine T)
          → IsLive e'
          → e'.waiting_ids ≡ ids
          → Returns (λ _. Admitted e') (admit_rounds hashing fuel tick_time e'))
      → Returns (λ _. Admitted e) (admit_rounds hashing (suc fuel) tick_time e)
  unfolding Headed
  round_then fuel tick_time e id ids l w next =
      let (s, found, at) = head_found e id ids l w in
      let named = (l.sound id s found).named in
      let own = subst (λ k. get e.states k ≡ some s) (sym named) found in
      let first = subst (λ k. e.waiting_ids ≡ k ∷ ids) (sym named) w in
      rw (rounds_next fuel tick_time e id ids w, state_found e id s found)
        (Ends-continue (after_head fuel tick_time)
          (admit_head-Headed e s ids tick_time l own at first)
          (λ more e' h. elim h [
            | inl (m, p) ↦ rw m (
                Ends-mono (next e' p.0.live (p.1 ∙ ap (drop 1) w))
                  (λ _ e'' a. Admitted-next e e' e'' s ids own first p a) (λ _ _ x. x))
            | inr (m, same, refused) ↦ rw m (
                returns (
                  subst (Admitted e) (sym same)
                    (Admitted-refl e l (inr (id, ids, w, (s, found, refused))))))
          ]))

  -- Rounds as many as there are requests waiting are enough.
  admit_rounds-Admitted :
      (fuel : ℕ) (tick_time : ℤ) (e : Engine T)
      → IsLive e
      → length e.waiting_ids ≤ fuel
      → Returns (λ _. Admitted e) (admit_rounds hashing fuel tick_time e)
  admit_rounds-Admitted zero tick_time e l enough = elim (list-cases e.waiting_ids) [
    | inl w ↦ rw (rounds_end zero tick_time e w) (returns (Admitted-refl e l (inl w)))
    | inr (id, ids, w) ↦ absurd (omega (arith, enough, ap length w))
  ]
  admit_rounds-Admitted (suc fuel) tick_time e l enough = elim (list-cases e.waiting_ids) [
    | inl w ↦ rw (rounds_end (suc fuel) tick_time e w) (returns (Admitted-refl e l (inl w)))
    | inr (id, ids, w) ↦ round_then fuel tick_time e id ids l w (λ e' l' w'.
        admit_rounds-Admitted fuel tick_time e' l'
          (omega (arith, enough, ap length w, ap length w')))
  ]

  -- On a live dense engine `_admit` returns with a live engine that has only advanced. It takes
  -- requests from the head of the queue only, in order, and it ends where none waits, or where
  -- every place is taken or a budget has no room for the head.
  pub admit-Admitted :
      (tick_time : ℤ) (e : Engine T)
      → IsLive e
      → Returns (λ _. Admitted e) (admit hashing tick_time e)
  unfolding admit
  admit-Admitted tick_time e l =
      admit_rounds-Admitted (length e.waiting_ids) tick_time e l (omega arith)
