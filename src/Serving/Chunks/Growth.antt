-- ===== src/Serving/Chunks/Growth.antt =====
-- What the growth of a reservation keeps of the engine: the work of every request.
use mini_gpt.Prelude.{
  ℕ, ◌+◌, ◌-◌, ◌≡◌, refl, sym, ◌∙◌, ap, String, Option, none, some, Bool, true, false, ltb, leb,
  ◌==◌, ◌&&◌, not, Bool-cases, some-eq, inl, inr, str_eq, eq_iff, if◌then◌else◌, length,
}
use mini_gpt.Prelude.Int.{ℤ}
use mathlib.Core.Path.{subst}
use mini_gpt.Dict.{get, put, get-put_self, get-put_ne}
use mini_gpt.Exec.{
  Exec, Result, ok, bad_config, Ends, Ends-if, Ends-option, returns, raises, continue,
}
use mini_gpt.PagedKvCache.Types.{PagedKvCachePool, RequestTable}
use mini_gpt.PagedKvCache.Reservation.{required_blocks}
use mini_gpt.Serving.Types.{
  RequestState, id_of, Engine, reservation_grown, reservation_growth_blocked, grown, growth_refused,
}
use mini_gpt.Serving.State.{
  emit_event, emit_detail, is_recomputing, is_decoding, save, clear_growth_blocked_of,
  reservation_for, reserved_cache_tokens,
}
use mini_gpt.Serving.Execute.{Executor}
use mini_gpt.Serving.Pressure.{
  operation_target, block_growth, grow_state, try_growth, ensure_operation_reservation,
  validate_decode_state,
}
use mini_gpt.Serving.Chunks.{operation_work}
use mini_gpt.Serving.Chunks.Tables.{
  cache_length_of, Reads, guard-Reads, Reads-then, KeepsLengths, grow_reservation-KeepsLengths,
  can_grow_reservation-Reads,
}

module _ {T : Type 0} where
  abbrev fits : ℕ → RequestState T → Option ℕ → Bool
  fits block_size s none = false
  fits block_size s (some n) = (n == s.cached_tokens) && leb s.cached_tokens block_size

  fits_length :
      (block_size : ℕ) (s : RequestState T) (o : Option RequestTable)
      → elim o [
        | none ↦ false
        | some t ↦ (t.cache_length == s.cached_tokens) && leb s.cached_tokens block_size
      ]
        ≡ fits block_size s (cache_length_of o)
  fits_length block_size s none = refl
  fits_length block_size s (some t) = refl

  -- The work of a request depends on the pool by the lengths of its tables only.
  validate-KeepsLengths :
      (block_size : ℕ) (p q : PagedKvCachePool T) (s : RequestState T)
      → KeepsLengths p q
      → validate_decode_state block_size (some q) s ≡ validate_decode_state block_size (some p) s
  validate-KeepsLengths block_size p q s k =
      ap (λ b. not (length s.generated_tokens == 0) && (ltb 0 s.cached_tokens && b))
        (fits_length block_size s (get q.tables (id_of s))
          ∙ ap (fits block_size s) (k (id_of s))
          ∙ sym (fits_length block_size s (get p.tables (id_of s))))

  operation_work-KeepsLengths :
      (block_size : ℕ) (p q : PagedKvCachePool T) (s : RequestState T)
      → KeepsLengths p q
      → operation_work block_size (some q) s ≡ operation_work block_size (some p) s
  operation_work-KeepsLengths block_size p q s k =
      rw (validate-KeepsLengths block_size p q s k) refl

  -- The work of a request, as it stands in the engine.
  abbrev pub work_at : ℕ → Option (PagedKvCachePool T) → Option (RequestState T) → ℕ
  work_at block_size pool none = 0
  work_at block_size pool (some s) = operation_work block_size pool s

  abbrev pub work_in : ℕ → Engine T → String → ℕ
  work_in block_size e id = work_at block_size e.pool (get e.states id)

  abbrev pub KeepsWork : ℕ → Engine T → Engine T → Type 0
  KeepsWork block_size e e' = (id : String) → work_in block_size e' id ≡ work_in block_size e id

  -- Every request stands under its own identifier.
  abbrev pub IsNamed : Engine T → Type 0
  IsNamed e = (id : String) (s : RequestState T) → get e.states id ≡ some s → id_of s ≡ id

  -- What a call that grows a reservation keeps.
  pub record Frame (block_size : ℕ) (e e' : Engine T) : Type 0 where
    pub named : IsNamed e'
    pub work : KeepsWork block_size e e'

  Frame-refl : (block_size : ℕ) (e : Engine T) → IsNamed e → Frame block_size e e
  Frame-refl block_size e named = record { named = named; work = λ id. refl }

  module _ (block_size : ℕ) (e e' : Engine T) (s s' : RequestState T) (named : IsNamed e)
      (found : get e.states (id_of s) ≡ some s) (states : e'.states ≡ put e.states (id_of s) s')
      (kept : id_of s' ≡ id_of s)
      (same : operation_work block_size e'.pool s' ≡ operation_work block_size e.pool s)
      (pools : (t : RequestState T)
        → operation_work block_size e'.pool t ≡ operation_work block_size e.pool t) where
    read_here : get e'.states (id_of s) ≡ some s'
    read_here = ap (λ d. get d (id_of s)) states ∙ get-put_self e.states (id_of s) s'

    read_apart : (j : String) → str_eq (id_of s) j ≡ false → get e'.states j ≡ get e.states j
    read_apart j miss = ap (λ d. get d j) states ∙ get-put_ne e.states (id_of s) j s' miss

    work_at-pools :
        (o : Option (RequestState T)) → work_at block_size e'.pool o ≡ work_at block_size e.pool o
    work_at-pools none = refl
    work_at-pools (some t) = pools t

    put-Frame : Frame block_size e e'
    put-Frame = record {
      named = λ j t h. elim (Bool-cases (str_eq (id_of s) j)) [
        | inl hit ↦
            let p : id_of s ≡ j = (eq_iff (id_of s) j).0 hit in
            let q : t ≡ s' = some-eq (sym h ∙ subst (λ k. get e'.states k ≡ some s') p read_here) in
            ap id_of q ∙ kept ∙ p
        | inr miss ↦ named j t (sym (read_apart j miss) ∙ h)
      ];
      work = λ j. elim (Bool-cases (str_eq (id_of s) j)) [
        | inl hit ↦
            subst (λ k. work_in block_size e' k ≡ work_in block_size e k)
              ((eq_iff (id_of s) j).0 hit)
              (ap (work_at block_size e'.pool) read_here
                ∙ same
                ∙ sym (ap (work_at block_size e.pool) found))
        | inr miss ↦
            ap (work_at block_size e'.pool) (read_apart j miss) ∙ work_at-pools (get e.states j)
      ];
    }

  Ends-on_pool :
      {A B : Type 0} {Q : A → PagedKvCachePool T → Type 0} {R : B → Engine T → Type 0}
      {r : Result A × PagedKvCachePool T} (e : Engine T) (f : A → Exec (Engine T) B)
      → Ends Q (λ _ _. Unit {0}) r
      → ((a : A) (q : PagedKvCachePool T)
          → Q a q
          → Ends R (λ _ _. Unit {0}) (f a (record e { pool = some q })))
      → Ends R (λ _ _. Unit {0}) (continue r.0 f (record e { pool = some r.1 }))
  Ends-on_pool e f (returns {a} {s} q) k = k a s q
  Ends-on_pool e f (raises x) k = raises tt

  module _ (executor : Executor T) (s : RequestState T) (tick_time : ℤ) (e : Engine T)
      (named : IsNamed e) (found : get e.states (id_of s) ≡ some s) where
    abbrev pub Grows : {A : Type 0} → Result A × Engine T → Type 0
    Grows = Ends (λ _ e'. Frame executor.block_size e e') (λ _ _. Unit {0})

    abbrev refused_state : RequestState T
    refused_state = record s {
      reservation_growth_blocked_count = s.reservation_growth_blocked_count + 1;
    }

    refused_work :
        (pool : Option (PagedKvCachePool T))
        → operation_work executor.block_size pool refused_state
          ≡ operation_work executor.block_size pool s
    refused_work none = refl
    refused_work (some p) = refl

    block_growth-Frame :
        (target : ℕ) (logical physical record_blocked : Bool)
        → Frame executor.block_size e
            (block_growth s target logical physical record_blocked tick_time e)
    unfolding block_growth emit_event
    block_growth-Frame target logical physical false = Frame-refl executor.block_size e named
    block_growth-Frame target logical physical true =
        put-Frame executor.block_size e
          (emit_detail reservation_growth_blocked refused_state tick_time
            (growth_refused s.reserved_cache_tokens target logical physical)
            (record (save refused_state e) {
              growth_blocked_request_id = some (id_of s);
              growth_blocked_target_tokens = target;
            }))
          s refused_state named found refl refl (refused_work e.pool) (λ t. refl)

    abbrev grown_state : ℕ → ℕ → RequestState T
    grown_state target target_blocks = record s {
      reserved_cache_tokens = target;
      reserved_cache_blocks = target_blocks;
      reservation_growth_count = s.reservation_growth_count + 1;
      reservation_growth_tokens = s.reservation_growth_tokens + (target - s.reserved_cache_tokens);
    }

    grow_state-Grows :
        (p : PagedKvCachePool T) (target target_blocks : ℕ)
        → e.pool ≡ some p
        → Grows (grow_state s p target target_blocks tick_time e)
    unfolding grow_state clear_growth_blocked_of emit_event
    grow_state-Grows p target target_blocks paged =
        Ends-on_pool e _ (grow_reservation-KeepsLengths (id_of s) target_blocks p) (λ _ q kept.
          returns (
            put-Frame executor.block_size e
              (emit_detail reservation_grown (grown_state target target_blocks) tick_time
                (grown s.reserved_cache_tokens target s.reserved_cache_blocks target_blocks)
                (clear_growth_blocked_of (id_of s)
                  (save (grown_state target target_blocks) (record e { pool = some q }))))
              s (grown_state target target_blocks) named found refl refl
              (operation_work-KeepsLengths executor.block_size p q s kept
                ∙ ap (λ o. operation_work executor.block_size o s) (sym paged))
              (λ t.
                operation_work-KeepsLengths executor.block_size p q t kept
                ∙ ap (λ o. operation_work executor.block_size o t) (sym paged))))

    operation_target-Reads : Reads e (operation_target executor s e)
    unfolding operation_target
    operation_target-Reads =
        Ends-if (not executor.direct) (λ _. raises tt)
          (λ _.
            Ends-if (is_recomputing s.status) (λ _. returns refl)
              (λ _.
                Ends-if (not (is_decoding s.status)) (λ _. raises tt)
                  (λ _.
                    Ends-if (leb e.config.block_size s.cached_tokens) (λ _. returns refl)
                      (λ _. returns refl))))

    try_growth-Grows :
        (p : PagedKvCachePool T) (target : ℕ) (record_blocked : Bool)
        → e.pool ≡ some p
        → Grows (try_growth s p target record_blocked tick_time e)
    unfolding try_growth
    try_growth-Grows p target record_blocked paged =
        let logical =
          leb (reserved_cache_tokens e + (target - s.reserved_cache_tokens))
            e.config.scheduler.max_cached_tokens in
        Ends-on_pool e _ (can_grow_reservation-Reads (id_of s) (required_blocks p target) p)
          (λ physical q same.
            subst
              (λ w. Grows (
                if logical && physical
                then grow_state s p target (required_blocks p target) tick_time w
                else (ok false, block_growth s target logical physical record_blocked tick_time w)))
              (ap (λ o. record e { pool = o }) (paged ∙ ap some (sym same)))
              (Ends-if (logical && physical)
                (λ _. grow_state-Grows p target (required_blocks p target) paged)
                (λ _. returns (block_growth-Frame target logical physical record_blocked))))

    pub ensure-Grows :
        (record_blocked : Bool)
        → Grows (ensure_operation_reservation executor s tick_time record_blocked e)
    unfolding ensure_operation_reservation clear_growth_blocked_of
    ensure-Grows record_blocked =
        Ends-if (not e.config.scheduler.lazy_kv_reservation)
          (λ _. returns (Frame-refl executor.block_size e named))
          (λ _.
            Ends-option e.pool (λ _. raises tt)
              (λ p paged. Reads-then _ operation_target-Reads (λ target.
                Reads-then _
                  (guard-Reads (leb target (reservation_for e.config.block_size s.request))
                    bad_config e)
                  (λ _.
                    Ends-if (leb target s.reserved_cache_tokens)
                      (λ _. returns (record { named = named; work = λ id. refl }))
                      (λ _. try_growth-Grows p target record_blocked paged)))))
