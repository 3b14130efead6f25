-- ===== src/Serving/Live/Ticks.antt =====
-- A tick of a dense engine, and the run until it is idle.
use mini_gpt.Prelude.{
  ℕ, zero, suc, ◌≤◌, ◌≡◌, refl, sym, ◌∙◌, ap, String, Option, none, some, Bool, true, false, List,
  arith, Bool-cases, inl, inr, Option-cases, not,
}
use mini_gpt.Prelude.Int.{ℤ, pos, ◌+ℤ◌, is_negative}
use mathlib.Core.Path.{subst}
use mini_gpt.Dict.{get}
use mini_gpt.Exec.{
  Exec, ok, Ends, Ends-continue, Ends-mono, Ends-if, Ends-option, Returns, returns, raises, ◌>>=◌,
  ◌>>◌,
}
use mini_gpt.PagedKvCache.Prefix.{Hashing}
use mini_gpt.Serving.Types.{RequestStatus, RequestState, Engine}
use mini_gpt.Serving.State.{is_prefilling, is_decoding, update_peaks}
use mini_gpt.Serving.Admission.{apply_cancellations, admit}
use mini_gpt.Serving.Execute.{Executor}
use mini_gpt.Serving.Commit.{ids_with, execute}
use mini_gpt.Serving.Tick.{is_monotonic, tick_plain, tick, is_idle, run_ticks, run_until_idle}
use mini_gpt.Serving.Live.Tally.{tally}
use mini_gpt.Serving.Live.Invariant.{service_bit, place, IsLive}
use mini_gpt.Serving.Live.Moves.{queue_bit_bound}
use mini_gpt.Serving.Live.Progress.{
  Extends-refl, Later-refl, Advanced, Advanced-refl, Advanced-trans, Runs, Runs-then,
}
use mini_gpt.Serving.Live.Batches.{Known, Known-Advanced, Picked, ids_with-Picked}
use mini_gpt.Serving.Live.Execute.{execute-Runs}
use mini_gpt.Serving.Live.Cancel.{apply_cancellations-Runs}
use mini_gpt.Serving.Live.Admit.Queue.{admit-Admitted}

none-some : {A : Type 0} {o : Option A} {a : A} → o ≡ none → o ≡ some a → ⊥
none-some p q = cc

module _ {T : Type 0} where
  place_bound : (o : Option (RequestState T)) → place service_bit o ≤ 1
  place_bound none = omega arith
  place_bound (some s) = omega (arith, queue_bit_bound s.status)

  active_Known : (e : Engine T) → IsLive e → Known e e.active_ids
  active_Known e l id h = elim (Option-cases (get e.states id)) [
    | inl n ↦ absurd (omega (arith, h, l.serving id, ap (place service_bit) n))
    | inr found ↦ found
  ]

  active_once : (e : Engine T) → IsLive e → (id : String) → tally id e.active_ids ≤ 1
  active_once e l id = omega (arith, l.serving id, place_bound (get e.states id))

  Picked-Known :
      {test : RequestStatus → Bool} (e : Engine T) (ids picked : List String)
      → Picked test e ids picked
      → Known e picked
  Picked-Known e ids picked p id h = let (s, found, status) = p.tested id h in (s, found)

  update_peaks-Runs :
      (e : Engine T) → IsLive e → IsLive (update_peaks e) × Advanced e (update_peaks e)
  unfolding update_peaks
  update_peaks-Runs e l = (
    l,
    record { config = refl; kept = λ id s h. (s, h, Later-refl s); log = Extends-refl e.events },
  )

  module _ (hashing : Hashing) (executor : Executor T) where
    abbrev phases : ℤ → List String → List String → Exec (Engine T) (Unit {0})
    phases tick_time prefill_ids decode_ids = do
      apply_cancellations tick_time
      admit hashing tick_time
      execute hashing executor tick_time true prefill_ids
      execute hashing executor tick_time false decode_ids
      λ e. (ok tt, update_peaks e)

    -- The phases of a tick, for the requests that were active before it.
    phases-Runs :
        (tick_time : ℤ) (prefill_ids decode_ids : List String) (e : Engine T)
        → IsLive e
        → Known e prefill_ids
        → Known e decode_ids
        → ((id : String) → tally id prefill_ids ≤ 1)
        → ((id : String) → tally id decode_ids ≤ 1)
        → Runs e (phases tick_time prefill_ids decode_ids e)
    phases-Runs tick_time prefill_ids decode_ids e l kp kd dp dd =
        Runs-then _ (apply_cancellations-Runs tick_time e l) (λ _ e1 l1 a1.
          Runs-then _
            (Ends-mono (admit-Admitted hashing tick_time e1 l1) (λ _ _ a. (a.live, a.advanced))
              (λ _ _ x. x))
            (λ _ e2 l2 a2.
              let a02 = Advanced-trans a1 a2 in
              Runs-then _
                (execute-Runs hashing executor tick_time true prefill_ids e2 l2
                  (Known-Advanced prefill_ids a02 kp) dp)
                (λ _ e3 l3 a3.
                  Runs-then _
                    (execute-Runs hashing executor tick_time false decode_ids e3 l3
                      (Known-Advanced decode_ids (Advanced-trans a02 a3) kd) dd)
                    (λ _ e4 l4 a4. returns (update_peaks-Runs e4 l4)))))

    abbrev decode_then : ℤ → List String → Exec (Engine T) (Unit {0})
    decode_then tick_time prefill_ids =
        (λ e. ids_with is_decoding e.active_ids e) >>= phases tick_time prefill_ids

    decode_then-Runs :
        (tick_time : ℤ) (prefill_ids : List String) (e : Engine T)
        → IsLive e
        → Picked is_prefilling e e.active_ids prefill_ids
        → Runs e (decode_then tick_time prefill_ids e)
    decode_then-Runs tick_time ps e l p =
        Ends-continue _ (ids_with-Picked is_decoding e.active_ids e (active_Known e l))
          (λ ds e1 (same, d).
            subst (λ w. Returns (λ _ e'. IsLive e' × Advanced e e') (phases tick_time ps ds w))
              (sym same)
              (phases-Runs tick_time ps ds e l (Picked-Known e e.active_ids ps p)
                (Picked-Known e e.active_ids ds d)
                (λ id. omega (arith, p.among id, active_once e l id))
                (λ id. omega (arith, d.among id, active_once e l id))))

    -- On a live dense engine the tick without chunks returns, whatever the executor does.
    pub tick_plain-Runs :
        (tick_time : ℤ) (e : Engine T) → IsLive e → Runs e (tick_plain hashing executor tick_time e)
    unfolding tick_plain
    tick_plain-Runs tick_time e l =
        Ends-continue _ (ids_with-Picked is_prefilling e.active_ids e (active_Known e l))
          (λ ps e1 (same, p).
            subst (λ w. Returns (λ _ e'. IsLive e' × Advanced e e') (decode_then tick_time ps w))
              (sym same) (decode_then-Runs tick_time ps e l p))

    timed-Advanced :
        (tick_time : ℤ) (e : Engine T) → Advanced e (record e { last_tick_time = some tick_time })
    timed-Advanced tick_time e = record {
      config = refl;
      kept = λ id s h. (s, h, Later-refl s);
      log = Extends-refl e.events;
    }

    -- On a live dense engine without chunks, `tick` with any executor, whatever it answers or
    -- raises, either raises and leaves the engine as it was, or returns with a live engine that
    -- has only advanced: the configuration stays, each request keeps its object with its request,
    -- its generated tokens are only appended to, an ended request does not change, and the event
    -- log is only appended to.
    pub tick-Runs :
        (tick_time : ℤ) (e : Engine T)
        → IsLive e
        → e.config.scheduler.prefill_chunk_tokens ≡ none
        → Ends
            (λ _ e'. IsLive e' × Advanced e e')
            (λ _ e'. e' ≡ e)
            (tick hashing executor tick_time e)
    unfolding tick
    tick-Runs tick_time e l plain = elim (Bool-cases (not (is_negative tick_time))) [
      | inr p ↦ rw p (raises refl)
      | inl p ↦ elim (Bool-cases (is_monotonic e.last_tick_time tick_time)) [
        | inr q ↦ rw (p, q) (raises refl)
        | inl q ↦
            rw (p, q)
              (Ends-option e.config.scheduler.prefill_chunk_tokens
                (λ _.
                  Ends-mono
                    (tick_plain-Runs tick_time (record e { last_tick_time = some tick_time }) l)
                    (λ _ e' (l', a). (l', Advanced-trans (timed-Advanced tick_time e) a))
                    (λ _ _ x. absurd x))
                (λ chunk h. absurd (none-some plain h)))
      ]
    ]

    tick_kept :
        (tick_time : ℤ) (e : Engine T)
        → IsLive e
        → e.config.scheduler.prefill_chunk_tokens ≡ none
        → Ends
            (λ _ e'. IsLive e' × Advanced e e')
            (λ _ e'. IsLive e' × Advanced e e')
            (tick hashing executor tick_time e)
    tick_kept tick_time e l plain =
        Ends-mono (tick-Runs tick_time e l plain) (λ _ _ q. q)
          (λ _ e' same. subst (λ w. IsLive w × Advanced e w) (sym same) (l, Advanced-refl e))

    -- The run until the engine is idle: it ends idle, or it gives up, and what the requests were
    -- given is never taken back.
    run_ticks-Runs :
        (left : ℕ) (time tick_seconds : ℤ) (e : Engine T)
        → IsLive e
        → e.config.scheduler.prefill_chunk_tokens ≡ none
        → Ends
            (λ _ e'. IsLive e' × Advanced e e' × (is_idle e' ≡ true))
            (λ _ e'. IsLive e' × Advanced e e')
            (run_ticks hashing executor time tick_seconds left e)
    unfolding run_ticks
    run_ticks-Runs zero time tick_seconds e l plain =
        Ends-if (is_idle e) (λ i. returns (l, Advanced-refl e, i))
          (λ _. raises (l, Advanced-refl e))
    run_ticks-Runs (suc left) time tick_seconds e l plain =
        Ends-if (is_idle e) (λ i. returns (l, Advanced-refl e, i))
          (λ _. Ends-continue _ (tick_kept time e l plain) (λ _ e1 (l1, a1).
            Ends-mono
              (run_ticks-Runs left (time +ℤ tick_seconds) tick_seconds e1 l1
                (ap (λ c. c.scheduler.prefill_chunk_tokens) a1.config ∙ plain))
              (λ _ e2 (l2, a2, i). (l2, Advanced-trans a1 a2, i))
              (λ _ e2 (l2, a2). (l2, Advanced-trans a1 a2))))

    -- From a live dense engine without chunks `run_until_idle` with any executor returns with an
    -- idle engine, or raises. Either way the engine is live, and has only advanced: no request is
    -- lost, no generated token is taken back, and no ended request changes.
    pub run_until_idle-Runs :
        (start_time tick_seconds max_ticks : ℤ) (e : Engine T)
        → IsLive e
        → e.config.scheduler.prefill_chunk_tokens ≡ none
        → Ends
            (λ _ e'. IsLive e' × Advanced e e' × (is_idle e' ≡ true))
            (λ _ e'. IsLive e' × Advanced e e')
            (run_until_idle hashing executor start_time tick_seconds max_ticks e)
    unfolding run_until_idle
    run_until_idle-Runs start_time (pos (suc tick_seconds)) (pos (suc max_ticks)) e l plain =
        elim (Bool-cases (is_negative start_time)) [
          | inl p ↦ rw p (raises (l, Advanced-refl e))
          | inr p ↦
              rw p (run_ticks-Runs (suc max_ticks) start_time (pos (suc tick_seconds)) e l plain)
        ]
    run_until_idle-Runs start_time tick_seconds max_ticks e l plain = raises (l, Advanced-refl e)
