-- ===== src/Serving/Live/Execute.antt =====
-- The phases of a tick of a dense engine that run its executor.
use mini_gpt.Prelude.{
  ◌≤◌, ◌≡◌, refl, sym, ◌∙◌, ap, String, Option, none, some, Bool, true, false, List, [], ◌∷◌,
  str_eq, eq_iff, Bool-cases, inl, inr, if◌then◌else◌, is_some,
}
use mini_gpt.Prelude.Int.{ℤ}
use mathlib.Core.Path.{subst}
use mini_gpt.Dict.{get, put, get-put_self, get-put_ne}
use mini_gpt.Exec.{Exec, Ends-continue, Ends-mono, Returns, returns, pure, ◌>>◌}
use mini_gpt.PagedKvCache.Prefix.{Hashing}
use mini_gpt.Serving.Types.{prefill_started, RequestState, id_of, ExecutionResult, Engine}
use mini_gpt.Serving.State.{is_empty, emit_event, emit, save}
use mini_gpt.Serving.Execute.{Executor}
use mini_gpt.Serving.Commit.{
  handle_result, handle_each, start_each, drop_caches, ask, failures_on_error, execute_batch,
  execute, expected_status,
}
use mini_gpt.Serving.Live.Tally.{tally}
use mini_gpt.Serving.Live.Invariant.{service_bit, IsLive}
use mini_gpt.Serving.Live.Progress.{
  Extends-refl, Advanced, Advanced-refl, Advanced-trans, Updated, Updated-Advanced, Runs,
}
use mini_gpt.Serving.Live.Requests.{state_found, Updated-emit, save-Updated}
use mini_gpt.Serving.Live.Results.{handle_result-Updates}
use mini_gpt.Serving.Live.Batches.{
  Known, Batch, Batch-head, Batch-tail, Batch-Known, Picked-Batch, ids_with-Picked, states_of-same,
}

no_pool : {A : Type 0} (o : Option A) → o ≡ none → is_some o ≡ false
no_pool o h = ap is_some h

module _ {T : Type 0} where
  -- A step by an identifier is one by its request.
  named_step :
      (e : Engine T) (id : String) (s : RequestState T)
      → IsLive e
      → get e.states id ≡ some s
      → id_of s ≡ id
  named_step e id s l h = (l.sound id s h).named

  -- The results of a batch are handled, whatever they are.
  handle_each-Runs :
      (hashing : Hashing) (results : List (ExecutionResult T)) (tick_time : ℤ) (prefill : Bool)
      (ids : List String) (e : Engine T)
      → IsLive e
      → Batch e ids
      → Runs e (handle_each hashing results tick_time prefill ids e)
  unfolding handle_each
  handle_each-Runs hashing results tick_time prefill [] e l b = returns (l, Advanced-refl e)
  handle_each-Runs hashing results tick_time prefill (id ∷ ids) e l b =
      let (s, found, at) = Batch-head e id ids b in
      let named = (l.sound id s found).named in
      let handled =
        subst
          (λ k.
            Returns (λ _ e'. Updated k s e e')
              (handle_result hashing results tick_time prefill k e))
          named
          (handle_result-Updates hashing results tick_time prefill e s l
            (subst (λ k. get e.states k ≡ some s) (sym named) found) at) in
      Ends-continue _ handled (λ _ e' u.
        Ends-mono
          (handle_each-Runs hashing results tick_time prefill ids e' u.live
            (Batch-tail e e' id ids s b u))
          (λ _ e'' (l', a). (l', Advanced-trans (Updated-Advanced found u) a)) (λ _ _ x. x))

  -- Requests in service stay in service.
  abbrev KeepsService : Engine T → Engine T → Type 0
  KeepsService e e' =
      (j : String) (s : RequestState T)
      → get e.states j ≡ some s
      → service_bit s.status ≡ 1
      → (s' : RequestState T) × (get e'.states j ≡ some s') × (service_bit s'.status ≡ 1)

  Batch-kept :
      (e e' : Engine T) (ids : List String) → KeepsService e e' → Batch e ids → Batch e' ids
  Batch-kept e e' ids k b = record {
    serves = λ id h. let (s, found, at) = b.serves id h in k id s found at;
    distinct = b.distinct;
  }

  -- One request is marked as started.
  module _ (e : Engine T) (id : String) (s : RequestState T) (tick_time : ℤ) (l : IsLive e)
      (found : get e.states id ≡ some s) (at : service_bit s.status ≡ 1) where
    abbrev marked : RequestState T
    marked = record s { prefill_start_time = some tick_time }

    abbrev started : Engine T
    started = emit prefill_started marked tick_time (save marked e)

    started-Updated : Updated id s e started
    started-Updated =
        let named = (l.sound id s found).named in
        subst (λ k. Updated k s e started) named
          (Updated-emit (id_of s) s e (save marked e) prefill_started marked tick_time none none
            false
            (save-Updated e s marked l (subst (λ k. get e.states k ≡ some s) (sym named) found) at
              at refl ((l.sound id s found).bounded) refl (Extends-refl s.generated_tokens)))

    started-KeepsService : KeepsService e started
    unfolding emit_event
    started-KeepsService j t h at' = elim (Bool-cases (str_eq (id_of s) j)) [
      | inl same ↦ (
        marked,
        subst (λ k. get (put e.states (id_of s) marked) k ≡ some marked)
            ((eq_iff (id_of s) j).0 same) (get-put_self e.states (id_of s) marked),
        at,
      )
      | inr other ↦ (t, get-put_ne e.states (id_of s) j marked other ∙ h, at')
    ]

  start_each-Runs :
      (tick_time : ℤ) (ids : List String) (e : Engine T)
      → IsLive e
      → Batch e ids
      → Returns (λ _ e'. IsLive e' × Advanced e e' × KeepsService e e') (start_each tick_time ids e)
  unfolding start_each
  start_each-Runs tick_time [] e l b = returns (l, Advanced-refl e, λ j s h at. (s, h, at))
  start_each-Runs tick_time (id ∷ ids) e l b =
      let (s, found, at) = Batch-head e id ids b in
      let e1 = started e id s tick_time l found at in
      let u = started-Updated e id s tick_time l found at in
      let k = started-KeepsService e id s tick_time l found at in
      rw (state_found e id s found) (
        Ends-mono (start_each-Runs tick_time ids e1 u.live (Batch-tail e e1 id ids s b u))
          (λ _ e2 (l', a, k'). (
            l',
            Advanced-trans (Updated-Advanced found u) a,
            λ j t h at'. let (t', h', at'') = k j t h at' in k' j t' h' at'',
          ))
          (λ _ _ x. x))

  begin-Runs :
      (prefill : Bool) (tick_time : ℤ) (ids : List String) (e : Engine T)
      → IsLive e
      → Batch e ids
      → Returns
          (λ _ e'. IsLive e' × Advanced e e' × KeepsService e e')
          ((if prefill then start_each tick_time ids else pure tt) e)
  begin-Runs true tick_time ids e l b = start_each-Runs tick_time ids e l b
  begin-Runs false tick_time ids e l b = returns (l, Advanced-refl e, λ j s h at. (s, h, at))

  module _ (hashing : Hashing) (executor : Executor T) (tick_time : ℤ) (prefill : Bool) where
    -- The executor is asked, and its results are handled.
    abbrev run_batch : List String → List (RequestState T) → Exec (Engine T) (Unit {0})
    run_batch ids states e =
        (do
          if is_some e.pool then drop_caches ids else pure tt
          handle_each hashing (failures_on_error states (ask executor prefill states e.pool))
              tick_time prefill ids)
          e

    run_batch-Runs :
        (ids : List String) (states : List (RequestState T)) (e : Engine T)
        → IsLive e
        → Batch e ids
        → Runs e (run_batch ids states e)
    run_batch-Runs ids states e l b = rw (no_pool e.pool l.dense) (
        handle_each-Runs hashing (failures_on_error states (ask executor prefill states e.pool))
          tick_time prefill ids e l b)

    execute_batch-Runs :
        (ids : List String) (e : Engine T)
        → IsLive e
        → Batch e ids
        → Runs e (execute_batch hashing executor tick_time prefill ids e)
    unfolding execute_batch
    execute_batch-Runs ids e l b =
        Ends-continue _ (begin-Runs prefill tick_time ids e l b) (λ _ e1 (l1, a1, k1).
          let b1 = Batch-kept e e1 ids k1 b in
          Ends-continue _ (states_of-same ids e1 (Batch-Known e1 ids b1)) (λ states e2 same.
            Ends-mono
              (subst (λ w. Runs w (run_batch ids states w)) (sym same)
                (run_batch-Runs ids states e1 l1 b1))
              (λ _ e3 (l3, a3). (l3, Advanced-trans a1 (subst (λ w. Advanced w e3) same a3)))
              (λ _ _ x. x)))

    -- On a live dense engine, for known requests each listed once, `_execute` returns with a live
    -- engine that has only advanced, whatever the executor answers: an exception, missing,
    -- doubled or invalid results.
    pub execute-Runs :
        (ids : List String) (e : Engine T)
        → IsLive e
        → Known e ids
        → ((id : String) → tally id ids ≤ 1)
        → Runs e (execute hashing executor tick_time prefill ids e)
    unfolding execute
    execute-Runs ids e l k d =
        Ends-continue _ (ids_with-Picked (expected_status prefill) ids e k) (λ picked e1 (same, p).
          subst
            (λ w.
              Returns (λ _ e'. IsLive e' × Advanced e e')
                ((if is_empty picked
                    then pure tt
                    else execute_batch hashing executor tick_time prefill picked)
                  w))
            (sym same)
            (elim (Bool-cases (is_empty picked)) [
              | inl q ↦ rw q (returns (l, Advanced-refl e))
              | inr q ↦ rw q (execute_batch-Runs picked e l (Picked-Batch e prefill ids picked d p))
            ]))
