-- ===== src/Serving/Chunks/Charges.antt =====
-- The work that the selection of decodes charges, by what the requests are before it.
use mini_gpt.Prelude.{
  ℕ, ◌+◌, ◌-◌, ◌≤◌, ◌<◌, ◌⊎◌, ◌≡◌, refl, sym, ◌∙◌, ap, String, Option, none, some, true, false,
  List, [], ◌∷◌, ◌++◌, arith, ltb, inl, inr,
}
use mini_gpt.Prelude.Int.{ℤ}
use mathlib.Core.Path.{subst}
use mini_gpt.Dict.{get}
use mini_gpt.Exec.{ok, Ends, Ends-continue, Ends-read, returns}
use mini_gpt.Serving.Types.{RequestState, Engine}
use mini_gpt.Serving.Execute.{Executor}
use mini_gpt.Serving.Pressure.{ensure_operation_reservation}
use mini_gpt.Serving.Chunks.{operation_work, select_decode}
use mini_gpt.Serving.Chunks.Bounds.{known_state}
use mini_gpt.Serving.Chunks.Tables.{Ends-result, Ends-test}
use mini_gpt.Serving.Chunks.Growth.{ensure-Grows, work_at, work_in, KeepsWork, IsNamed}

abbrev head : {A : Type 0} → List A → Option A
head [] = none
head (x ∷ xs) = some x

within_budget_of :
    (budget work spent : ℕ)
    → ltb budget work ≡ false
    → spent ≤ budget - work
    → work + spent ≤ budget
within_budget_of budget work spent h fits = ground arith

over_budget : (budget work : ℕ) → ltb budget work ≡ true → budget < work
over_budget budget work h = ground arith

exceeds :
    (budget work spent more now : ℕ)
    → ltb budget work ≡ false
    → budget - work < spent + more
    → more ≡ now
    → budget < work + spent + now
exceeds budget work spent more now under over same = ground arith

module _ {T : Type 0} (executor : Executor T) (tick_time : ℤ) where
  -- The work of requests, as they stand in the engine.
  abbrev pub total_work : Engine T → List String → ℕ
  total_work e [] = 0
  total_work e (id ∷ ids) = work_in executor.block_size e id + total_work e ids

  -- Why a request has to wait, if one has: its work does not fit beside the work that is charged,
  -- or its reservation was the last that was asked for, and did not grow.
  abbrev pub Waits : ℕ → Engine T → ℕ → Option String → Engine T → Type 0
  Waits budget e spent none e' = Unit
  Waits budget e spent (some id) e' =
      (budget < spent + work_in executor.block_size e id)
      ⊎ ((s : RequestState T) × (e1 : Engine T) × (get e1.states id ≡ some s)
          × KeepsWork executor.block_size e e1
          × (ensure_operation_reservation executor s tick_time true e1 ≡ (ok false, e')))

  -- What a selection comes to: the requests in order up to the one that has to wait, and their
  -- work.
  pub record Charged (budget : ℕ) (ids : List String) (e : Engine T)
      (chosen : List String × ℕ × Option String) (e' : Engine T) : Type 0 where
    pub left : List String
    pub in_order : ids ≡ chosen.0 ++ left
    pub waits : chosen.2 ≡ head left
    pub charged : chosen.1 ≡ total_work e (chosen.0)
    pub within_budget : chosen.1 ≤ budget
    pub reason : Waits budget e (chosen.1) (chosen.2) e'

  total_work-KeepsWork :
      (e e' : Engine T) (ids : List String)
      → KeepsWork executor.block_size e e'
      → total_work e' ids ≡ total_work e ids
  total_work-KeepsWork e e' [] k = refl
  total_work-KeepsWork e e' (id ∷ ids) k = omega (arith, k id, total_work-KeepsWork e e' ids k)

  abbrev Charges : List String → Type 0
  Charges ids =
      (budget : ℕ) (e : Engine T)
      → IsNamed e
      → Ends (λ chosen e'. Charged budget ids e chosen e') (λ _ _. Unit {0})
          (select_decode executor tick_time budget ids e)

  ends_here :
      (budget : ℕ) (id : String) (ids : List String) (e e' : Engine T)
      → Waits budget e 0 (some id) e'
      → Charged budget (id ∷ ids) e ([], 0, some id) e'
  ends_here budget id ids e e' why = record {
    left = id ∷ ids;
    in_order = refl;
    waits = refl;
    charged = refl;
    within_budget = omega arith;
    reason = why;
  }

  next-Waits :
      (budget work spent : ℕ) (e e1 e2 : Engine T) (o : Option String)
      → ltb budget work ≡ false
      → KeepsWork executor.block_size e e1
      → Waits (budget - work) e1 spent o e2
      → Waits budget e (work + spent) o e2
  next-Waits budget work spent e e1 e2 none under kept w = tt
  next-Waits budget work spent e e1 e2 (some id) under kept (inl over) =
      inl (exceeds budget work spent _ _ under over (kept id))
  next-Waits budget work spent e e1 e2 (some id) under kept (inr (s, e3, found, same, refused)) =
      inr (s, e3, found, (λ j. same j ∙ kept j), refused)

  next-Charged :
      (budget : ℕ) (id : String) (ids : List String) (e e' e2 : Engine T) (s : RequestState T)
      (chosen : List String × ℕ × Option String)
      → get e.states id ≡ some s
      → ltb budget (operation_work executor.block_size e.pool s) ≡ false
      → KeepsWork executor.block_size e e'
      → Charged (budget - operation_work executor.block_size e.pool s) ids e' chosen e2
      → Charged budget
          (id ∷ ids)
          e
          (id ∷ chosen.0, operation_work executor.block_size e.pool s + chosen.1, chosen.2)
          e2
  next-Charged budget id ids e e' e2 s chosen found under kept c =
      let work = operation_work executor.block_size e.pool s in
      record {
        left = c.left;
        in_order = ap (λ w. id ∷ w) c.in_order;
        waits = c.waits;
        charged = omega (
          arith,
          ap (work_at executor.block_size e.pool) found,
          c.charged,
          total_work-KeepsWork e e' (chosen.0) kept,
        );
        within_budget = within_budget_of budget work (chosen.1) under c.within_budget;
        reason = next-Waits budget work (chosen.1) e e' e2 (chosen.2) under kept c.reason;
      }

  next-Charges : (id : String) (ids : List String) → Charges ids → Charges (id ∷ ids)
  unfolding select_decode
  next-Charges id ids rest budget e named = Ends-read _ (known_state id e) (λ s found.
      let work = operation_work executor.block_size e.pool s in
      let own = subst (λ k. get e.states k ≡ some s) (sym (named id s found)) found in
      Ends-test (ltb budget work) _ _
        (λ over. returns (
          ends_here budget id ids e e (
            inl (
              omega (
                arith,
                ap (work_at executor.block_size e.pool) found,
                over_budget budget work over,
              )))))
        (λ under.
          Ends-continue _ (Ends-result (ensure-Grows executor s tick_time e named own true))
            (λ granted e1 (frame, answer).
              Ends-test granted _ _
                (λ _. Ends-continue _ (rest (budget - work) e1 frame.named) (λ chosen e2 c.
                  returns (next-Charged budget id ids e e1 e2 s chosen found under frame.work c)))
                (λ refused. returns (
                  ends_here budget id ids e e1
                    (inr (s, e, found, (λ j. refl), answer ∙ ap (λ b. (ok b, e1)) refused)))))))

  -- A selection of decodes and recomputations that returns, from an engine where every request
  -- stands under its own identifier, takes the requests in order up to the one that it says has
  -- to wait, if one has. What it charges is the sum of the work that the selected requests come
  -- to in that engine, before any reservation grew, and is within its budget. The one that waits
  -- has more work than the budget leaves beside what is charged, or its reservation, the last
  -- that was asked for, was refused.
  pub select_decode-Charged : (ids : List String) → Charges ids
  unfolding select_decode
  select_decode-Charged [] = λ budget e named. returns (record {
    left = [];
    in_order = refl;
    waits = refl;
    charged = refl;
    within_budget = omega arith;
    reason = tt;
  })
  select_decode-Charged (id ∷ ids) = next-Charges id ids (select_decode-Charged ids)
