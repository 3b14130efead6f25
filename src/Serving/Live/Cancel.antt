-- ===== src/Serving/Live/Cancel.antt =====
-- Cancellations in a dense engine.
use mini_gpt.Prelude.{
  ◌<◌, ◌≡◌, refl, sym, String, some, List, [], ◌∷◌, arith, str_eq, Bool-cases, inl, inr, ◌||◌,
}
use mini_gpt.Prelude.Int.{ℤ}
use mathlib.Core.Path.{subst}
use mini_gpt.Dict.{Dict, get, keys}
use mini_gpt.Exec.{Ends-mono, returns}
use mini_gpt.Serving.Types.{RequestState, id_of, Engine}
use mini_gpt.Serving.State.{holds, is_terminal, remove_one}
use mini_gpt.Serving.Admission.{scheduled_by, cancel_due, cancel_each, apply_cancellations}
use mini_gpt.Serving.Live.Tally.{tally}
use mini_gpt.Serving.Live.Invariant.{IsLive}
use mini_gpt.Serving.Live.Progress.{
  Extends-refl, Later-refl, Advanced, Advanced-refl, Advanced-trans, Updated-Advanced, Runs,
  Runs-then,
}
use mini_gpt.Serving.Live.Requests.{state_found, cancel-Updates}
use mini_gpt.Serving.Live.Batches.{Known, Known-Advanced, Known-head, Known-tail}

keys-Known :
    {V : Type 0} (d : Dict V) (id : String) → 0 < tally id (keys d) → (v : V) × (get d id ≡ some v)
unfolding keys get
keys-Known [] id h = absurd (omega (arith, h))
keys-Known ((j, v) ∷ d) id h = elim (Bool-cases (str_eq j id)) [
  | inl e ↦ rw e (v, refl)
  | inr e ↦ rw e (keys-Known d id (ground (arith, h, e)))
]

module _ {T : Type 0} where
  abbrev discarded : RequestState T → Engine T → Engine T
  discarded s e = record e { pending_cancellations = remove_one e.pending_cancellations (id_of s) }

  discarded-Advanced : (s : RequestState T) (e : Engine T) → Advanced e (discarded s e)
  discarded-Advanced s e = record {
    config = refl;
    kept = λ id t h. (t, h, Later-refl t);
    log = Extends-refl e.events;
  }

  cancel_due-Runs :
      (tick_time : ℤ) (e : Engine T) (s : RequestState T)
      → IsLive e
      → get e.states (id_of s) ≡ some s
      → Runs e (cancel_due tick_time s e)
  unfolding cancel_due
  cancel_due-Runs tick_time e s l h =
      elim (Bool-cases (
        holds e.pending_cancellations (id_of s)
        || scheduled_by s.request.cancellation_time tick_time)) [
          | inr p ↦ rw p (returns (l, Advanced-refl e))
          | inl p ↦ elim (Bool-cases (is_terminal s.status)) [
            | inl q ↦ rw (p, q) (returns (l, discarded-Advanced s e))
            | inr q ↦
                rw (p, q)
                  (Ends-mono (cancel-Updates (discarded s e) s tick_time l h q)
                    (λ _ e' u.
                      (u.live, Advanced-trans (discarded-Advanced s e) (Updated-Advanced h u)))
                    (λ _ _ x. x))
          ]
        ]

  cancel_each-Runs :
      (tick_time : ℤ) (ids : List String) (e : Engine T)
      → IsLive e
      → Known e ids
      → Runs e (cancel_each tick_time ids e)
  unfolding cancel_each
  cancel_each-Runs tick_time [] e l k = returns (l, Advanced-refl e)
  cancel_each-Runs tick_time (id ∷ ids) e l k =
      let (s, found) = Known-head e id ids k in
      let own = subst (λ j. get e.states j ≡ some s) (sym ((l.sound id s found).named)) found in
      rw (state_found e id s found) (
        Runs-then _ (cancel_due-Runs tick_time e s l own) (λ _ e' l' a.
          cancel_each-Runs tick_time ids e' l' (Known-Advanced ids a (Known-tail e id ids k))))

  pub apply_cancellations-Runs :
      (tick_time : ℤ) (e : Engine T) → IsLive e → Runs e (apply_cancellations tick_time e)
  unfolding apply_cancellations
  apply_cancellations-Runs tick_time e l =
      cancel_each-Runs tick_time (keys e.states) e l (keys-Known e.states)
