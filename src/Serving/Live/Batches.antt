-- ===== src/Serving/Live/Batches.antt =====
-- Reads of the requests of a list, and batches of requests in service.
use mini_gpt.Prelude.{
  ◌≤◌, ◌<◌, ◌≡◌, refl, String, some, Bool, true, false, List, [], ◌∷◌, ◌∙◌, arith, str_eq, eq_iff,
  Bool-cases, inl, inr,
}
use mathlib.Core.Path.{subst}
use mini_gpt.Dict.{get}
use mini_gpt.Exec.{Ends-continue, Returns, returns}
use mini_gpt.Serving.Types.{RequestStatus, prefilling, decoding, RequestState, Engine}
use mini_gpt.Serving.Commit.{expected_status, ids_with, states_of}
use mini_gpt.Serving.Live.Tally.{tally}
use mini_gpt.Serving.Live.Invariant.{service_bit}
use mini_gpt.Serving.Live.Progress.{Advanced, Updated}
use mini_gpt.Serving.Live.Requests.{state_found}

expected-service :
    (prefill : Bool) (status : RequestStatus)
    → expected_status prefill status ≡ true
    → service_bit status ≡ 1
expected-service true prefilling h = refl
expected-service false decoding h = refl
expected-service prefill status h = cc

module _ {T : Type 0} where
  -- Every identifier of the list has a request.
  abbrev pub Known : Engine T → List String → Type 0
  Known e ids = (id : String) → 0 < tally id ids → (s : RequestState T) × (get e.states id ≡ some s)

  pub Known-Advanced :
      {e e' : Engine T} (ids : List String) → Advanced e e' → Known e ids → Known e' ids
  Known-Advanced ids a k id h =
      let (s, found) = k id h in let (s', found', later) = a.kept id s found in (s', found')

  -- The requests of the list are in service, and each stands in it once.
  pub record Batch (e : Engine T) (ids : List String) : Type 0 where
    pub serves :
        (id : String)
        → 0 < tally id ids
        → (s : RequestState T) × (get e.states id ≡ some s) × (service_bit s.status ≡ 1)
    pub distinct : (id : String) → tally id ids ≤ 1

  pub Batch-head :
      (e : Engine T) (id : String) (ids : List String)
      → Batch e (id ∷ ids)
      → (s : RequestState T) × (get e.states id ≡ some s) × (service_bit s.status ≡ 1)
  Batch-head e id ids b = b.serves id (ground (arith, eq_iff id id))

  -- A step of the first request leaves the others in service.
  pub Batch-tail :
      (e e' : Engine T) (id : String) (ids : List String) (s : RequestState T)
      → Batch e (id ∷ ids)
      → Updated id s e e'
      → Batch e' ids
  Batch-tail e e' id ids s b u = record {
    serves = λ j h.
        let apart : str_eq id j ≡ false = ground (arith, b.distinct j, h) in
        let (t, found, at) = b.serves j (omega (arith, h)) in (t, u.others j apart ∙ found, at);
    distinct = λ j. ground (arith, b.distinct j);
  }

  -- What a selection by status returns.
  pub record Picked (test : RequestStatus → Bool) (e : Engine T) (ids picked : List String)
      : Type 0 where
    pub among : (id : String) → tally id picked ≤ tally id ids
    pub tested :
        (id : String)
        → 0 < tally id picked
        → (s : RequestState T) × (get e.states id ≡ some s) × (test s.status ≡ true)

  Picked-skip :
      (test : RequestStatus → Bool) (e : Engine T) (id : String) (ids picked : List String)
      → Picked test e ids picked
      → Picked test e (id ∷ ids) picked
  Picked-skip test e id ids picked p = record {
    among = λ j. omega (arith, p.among j);
    tested = p.tested;
  }

  Picked-take :
      (test : RequestStatus → Bool) (e : Engine T) (id : String) (ids picked : List String)
      (s : RequestState T)
      → get e.states id ≡ some s
      → test s.status ≡ true
      → Picked test e ids picked
      → Picked test e (id ∷ ids) (id ∷ picked)
  Picked-take test e id ids picked s found hit p = record {
    among = λ j. omega (arith, p.among j);
    tested = λ j h. elim (Bool-cases (str_eq id j)) [
      | inl same ↦ (s, subst (λ k. get e.states k ≡ some s) ((eq_iff id j).0 same) found, hit)
      | inr other ↦ p.tested j (ground (arith, h, other))
    ];
  }

  pub Known-tail :
      (e : Engine T) (id : String) (ids : List String) → Known e (id ∷ ids) → Known e ids
  Known-tail e id ids k j h = k j (omega (arith, h))

  pub Known-head :
      (e : Engine T) (id : String) (ids : List String)
      → Known e (id ∷ ids)
      → (s : RequestState T) × (get e.states id ≡ some s)
  Known-head e id ids k = k id (ground (arith, eq_iff id id))

  -- A selection of known requests returns, and changes nothing.
  pub ids_with-Picked :
      (test : RequestStatus → Bool) (ids : List String) (e : Engine T)
      → Known e ids
      → Returns (λ picked e'. (e' ≡ e) × Picked test e ids picked) (ids_with test ids e)
  unfolding ids_with
  ids_with-Picked test [] e k =
      returns (refl, record { among = λ j. omega arith; tested = λ j h. absurd (omega (arith, h)) })
  ids_with-Picked test (id ∷ ids) e k =
      let (s, found) = Known-head e id ids k in
      rw (state_found e id s found) (
        Ends-continue _ (ids_with-Picked test ids e (Known-tail e id ids k)) (λ picked e' (same, p).
          elim (Bool-cases (test s.status)) [
            | inl q ↦ rw q (returns (same, Picked-take test e id ids picked s found q p))
            | inr q ↦ rw q (returns (same, Picked-skip test e id ids picked p))
          ]))

  pub Picked-Batch :
      (e : Engine T) (prefill : Bool) (ids picked : List String)
      → ((id : String) → tally id ids ≤ 1)
      → Picked (expected_status prefill) e ids picked
      → Batch e picked
  Picked-Batch e prefill ids picked d p = record {
    serves = λ id h.
        let (s, found, status) = p.tested id h in
        (s, found, expected-service prefill s.status status);
    distinct = λ id. omega (arith, p.among id, d id);
  }

  -- The requests of a batch are read without a change.
  pub states_of-same :
      (ids : List String) (e : Engine T) → Known e ids → Returns (λ _ e'. e' ≡ e) (states_of ids e)
  unfolding states_of
  states_of-same [] e k = returns refl
  states_of-same (id ∷ ids) e k =
      let (s, found) = Known-head e id ids k in
      rw (state_found e id s found) (
        Ends-continue _ (states_of-same ids e (Known-tail e id ids k))
          (λ states e' same. returns same))

  pub Batch-Known : (e : Engine T) (ids : List String) → Batch e ids → Known e ids
  Batch-Known e ids b id h = let (s, found, at) = b.serves id h in (s, found)
