-- ===== src/Serving/Admission/Cancellation.antt =====
-- src/minigpt/serving.py: `cancel`, and `_apply_cancellations`.
use mini_gpt.Prelude.{
  String, Option, none, some, Bool, false, List, [], ◌∷◌, ◌||◌, not, if◌then◌else◌,
}
use mini_gpt.Prelude.Int.{ℤ, leb_ℤ, is_negative}
use mini_gpt.Dict.{keys}
use mini_gpt.Exec.{Exec, ok, bad_config, pure, guard, ◌>>=◌, ◌>>◌}
use mini_gpt.Serving.Types.{
  cancelled, cancelled_event, cancellation_requested, RequestState, id_of, Engine,
}
use mini_gpt.Serving.State.{
  holds, remove_one, add_once, is_terminal, emit_event, emit, state_of, cleared, retire,
}

abbrev pub scheduled_by : Option ℤ → ℤ → Bool
scheduled_by none tick_time = false
scheduled_by (some t) tick_time = leb_ℤ t tick_time

module _ {T : Type 0} where
  -- cancel, at a given time
  unfoldable pub cancel : String → ℤ → Exec (Engine T) (Unit {0})
  unfolding state_of emit_event
  cancel id timestamp = do
    s ← state_of id
    λ e.
        if is_terminal s.status
        then (ok tt, e)
        else (do
          λ e. (ok tt, record e { pending_cancellations = add_once e.pending_cancellations id })
          guard (not (is_negative timestamp)) bad_config
          λ e. (ok tt, emit cancellation_requested s timestamp e))
            e

  abbrev discard_pending : String → Engine T → Engine T
  discard_pending id e = record e { pending_cancellations = remove_one e.pending_cancellations id }

  -- One round of the loop of `_apply_cancellations`.
  unfoldable pub cancel_due : ℤ → RequestState T → Exec (Engine T) (Unit {0})
  unfolding retire emit_event discard_pending
  cancel_due tick_time s e =
      if holds e.pending_cancellations (id_of s)
        || scheduled_by s.request.cancellation_time tick_time
      then if is_terminal s.status
        then (ok tt, discard_pending (id_of s) e)
        else (do
          let s' = record (cleared s) { status = cancelled; finish_time = some tick_time }
          retire s s'
          λ e. (ok tt, emit cancelled_event s' tick_time e))
            (discard_pending (id_of s) e)
      else (ok tt, e)

  unfoldable pub cancel_each : ℤ → List String → Exec (Engine T) (Unit {0})
  unfolding state_of cancel_due
  cancel_each tick_time [] = pure tt
  cancel_each tick_time (id ∷ ids) = do
    s ← state_of id
    cancel_due tick_time s
    cancel_each tick_time ids

  unfoldable pub apply_cancellations : ℤ → Exec (Engine T) (Unit {0})
  unfolding cancel_each
  apply_cancellations tick_time e = cancel_each tick_time (keys e.states) e
