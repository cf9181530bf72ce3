-- ===== src/Engine/Controller.antt =====
-- internal/engine/controller.go: one pass of the reconciler over one record.
pub mod Lifecycle
pub mod Prune
pub mod Finish
pub mod Attempt
pub mod Approvals
pub mod Passes
pub mod Gate
use text.Mathlib.Text.{◌==◌ as str_eq}
use remedik.Base.{
  ℕ, String, Bool, true, false, Option, none, some, List, [], ◌∷◌, Text, str, Error, ErrorKind,
  not_found, unknown_action, other_error, Result, ok, err, if◌then◌else◌, map, words,
}
use remedik.Base.Assoc
use remedik.Base.Assoc.{string_eq}
use remedik.Alert.{label}
use remedik.Api.{
  State, is_terminal, unset_state, pending, running, succeeded, failed, simulated,
  awaiting_approval, Reason, interrupted, gave_up, StepStatus, StepPhase, step_running,
  step_succeeded, step_failure, step_skipped, step_simulated, Remediation, RemediationStatus,
  label_gave_up, annotation_gave_up_reason,
}
use remedik.Engine.Effects.{Env, M, pure, ◌>>=◌, ◌>>◌, call}
use remedik.Engine.Reconciler.{Reconciler}
use remedik.Engine.Escalation.{escalate}
use Finish.{Verdict, done, finish}
use Attempt.{run_attempt}
use Approvals.{await_approval, awaits_approval}

is_running_step : StepPhase → Bool
is_running_step step_running = true
is_running_step _ = false

-- A step that was left running did not end.
unfoldable pub stop_step : StepStatus → StepStatus
unfolding is_running_step
stop_step s =
    if is_running_step s.phase
    then record s {
      phase = step_failure;
      message = str "the operator restarted while this step was running" ∷ [];
    }
    else s

is_running : State → Bool
is_running running = true
is_running _ = false

interrupted_message : Text
interrupted_message = str "the operator restarted while this remediation was running" ∷ []

default_gave_up_message : Text
default_gave_up_message = str "repeated remediation has not resolved this; it needs a person" ∷ []

-- The reason that the sink left, or a sentence that stands for none.
gave_up_message : Option Text → Text
unfolding default_gave_up_message
gave_up_message none = default_gave_up_message
gave_up_message (some []) = default_gave_up_message
gave_up_message (some (p ∷ ps)) = p ∷ ps

ignore_not_found : Error → Option Error
ignore_not_found e = elim e.kind [ not_found ↦ none | _ ↦ some e ]

module _ {W : Type 0} where
  mark_interrupted : Reconciler W → Remediation → M W Verdict
  unfolding interrupted_message
  mark_interrupted r rem = do
    ended ←
        finish r
          (record rem { status = record rem.status { steps = map stop_step rem.status.steps } })
          failed interrupted interrupted_message
    pure (done ended)

  mark_gave_up : Reconciler W → Remediation → M W Verdict
  unfolding gave_up_message
  mark_gave_up r rem = do
    let message = gave_up_message (Assoc.get rem.annotations annotation_gave_up_reason)
    page ← escalate r rem 0 gave_up message
    ended ←
        finish r (record rem { status = record rem.status { escalation = page } }) failed gave_up
          message
    pure (done ended)

  -- The switch over the record that was read.
  unfoldable pub reconcile_record : Reconciler W → Remediation → M W Verdict
  unfolding mark_interrupted mark_gave_up is_running
  reconcile_record r rem =
      if is_terminal rem.status.state
      then pure (done none)
      else if is_running rem.status.state
      then mark_interrupted r rem
      else if str_eq (label rem.labels label_gave_up) "true"
      then mark_gave_up r rem
      else if awaits_approval rem
      then await_approval r rem
      else run_attempt r rem

  reconcile_read : Reconciler W → Result Remediation → M W Verdict
  unfolding ignore_not_found
  reconcile_read r (err e) = pure (done (ignore_not_found e))
  reconcile_read r (ok rem) = reconcile_record r rem

  pub reconcile : Reconciler W → String → M W Verdict
  unfolding call reconcile_read
  reconcile r name = do read ← call (r.client.get name); reconcile_read r read
