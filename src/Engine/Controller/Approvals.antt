-- ===== src/Engine/Controller/Approvals.antt =====
-- internal/engine/approval.go: a remediation that waits for a person. The claim of who decided and
-- the note are part of the messages.
pub mod Writes
pub mod Gate
use text.Mathlib.Text.{◌==◌ as str_eq}
use remedik.Base.{
  ℕ, String, Bool, true, false, ◌&&◌, Option, none, some, List, [], ◌∷◌, ◌++◌, Text, str, duration,
  Error, wrapf, Result, ok, err, ℤ, pos, second, minute, le_ℤ, lt_ℤ, before, sub, rounded, ◌+ℤ◌,
  text_eq, if◌then◌else◌,
}
use remedik.Api.{
  State, unset_state, pending, running, succeeded, failed, simulated, awaiting_approval,
  is_terminal, Reason, no_reason, denied, approval_timeout, ExecutionMode, approval, auto, manual,
  unset_mode, Approval, ApprovalDecision, approve, deny, undecided, Remediation,
}
use remedik.Engine.Effects.{Env, M, pure, ◌>>=◌, ◌>>◌, now, log, announced_decision}
use remedik.Engine.Reconciler.{Reconciler, update}
use remedik.Engine.Escalation.{escalate}
use remedik.Engine.Sweeper.{wrap}
use remedik.Engine.Controller.Finish.{Verdict, done, requeue, finish}
use remedik.Engine.Controller.Attempt.{run_attempt}

abbrev pub approval_poll_floor : ℤ
approval_poll_floor = pos minute

claimed_by : Approval → String
claimed_by a = if str_eq a.by "" then "somebody who did not say who" else a.by

denied_message : Approval → Text
unfolding claimed_by
denied_message a =
    if str_eq a.note ""
    then str "denied by " ∷ str (claimed_by a) ∷ []
    else str "denied by " ∷ str (claimed_by a) ∷ str ": " ∷ str a.note ∷ []

is_approval : ExecutionMode → Bool
is_approval approval = true
is_approval _ = false

unfoldable pub awaits_approval : Remediation → Bool
unfolding is_approval
awaits_approval rem =
    if is_approval rem.spec.mode
    then (if is_terminal rem.status.state then false else true)
    else false

is_awaiting : State → Bool
is_awaiting awaiting_approval = true
is_awaiting _ = false

waiting_message : ℤ → Text
waiting_message left =
    str "waiting for approval; " ∷ duration (rounded left) ∷ str " left before this escalates" ∷ []

marked_awaiting : Remediation → Text → Remediation
marked_awaiting rem message = record rem {
  status = record rem.status { state = awaiting_approval; reason = no_reason; message = message };
}

shorter : ℤ → ℤ → ℤ
shorter a b = if le_ℤ a b then a else b

timeout_message : Text
timeout_message = str "nobody approved or denied this in time, so it was not run" ∷ []

module _ {W : Type 0} where
  -- An event on the record, where a recorder is configured.
  record_approval : Reconciler W → Remediation → Bool → M W (Unit {0})
  unfolding log
  record_approval r rem approved =
      if r.has_events then log (announced_decision rem.name approved) else pure tt

  after_waiting : Result Remediation → M W (Option Error)
  after_waiting (err e) = pure (some (wrapf (str "record awaiting approval" ∷ []) e))
  after_waiting (ok rem) = pure none

  write_awaiting : Reconciler W → Remediation → Text → M W (Option Error)
  unfolding after_waiting marked_awaiting
  write_awaiting r rem message = do
    written ← update r (marked_awaiting rem message)
    after_waiting written

  -- Nothing is written where the record says the same already.
  mark_awaiting : Reconciler W → Remediation → ℤ → M W (Option Error)
  unfolding write_awaiting waiting_message is_awaiting
  mark_awaiting r rem left =
      if is_awaiting rem.status.state && text_eq rem.status.message (waiting_message left)
      then pure none
      else write_awaiting r rem (waiting_message left)

  time_out : Reconciler W → Remediation → M W Verdict
  unfolding timeout_message
  time_out r rem = do
    page ← escalate r rem 0 approval_timeout timeout_message
    ended ←
        finish r (record rem { status = record rem.status { escalation = page } }) failed
          approval_timeout timeout_message
    pure (done ended)

  wait_on : ℤ → Option Error → M W Verdict
  unfolding shorter
  wait_on left (some e) = pure (done (some e))
  wait_on left none = pure (requeue (shorter (wrap (left +ℤ pos second)) approval_poll_floor))

  hold : Reconciler W → Remediation → ℤ → M W Verdict
  unfolding mark_awaiting wait_on
  hold r rem left = do failure ← mark_awaiting r rem left; wait_on left failure

  -- Nobody has decided: wait for the deadline, and without one do not wait at all.
  undecided_until : Reconciler W → Remediation → Option ℤ → M W Verdict
  unfolding time_out hold now
  undecided_until r rem none = time_out r rem
  undecided_until r rem (some deadline) = do
    t ← now
    if before t deadline then hold r rem (sub deadline t) else time_out r rem

  approved_by : Reconciler W → Remediation → M W Verdict
  unfolding record_approval
  approved_by r rem = do record_approval r rem true; run_attempt r rem

  denied_by : Reconciler W → Remediation → Approval → M W Verdict
  unfolding record_approval denied_message
  denied_by r rem decision = do
    record_approval r rem false
    ended ← finish r rem failed denied (denied_message decision)
    pure (done ended)

  decide : Reconciler W → Remediation → Approval → ApprovalDecision → M W Verdict
  unfolding approved_by denied_by undecided_until
  decide r rem decision approve = approved_by r rem
  decide r rem decision deny = denied_by r rem decision
  decide r rem decision undecided = undecided_until r rem rem.spec.approval_deadline

  decided : Reconciler W → Remediation → Option Approval → M W Verdict
  unfolding decide undecided_until
  decided r rem none = undecided_until r rem rem.spec.approval_deadline
  decided r rem (some decision) = decide r rem decision decision.decision

  unfoldable pub await_approval : Reconciler W → Remediation → M W Verdict
  unfolding decided
  await_approval r rem = decided r rem rem.spec.approval
