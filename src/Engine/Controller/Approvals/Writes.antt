-- ===== src/Engine/Controller/Approvals/Writes.antt =====
-- internal/engine/approval.go: the statuses that a pass writes while a person decides.
use remedik.Base.{
  ◌≡◌, refl, sym, subst, Bool, true, false, ◌&&◌, Option, none, some, List, arith, Error, Result,
  ok, err, ℤ, Bool-cases, inl, inr, before, sub, text_eq,
}
use remedik.Api.{
  failed, denied, approval_timeout, Remediation, RemediationStatus, approval, Approval,
  ApprovalDecision, approve, deny, undecided,
}
use remedik.Engine.Effects.{Env, writes, now, log}
use remedik.Engine.Reconciler.{Reconciler, Echoes, update}
use remedik.Engine.Controller.Lifecycle.{Legal, Follows, current, is_open}
use remedik.Engine.Controller.Finish.{ended}
use remedik.Engine.Controller.Finish.Writes.{update-writes, finish-Legal, paged-Legal}
use remedik.Engine.Controller.Attempt.Decides.{run_attempt-Legal}
use remedik.Engine.Controller.Approvals.{
  await_approval, decided, decide, approved_by, denied_by, undecided_until, hold, wait_on, time_out,
  mark_awaiting, write_awaiting, after_waiting, marked_awaiting, waiting_message, is_awaiting,
  record_approval, denied_message, timeout_message,
}

-- The record was read as it stands, waits for a person, and no write so far was out of order.
abbrev pub Waits : RemediationStatus → Remediation → List (RemediationStatus × Bool) → Type 0
Waits s rem ws =
    Legal rem.spec s ws
    × (current s ws ≡ rem.status)
    × (is_open rem.status.state ≡ true)
    × (rem.spec.mode ≡ approval)

module _ {W : Type 0} (r : Reconciler W) (s : RemediationStatus) (rem : Remediation) where
  time_out-Legal :
      (e : Env W)
      → Waits s rem (writes e.trace)
      → Legal rem.spec s (writes (time_out r rem e).1.trace)
  unfolding time_out ended
  time_out-Legal e (legal, cur, op, mode) =
      paged-Legal r rem.spec s rem 0 approval_timeout timeout_message e legal (λ page t.
        subst
          (λ q.
            Follows rem.spec q
              (ended (record rem { status = record rem.status { escalation = page } }) failed
                approval_timeout timeout_message t).status)
          (sym cur) (refl, (op, mode), refl))

  record_approval-writes :
      (approved : Bool) (e : Env W)
      → writes (record_approval r rem approved e).1.trace ≡ writes e.trace
  unfolding record_approval log writes
  record_approval-writes approved e = ground arith

  denied_by-Legal :
      (d : Approval) (e : Env W)
      → Waits s rem (writes e.trace)
      → Legal rem.spec s (writes (denied_by r rem d e).1.trace)
  unfolding denied_by ended
  denied_by-Legal d e (legal, cur, op, mode) =
      let e' = (record_approval r rem false e).1 in
      let same = sym (record_approval-writes false e) in
      finish-Legal r rem.spec s rem failed denied (denied_message d) e'
        (subst (λ ws. Legal rem.spec s ws) same legal)
        (subst
          (λ ws.
            Follows rem.spec (current s ws)
              (ended rem failed denied (denied_message d) (now e').0).status)
          same
          (subst
            (λ q. Follows rem.spec q (ended rem failed denied (denied_message d) (now e').0).status)
            (sym cur) (refl, (op, mode), refl)))

  approved_by-Legal :
      (e : Env W)
      → Echoes r.client
      → Waits s rem (writes e.trace)
      → Legal rem.spec s (writes (approved_by r rem e).1.trace)
  unfolding approved_by
  approved_by-Legal e echo (legal, cur, op, mode) =
      let e' = (record_approval r rem true e).1 in
      let same = sym (record_approval-writes true e) in
      run_attempt-Legal r s rem e' echo (subst (λ ws. Legal rem.spec s ws) same legal)
        (subst (λ ws. current s ws ≡ rem.status) same cur) op

  after_waiting-same : (answer : Result Remediation) (e : Env W) → (after_waiting answer e).1 ≡ e
  unfolding after_waiting
  after_waiting-same (err x) e = refl
  after_waiting-same (ok rem') e = refl

  write_awaiting-Legal :
      (left : ℤ) (e : Env W)
      → Waits s rem (writes e.trace)
      → Legal rem.spec s (writes (write_awaiting r rem (waiting_message left) e).1.trace)
  unfolding write_awaiting marked_awaiting
  write_awaiting-Legal left e (legal, cur, op, mode) =
      let marked = marked_awaiting rem (waiting_message left) in
      let written = update r marked e in
      subst (λ q. Legal rem.spec s (writes q.trace)) (sym (after_waiting-same written.0 written.1))
        (subst (λ ws. Legal rem.spec s ws) (sym (update-writes r marked e))
          (subst (λ q. Follows rem.spec q marked.status) (sym cur) (op, refl, mode), legal))

  mark_awaiting-Legal :
      (left : ℤ) (e : Env W)
      → Waits s rem (writes e.trace)
      → Legal rem.spec s (writes (mark_awaiting r rem left e).1.trace)
  unfolding mark_awaiting
  mark_awaiting-Legal left e waits =
      elim (Bool-cases
        (is_awaiting rem.status.state && text_eq rem.status.message (waiting_message left))) [
          | inl said ↦ rw (said, mark_awaiting) waits.0
          | inr new ↦ rw (new, mark_awaiting) (write_awaiting-Legal left e waits)
        ]

  wait_on-same : (left : ℤ) (o : Option Error) (e : Env W) → (wait_on left o e).1 ≡ e
  unfolding wait_on
  wait_on-same left none e = refl
  wait_on-same left (some x) e = refl

  hold-Legal :
      (left : ℤ) (e : Env W)
      → Waits s rem (writes e.trace)
      → Legal rem.spec s (writes (hold r rem left e).1.trace)
  unfolding hold
  hold-Legal left e waits =
      subst (λ q. Legal rem.spec s (writes q.trace)) (sym (wait_on-same left _ _))
        (mark_awaiting-Legal left e waits)

  undecided_until-Legal :
      (deadline : Option ℤ) (e : Env W)
      → Waits s rem (writes e.trace)
      → Legal rem.spec s (writes (undecided_until r rem deadline e).1.trace)
  unfolding undecided_until now
  undecided_until-Legal none e waits = time_out-Legal e waits
  undecided_until-Legal (some deadline) e waits =
      let (t, e') = now e in
      elim (Bool-cases (before t deadline)) [
        | inl early ↦ rw (early, undecided_until) (hold-Legal (sub deadline t) e' waits)
        | inr late ↦ rw (late, undecided_until) (time_out-Legal e' waits)
      ]

  decide-Legal :
      (d : Approval) (verdict : ApprovalDecision) (e : Env W)
      → Echoes r.client
      → Waits s rem (writes e.trace)
      → Legal rem.spec s (writes (decide r rem d verdict e).1.trace)
  unfolding decide
  decide-Legal d approve e echo waits = approved_by-Legal e echo waits
  decide-Legal d deny e echo waits = denied_by-Legal d e waits
  decide-Legal d undecided e echo waits = undecided_until-Legal rem.spec.approval_deadline e waits

  decided-Legal :
      (o : Option Approval) (e : Env W)
      → Echoes r.client
      → Waits s rem (writes e.trace)
      → Legal rem.spec s (writes (decided r rem o e).1.trace)
  unfolding decided
  decided-Legal none e echo waits = undecided_until-Legal rem.spec.approval_deadline e waits
  decided-Legal (some d) e echo waits = decide-Legal d d.decision e echo waits

  pub await_approval-Legal :
      (e : Env W)
      → Echoes r.client
      → Waits s rem (writes e.trace)
      → Legal rem.spec s (writes (await_approval r rem e).1.trace)
  unfolding await_approval
  await_approval-Legal e echo waits = decided-Legal rem.spec.approval e echo waits
