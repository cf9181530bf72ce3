-- ===== src/Engine/Controller/Approvals/Gate.antt =====
-- internal/engine/approval.go: what runs before a person approves.
use remedik.Base.{
  ◌≡◌, ◌∙◌, ap, Bool, true, false, not, ◌&&◌, Option, none, some, arith, ℤ, sub, before, keep, ◌⊎◌,
  inl, inr, Bool-cases, Text, refl,
}
use remedik.Api.{
  failed, denied, approval_timeout, Remediation, Approval, ApprovalDecision, approve, deny,
  undecided, approval, is_terminal, Reason,
}
use remedik.Engine.Effects.{Env, works, now, log, call}
use remedik.Engine.Escalation.Writes.{escalate-planless, without_plan}
use remedik.Engine.Escalation.{escalate}
use remedik.Engine.Reconciler.{Reconciler, update}
use remedik.Engine.Controller.Finish.Writes.{finish-works}
use remedik.Engine.Controller.Approvals.{
  awaits_approval, is_approval, await_approval, decided, decide, denied_by, undecided_until, hold,
  wait_on, time_out, mark_awaiting, write_awaiting, after_waiting, record_approval, denied_message,
  timeout_message,
}

abbrev pub is_approved : Option Approval → Bool
is_approved none = false
is_approved (some d) = elim d.decision [ approve ↦ true | _ ↦ false ]

-- Nobody has decided.
abbrev pub is_undecided : Option Approval → Bool
is_undecided none = true
is_undecided (some d) = elim d.decision [ undecided ↦ true | _ ↦ false ]

-- There is no deadline, or the next reading of the clock is not before it.
unfoldable pub is_past : {W : Type 0} → Option ℤ → Env W → Bool
is_past none e = true
is_past (some deadline) e = not (before (e.clock e.readings) deadline)

abbrev pub is_overdue : {W : Type 0} → Remediation → Env W → Bool
is_overdue rem e = is_undecided rem.spec.approval && is_past rem.spec.approval_deadline e

-- From `e` to `out` the steps that ran, with what was told of them, are those of an escalation for the
-- reason, as it runs over the record without its plan, from the trace and the cluster of `e`.
abbrev pub Pages : {W : Type 0} → Reconciler W → Remediation → Reason → Env W → Env W → Type 0
Pages {W} r rem why e out =
    (message : Text) × (start : Env W) × (start.trace ≡ e.trace)
    × (start.world ≡ e.world)
    × (keep works out.trace
        ≡ keep works (escalate r (without_plan rem) 0 why message start).1.trace)

-- No step ran, or the time is over and the escalation ran.
abbrev pub Waits : {W : Type 0} → Reconciler W → Remediation → Bool → Env W → Env W → Type 0
Waits r rem over e out =
    (keep works out.trace ≡ keep works e.trace)
    ⊎ ((over ≡ true) × Pages r rem approval_timeout e out)

module _ {W : Type 0} (r : Reconciler W) (rem : Remediation) where
  hold-works : (left : ℤ) (e : Env W) → keep works (hold r rem left e).1.trace ≡ keep works e.trace
  unfolding hold wait_on mark_awaiting write_awaiting after_waiting update log call keep
  hold-works left e = ground arith

  time_out-works :
      (e e' : Env W)
      → e.trace ≡ e'.trace
      → e.world ≡ e'.world
      → Pages r rem approval_timeout e' (time_out r rem e).1
  unfolding time_out
  time_out-works e e' t w = (
    timeout_message,
    e,
    t,
    w,
    finish-works r _ failed approval_timeout timeout_message _
        ∙ ap (λ q. keep works q.1.trace)
            (escalate-planless r rem 0 approval_timeout timeout_message e),
  )

  undecided_until-works :
      (deadline : Option ℤ) (e : Env W)
      → Waits r rem (is_past deadline e) e (undecided_until r rem deadline e).1
  unfolding undecided_until now is_past
  undecided_until-works none e = inr (refl, time_out-works e e refl refl)
  undecided_until-works (some deadline) e =
      let later = (now e).1 in
      elim (Bool-cases (before (e.clock e.readings) deadline)) [
        | inl early ↦ rw (early) (inl (hold-works (sub deadline (e.clock e.readings)) later))
        | inr late ↦ rw (late) (inr (refl, time_out-works later e refl refl))
      ]

  denied_by-works :
      (d : Approval) (e : Env W) → keep works (denied_by r rem d e).1.trace ≡ keep works e.trace
  unfolding denied_by record_approval log keep
  denied_by-works d e =
      ground (
        arith,
        finish-works r rem failed denied (denied_message d) (record_approval r rem false e).1,
      )

  decided-works :
      (o : Option Approval) (e : Env W)
      → is_approved o ≡ false
      → Waits r rem (is_undecided o && is_past rem.spec.approval_deadline e) e (decided r rem o e).1
  unfolding decided
  decided-works none e fresh = undecided_until-works rem.spec.approval_deadline e
  decided-works (some d) e fresh = verdict d.decision fresh
    where
      verdict :
          (v : ApprovalDecision)
          → elim v [ approve ↦ true | _ ↦ false ] ≡ false
          → Waits r rem
              (elim v [ undecided ↦ true | _ ↦ false ] && is_past rem.spec.approval_deadline e)
              e
              (decide r rem d v e).1
      verdict approve fresh = absurd (cc fresh)
      verdict deny fresh = inl (denied_by-works d e)
      verdict undecided fresh = undecided_until-works rem.spec.approval_deadline e

  pub await_approval-works :
      (e : Env W)
      → is_approved rem.spec.approval ≡ false
      → Waits r rem (is_overdue rem e) e (await_approval r rem e).1
  unfolding await_approval
  await_approval-works e fresh = decided-works rem.spec.approval e fresh

pub awaits_of :
    (rem : Remediation)
    → rem.spec.mode ≡ approval
    → is_terminal rem.status.state ≡ false
    → awaits_approval rem ≡ true
unfolding awaits_approval is_approval
awaits_of rem mode alive = rw (mode, alive) refl
