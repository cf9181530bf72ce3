-- ===== src/Engine/Controller/Gate.antt =====
-- internal/engine/controller.go and internal/engine/approval.go: a pass over a record that asks for
-- approval.
use text.Mathlib.Text.{◌==◌ as str_eq}
use remedik.Base.{◌≡◌, refl, sym, subst, ap, ◌∙◌, ◌⊎◌, inl, inr, true, false, Bool-cases, keep}
use remedik.Base.Assoc
use remedik.Base.Assoc.{string_eq}
use remedik.Alert.{label}
use remedik.Api.{
  is_terminal, failed, interrupted, gave_up, approval_timeout, approval, Remediation, label_gave_up,
  annotation_gave_up_reason,
}
use remedik.Engine.Effects.{Env, works}
use remedik.Engine.Reconciler.{Reconciler}
use remedik.Engine.Escalation.Writes.{escalate-planless}
use remedik.Engine.Controller.Finish.Writes.{finish-works}
use remedik.Engine.Controller.Approvals.{await_approval, awaits_approval}
use remedik.Engine.Controller.Approvals.Gate.{
  is_approved, is_overdue, Pages, Waits, awaits_of, await_approval-works,
}
use remedik.Engine.Controller.{
  reconcile_record, mark_interrupted, mark_gave_up, is_running, interrupted_message,
  gave_up_message,
}

-- No step ran, or remedik gave up and the escalation ran, or the time is over and it ran.
abbrev pub Gated : {W : Type 0} → Reconciler W → Remediation → Env W → Env W → Type 0
Gated r rem e out =
    (keep works out.trace ≡ keep works e.trace)
    ⊎ (((str_eq (label rem.labels label_gave_up) "true" ≡ true) × Pages r rem gave_up e out)
        ⊎ ((is_overdue rem e ≡ true) × Pages r rem approval_timeout e out))

module _ {W : Type 0} (r : Reconciler W) (rem : Remediation) (e : Env W) where
  interrupted-works : keep works (mark_interrupted r rem e).1.trace ≡ keep works e.trace
  unfolding mark_interrupted
  interrupted-works = finish-works r _ failed interrupted interrupted_message e

  gave_up-works : Pages r rem gave_up e (mark_gave_up r rem e).1
  unfolding mark_gave_up
  gave_up-works =
      let message = gave_up_message (Assoc.get rem.annotations annotation_gave_up_reason) in
      (
        message,
        e,
        refl,
        refl,
        finish-works r _ failed gave_up message _
            ∙ ap (λ q. keep works q.1.trace) (escalate-planless r rem 0 gave_up message e),
      )

  routed :
      is_terminal rem.status.state ≡ false
      → is_running rem.status.state ≡ false
      → str_eq (label rem.labels label_gave_up) "true" ≡ false
      → awaits_approval rem ≡ true
      → reconcile_record r rem e ≡ await_approval r rem e
  unfolding reconcile_record
  routed alive idle try ask = rw (alive, idle, try, ask, reconcile_record) refl

  of_Waits : (out : Env W) → Waits r rem (is_overdue rem e) e out → Gated r rem e out
  of_Waits out (inl quiet) = inl quiet
  of_Waits out (inr paged) = inr (inr paged)

-- A whole pass over a record in approval mode that nobody approved (nobody decided yet, or somebody
-- denied it), whatever its state: it plans, executes, verifies and announces no step at all; or the
-- record is one that remedik gave up on; or nobody has decided, and there is no deadline or the clock
-- is past it. In these two cases the steps that are planned, executed, verified and announced, in their
-- order, are those of an escalation, from the same trace and cluster, over the record without the steps
-- of its plan.
pub pass-Gated :
    {W : Type 0} (r : Reconciler W) (rem : Remediation) (e : Env W)
    → rem.spec.mode ≡ approval
    → is_approved rem.spec.approval ≡ false
    → Gated r rem e (reconcile_record r rem e).1
unfolding reconcile_record
pass-Gated r rem e mode fresh = elim (Bool-cases (is_terminal rem.status.state)) [
  | inl over ↦ rw (over, reconcile_record) (inl refl)
  | inr alive ↦ elim (Bool-cases (is_running rem.status.state)) [
    | inl runs ↦ rw (alive, runs, reconcile_record) (inl (interrupted-works r rem e))
    | inr idle ↦ elim (Bool-cases (str_eq (label rem.labels label_gave_up) "true")) [
      | inl up ↦ rw (alive, idle, up, reconcile_record) (inr (inl (refl, gave_up-works r rem e)))
      | inr try ↦
          subst (λ q. Gated r rem e q.1)
            (sym (routed r rem e alive idle try (awaits_of rem mode alive)))
            (of_Waits r rem e (await_approval r rem e).1 (await_approval-works r rem e fresh))
    ]
  ]
]
