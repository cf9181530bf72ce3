-- ===== src/Engine/Escalation/Writes.antt =====
-- internal/engine/escalation.go: what an escalation writes.
use remedik.Base.{
  ℕ, suc, ◌≡◌, refl, ◌∙◌, Bool, false, ◌&&◌, Option, none, List, [], ◌∷◌, Error, Text, Bool-cases,
  inl, inr,
}
use remedik.Alert.{Labels}
use remedik.Api.{Step, Reason, EscalationMode, Remediation}
use remedik.Engine.Effects.{Env, writes, now, log}
use remedik.Engine.Reconciler.{Reconciler}
use remedik.Engine.Steps.{StepRunner, run_step}
use remedik.Engine.Steps.Writes.{run_step-writes}
use remedik.Engine.Escalation.{
  channels_from, run_channels, is_first_success, delivered_by, last_error_of, escalate_with,
  escalate, escalation_runner, escalation_labels,
}

-- The record without the steps of its plan.
unfoldable pub without_plan : Remediation → Remediation
without_plan rem = record rem { spec = record rem.spec { steps = [] } }

module _ {W : Type 0} where
  channels_from-writes :
      (r : StepRunner W) (labels : Labels) (mode : EscalationMode) (plan : List Step) (i : ℕ)
      (told : Bool) (last : Option Error) (e : Env W)
      → writes (channels_from r labels mode i told last plan e).1.trace ≡ writes e.trace
  unfolding channels_from
  channels_from-writes r labels mode [] i told last e = refl
  channels_from-writes r labels mode (step ∷ plan) i told last e =
      elim (Bool-cases (told && is_first_success mode)) [
        | inl stop ↦
            rw (stop, channels_from) (channels_from-writes r labels mode plan (suc i) told last e)
        | inr go ↦
            let done = run_step r i labels step e in
            rw (go, channels_from)
              (channels_from-writes r labels mode plan (suc i) (delivered_by told done.0.1)
                  (last_error_of last done.0.1) done.1
                ∙ run_step-writes r i labels step e)
      ]

  escalate_with-writes :
      (r : Reconciler W) (rem : Remediation) (attempts : ℕ) (why : Reason) (message : Text)
      (plan : List Step) (e : Env W)
      → writes (escalate_with r rem attempts why message plan e).1.trace ≡ writes e.trace
  unfolding escalate_with run_channels now log writes
  escalate_with-writes r rem attempts why message [] e = refl
  escalate_with-writes r rem attempts why message (step ∷ plan) e =
      channels_from-writes (escalation_runner r rem)
        (escalation_labels r.render rem attempts why message) rem.spec.escalation_mode (step ∷ plan)
        0 false none e

  pub escalate-writes :
      (r : Reconciler W) (rem : Remediation) (attempts : ℕ) (why : Reason) (message : Text)
      (e : Env W)
      → writes (escalate r rem attempts why message e).1.trace ≡ writes e.trace
  unfolding escalate
  escalate-writes r rem attempts why message e =
      escalate_with-writes r rem attempts why message rem.spec.escalation_steps e

  escalate_with-planless :
      (r : Reconciler W) (rem : Remediation) (attempts : ℕ) (why : Reason) (message : Text)
      (plan : List Step) (e : Env W)
      → escalate_with r rem attempts why message plan e
        ≡ escalate_with r (without_plan rem) attempts why message plan e
  unfolding escalate_with escalation_runner escalation_labels without_plan
  escalate_with-planless r rem attempts why message [] e = refl
  escalate_with-planless r rem attempts why message (step ∷ plan) e = refl

  pub escalate-planless :
      (r : Reconciler W) (rem : Remediation) (attempts : ℕ) (why : Reason) (message : Text)
      (e : Env W)
      → escalate r rem attempts why message e ≡ escalate r (without_plan rem) attempts why message e
  unfolding escalate without_plan
  escalate-planless r rem attempts why message e =
      escalate_with-planless r rem attempts why message rem.spec.escalation_steps e
