-- ===== src/Engine/Controller/Finish/Writes.antt =====
-- internal/engine/controller.go: what `finish` writes.
use remedik.Base.{ℕ, keep, ◌≡◌, refl, ◌∙◌, sym, subst, Option, ◌∷◌, Result, ok, err, ℤ, Text}
use remedik.Engine.Escalation.{escalate}
use remedik.Engine.Escalation.Writes.{escalate-writes}
use remedik.Engine.Controller.Lifecycle.{Legal, Follows, current}
use remedik.Api.{
  failed, EscalationStatus, RemediationSpec, Remediation, RemediationStatus, State, Reason,
}
use remedik.Engine.Effects.{Env, writes, works, now, log, call, remember}
use remedik.Engine.Reconciler.{Reconciler, update, accepted}
use remedik.Engine.Controller.Prune.Writes.{prune-writes, prune-works}
use remedik.Engine.Controller.Finish.{finish, after_write, ended}

module _ {W : Type 0} (r : Reconciler W) where
  pub update-writes :
      (rem : Remediation) (e : Env W)
      → writes (update r rem e).1.trace ≡ (rem.status, accepted (update r rem e).0) ∷ writes e.trace
  unfolding update log call writes
  update-writes rem e = refl

  after_write-writes :
      (state : State) (why : Reason) (completed : ℤ) (written : Result Remediation) (e : Env W)
      → writes (after_write r state why completed written e).1.trace ≡ writes e.trace
  unfolding after_write remember log writes
  after_write-writes state why completed (err x) e = refl
  after_write-writes state why completed (ok rem) e =
      prune-writes r rem.namespace rem.spec.strategy_name rem.name _

  pub finish-writes :
      (rem : Remediation) (state : State) (why : Reason) (message : Text) (e : Env W)
      → let (completed, e') = now e in
        let last = ended rem state why message completed in
        writes (finish r rem state why message e).1.trace
        ≡ (last.status, accepted (update r last e').0) ∷ writes e.trace
  unfolding finish now
  finish-writes rem state why message e = after_write-writes state why _ _ _ ∙ update-writes _ _

  pub finish-Legal :
      (spec : RemediationSpec) (s : RemediationStatus) (rem : Remediation) (state : State)
      (why : Reason) (message : Text) (e : Env W)
      → Legal spec s (writes e.trace)
      → Follows spec (current s (writes e.trace)) (ended rem state why message (now e).0).status
      → Legal spec s (writes (finish r rem state why message e).1.trace)
  finish-Legal spec s rem state why message e legal follows =
      subst (λ ws. Legal spec s ws) (sym (finish-writes rem state why message e)) (follows, legal)

  -- An escalation before the end changes nothing.
  pub paged-Legal :
      (spec : RemediationSpec) (s : RemediationStatus) (rem : Remediation) (attempts : ℕ)
      (why : Reason) (message : Text) (e : Env W)
      → Legal spec s (writes e.trace)
      → ((page : Option EscalationStatus) (t : ℤ)
          → Follows spec
              (current s (writes e.trace))
              (ended
                (record rem { status = record rem.status { escalation = page } })
                failed
                why
                message
                t).status)
      → let paged = escalate r rem attempts why message e in
        Legal spec s (
          writes
            (finish r
              (record rem { status = record rem.status { escalation = paged.0 } })
              failed
              why
              message
              paged.1).1.trace)
  paged-Legal spec s rem attempts why message e legal follows =
      let paged = escalate r rem attempts why message e in
      let same = sym (escalate-writes r rem attempts why message e) in
      finish-Legal spec s _ failed why message paged.1 (subst (λ ws. Legal spec s ws) same legal) (
        subst
          (λ ws.
            Follows spec (current s ws)
              (ended (record rem { status = record rem.status { escalation = paged.0 } }) failed why
                message (now paged.1).0).status)
          same (follows paged.0 (now paged.1).0))

  after_write-works :
      (state : State) (why : Reason) (completed : ℤ) (written : Result Remediation) (e : Env W)
      → keep works (after_write r state why completed written e).1.trace ≡ keep works e.trace
  unfolding after_write remember log keep
  after_write-works state why completed (err x) e = refl
  after_write-works state why completed (ok rem) e =
      prune-works r rem.namespace rem.spec.strategy_name rem.name _

  pub finish-works :
      (rem : Remediation) (state : State) (why : Reason) (message : Text) (e : Env W)
      → keep works (finish r rem state why message e).1.trace ≡ keep works e.trace
  unfolding finish now update log call keep
  finish-works rem state why message e =
      let (completed, e') = now e in
      let written = update r (ended rem state why message completed) e' in
      after_write-works state why completed written.0 written.1
