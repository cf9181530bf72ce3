-- ===== src/Engine/Controller/Passes.antt =====
-- internal/engine/controller.go: the statuses that a pass writes.
use text.Mathlib.Text.{◌==◌ as str_eq}
use remedik.Base.{
  ◌≡◌, refl, sym, ap, subst, true, false, List, [], ◌∷◌, map, arith, Bool-cases, inl, inr, all,
}
use remedik.Base.Assoc
use remedik.Base.Assoc.{string_eq}
use remedik.Alert.{label}
use remedik.Api.{
  State, is_terminal, running, failed, interrupted, gave_up, StepStatus, Remediation,
  RemediationStatus, label_gave_up, annotation_gave_up_reason, approval,
}
use remedik.Engine.Effects.{Env, writes}
use remedik.Engine.Reconciler.{Reconciler, Echoes}
use remedik.Engine.Controller.Lifecycle.{
  Legal, Follows, Reaches, Legal-Reaches, AttemptsFit, Reaches-AttemptsFit, current, is_open,
  has_ended,
}
use remedik.Engine.Controller.Finish.{ended}
use remedik.Engine.Controller.Finish.Writes.{finish-Legal, paged-Legal}
use remedik.Engine.Controller.Attempt.Decides.{run_attempt-Legal}
use remedik.Engine.Controller.Approvals.{awaits_approval}
use remedik.Engine.Controller.Approvals.Writes.{await_approval-Legal}
use remedik.Engine.Controller.{
  reconcile_record, mark_interrupted, mark_gave_up, stop_step, is_running, interrupted_message,
  gave_up_message, is_running_step,
}

stop_step-has_ended : (steps : List StepStatus) → all has_ended (map stop_step steps) ≡ true
unfolding stop_step is_running_step all
stop_step-has_ended [] = refl
stop_step-has_ended (s ∷ steps) = ground (arith, stop_step-has_ended steps)

is_open_of : (s : State) → is_terminal s ≡ false → is_running s ≡ false → is_open s ≡ true
unfolding is_terminal is_running
is_open_of s t r = ground arith

is_running_iff : (s : State) → is_running s ≡ true → s ≡ running
unfolding is_running
is_running_iff s h = ground arith

approval_of : (rem : Remediation) → awaits_approval rem ≡ true → rem.spec.mode ≡ approval
unfolding awaits_approval
approval_of rem h = ground arith

module _ {W : Type 0} (r : Reconciler W) (s : RemediationStatus) (rem : Remediation)
    (e : Env W) where
  interrupted-Legal :
      Legal rem.spec s (writes e.trace)
      → current s (writes e.trace) ≡ rem.status
      → rem.status.state ≡ running
      → Legal rem.spec s (writes (mark_interrupted r rem e).1.trace)
  unfolding mark_interrupted ended
  interrupted-Legal legal cur st =
      let stopped = record rem {
        status = record rem.status { steps = map stop_step rem.status.steps };
      } in
      finish-Legal r rem.spec s stopped failed interrupted interrupted_message e legal (
        subst
          (λ q.
            Follows rem.spec q
              (ended stopped failed interrupted interrupted_message (e.clock e.readings)).status)
          (sym cur) (refl, (st, stop_step-has_ended rem.status.steps), refl))

  gave_up-Legal :
      Legal rem.spec s (writes e.trace)
      → current s (writes e.trace) ≡ rem.status
      → is_open rem.status.state ≡ true
      → Legal rem.spec s (writes (mark_gave_up r rem e).1.trace)
  unfolding mark_gave_up ended
  gave_up-Legal legal cur op =
      let message = gave_up_message (Assoc.get rem.annotations annotation_gave_up_reason) in
      paged-Legal r rem.spec s rem 0 gave_up message e legal (λ page t.
        subst
          (λ q.
            Follows rem.spec q
              (ended (record rem { status = record rem.status { escalation = page } }) failed
                gave_up message t).status)
          (sym cur) (refl, op, refl))

  -- Each status that a pass writes follows the one that held, whatever was written before.
  pub reconcile_record-Legal :
      Echoes r.client
      → Legal rem.spec s (writes e.trace)
      → current s (writes e.trace) ≡ rem.status
      → Legal rem.spec s (writes (reconcile_record r rem e).1.trace)
  unfolding reconcile_record
  reconcile_record-Legal echo legal cur = elim (Bool-cases (is_terminal rem.status.state)) [
    | inl over ↦ rw (over, reconcile_record) legal
    | inr alive ↦ elim (Bool-cases (is_running rem.status.state)) [
      | inl runs ↦
          rw (alive, runs, reconcile_record)
            (interrupted-Legal legal cur (is_running_iff rem.status.state runs))
      | inr idle ↦
          let op = is_open_of rem.status.state alive idle in
          elim (Bool-cases (str_eq (label rem.labels label_gave_up) "true")) [
            | inl up ↦ rw (alive, idle, up, reconcile_record) (gave_up-Legal legal cur op)
            | inr try ↦ elim (Bool-cases (awaits_approval rem)) [
              | inl ask ↦
                  rw (alive, idle, try, ask, reconcile_record)
                    (await_approval-Legal r s rem e echo (legal, cur, op, approval_of rem ask))
              | inr free ↦
                  rw (alive, idle, try, free, reconcile_record)
                    (run_attempt-Legal r s rem e echo legal cur op)
            ]
          ]
    ]
  ]

-- If an accepted status write answers with the object as written, then all that a pass over a record
-- writes is a legal course: a `Running` write counts one attempt more and comes from an open state;
-- `Succeeded` and `Simulated` come from `Running` after every step of the plan passed, the one outside
-- a dry run and the other in one; a retry comes only while retries are left, and a failure of the
-- plan only when none is left; each other failure comes from the state that its reason names. The
-- status that holds after the pass is reached by such steps, and the attempts that it counts are at
-- most the retries and one, if this was so of the record that was read.
pub pass-Reaches :
    {W : Type 0} (r : Reconciler W) (rem : Remediation) (e : Env W)
    → Echoes r.client
    → writes e.trace ≡ []
    → AttemptsFit rem.spec rem.status
    → let ws = writes (reconcile_record r rem e).1.trace in
      Legal rem.spec rem.status ws
      × Reaches rem.spec rem.status (current rem.status ws)
      × AttemptsFit rem.spec (current rem.status ws)
pass-Reaches r rem e echo new fit =
    let legal =
      reconcile_record-Legal r rem.status rem e echo
        (subst (λ ws. Legal rem.spec rem.status ws) (sym new) tt)
        (ap (λ ws. current rem.status ws) new) in
    let path = Legal-Reaches rem.spec rem.status _ legal in
    (legal, path, Reaches-AttemptsFit rem.spec rem.status _ path fit)
