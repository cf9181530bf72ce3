-- ===== src/Engine/Steps/Writes.antt =====
-- internal/engine/steps.go: what a run writes.
use remedik.Base.{ℕ, suc, ◌≡◌, refl, ◌∙◌, Option, none, some, List, [], ◌∷◌, arith, Error}
use remedik.Alert.{Labels}
use remedik.Api.{Step, Reason, no_reason}
use remedik.Engine.Effects.{Env, writes}
use remedik.Engine.Steps.{StepRunner, run_step, run_from, run, reason_of}

module _ {W : Type 0} where
  pub run_step-writes :
      (r : StepRunner W) (i : ℕ) (labels : Labels) (step : Step) (e : Env W)
      → writes (run_step r i labels step e).1.trace ≡ writes e.trace
  unfolding run_step writes
  run_step-writes r i labels step e = ground arith

  run_from-writes :
      (r : StepRunner W) (labels : Labels) (plan : List Step) (i : ℕ) (o : Option Error)
      (why : Reason) (e : Env W)
      → writes (run_from r labels i o why plan e).1.trace ≡ writes e.trace
  unfolding run_from
  run_from-writes r labels [] i o why e = refl
  run_from-writes r labels (step ∷ plan) i (some x) why e =
      run_from-writes r labels plan (suc i) (some x) why e
  run_from-writes r labels (step ∷ plan) i none why e =
      let done = run_step r i labels step e in
      run_from-writes r labels plan (suc i) done.0.1
        (elim done.0.1 [ none ↦ why | some x ↦ reason_of x.kind ]) done.1
      ∙ run_step-writes r i labels step e

  pub run-writes :
      (r : StepRunner W) (labels : Labels) (plan : List Step) (e : Env W)
      → writes (run r labels plan e).1.trace ≡ writes e.trace
  unfolding run
  run-writes r labels plan e = run_from-writes r labels plan 0 none no_reason e
