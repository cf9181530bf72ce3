-- ===== src/Engine/Steps/Outcome.antt =====
-- internal/engine/steps.go: what a run records.
use remedik.Base.{
  ℕ, suc, ◌≡◌, refl, Bool, true, false, Option, none, some, List, [], ◌∷◌, arith, Error, is_some,
  ◌⊎◌, inl, inr,
}
use remedik.Alert.{Labels}
use remedik.Api.{
  Step, StepStatus, StepPhase, step_succeeded, step_simulated, step_failure, step_skipped, Reason,
  no_reason,
}
use remedik.Engine.Effects.{Env}
use remedik.Engine.Steps.{StepRunner, RunResult, run_step, run_from, run, skipped, reason_of}

-- How a step that passes ends.
abbrev pub passing : Bool → StepPhase
passing true = step_simulated
passing false = step_succeeded

-- The status stands for the i-th step of the plan.
abbrev pub Reports : ℕ → Step → StepStatus → Type 0
Reports i step s = (s.index ≡ i) × (s.action ≡ step.action)

abbrev pub AllSkipped : ℕ → List Step → List StepStatus → Type 0
AllSkipped i [] [] = Unit {0}
AllSkipped i (step ∷ plan) (s ∷ ss) =
    Reports i step s × (s.phase ≡ step_skipped) × AllSkipped (suc i) plan ss
AllSkipped i _ _ = ⊥

-- One status to each step, in order: all passed; or some passed, one failed and the rest were
-- skipped.
abbrev pub StopsAtFailure : Bool → ℕ → List Step → List StepStatus → Bool → Type 0
StopsAtFailure dry i [] [] has_failed = has_failed ≡ false
StopsAtFailure dry i (step ∷ plan) (s ∷ ss) has_failed =
    Reports i step s
    × (((s.phase ≡ passing dry) × StopsAtFailure dry (suc i) plan ss has_failed)
        ⊎ ((s.phase ≡ step_failure) × (has_failed ≡ true) × AllSkipped (suc i) plan ss))
StopsAtFailure dry i _ _ has_failed = ⊥

-- The reason of an attempt is read off its error.
abbrev pub Explains : Option Error → Reason → Type 0
Explains none why = why ≡ no_reason
Explains (some x) why = why ≡ reason_of x.kind

module _ {W : Type 0} where
  abbrev pub Ended : StepRunner W → StepStatus → Option Error → Type 0
  Ended r s none = s.phase ≡ passing r.dry_run
  Ended r s (some e) = s.phase ≡ step_failure

  pub run_step-Reports :
      (r : StepRunner W) (i : ℕ) (labels : Labels) (step : Step) (e : Env W)
      → Reports i step (run_step r i labels step e).0.0
  unfolding run_step
  run_step-Reports r i labels step e = (ground arith, ground arith)

  pub run_step-Ended :
      (r : StepRunner W) (i : ℕ) (labels : Labels) (step : Step) (e : Env W)
      → Ended r (run_step r i labels step e).0.0 (run_step r i labels step e).0.1
  unfolding run_step
  run_step-Ended r i labels step e = ground arith

  run_from-skips :
      (r : StepRunner W) (labels : Labels) (plan : List Step) (i : ℕ) (x : Error) (why : Reason)
      (e : Env W)
      → AllSkipped i plan (run_from r labels i (some x) why plan e).0.steps
        × ((run_from r labels i (some x) why plan e).0.error ≡ some x)
        × ((run_from r labels i (some x) why plan e).0.reason ≡ why)
        × ((run_from r labels i (some x) why plan e).1 ≡ e)
  unfolding run_from skipped
  run_from-skips r labels [] i x why e = (tt, refl, refl, refl)
  run_from-skips r labels (step ∷ plan) i x why e =
      let rest = run_from-skips r labels plan (suc i) x why e in
      (((refl, refl), refl, rest.0), rest.1, rest.2, rest.3)

  abbrev Outcome : StepRunner W → ℕ → List Step → RunResult → Type 0
  Outcome r i plan res =
      StopsAtFailure r.dry_run i plan res.steps (is_some res.error) × Explains res.error res.reason

  step_then :
      (r : StepRunner W) (labels : Labels) (i : ℕ) (step : Step) (plan : List Step) (s : StepStatus)
      (o : Option Error) (e : Env W)
      → Reports i step s
      → Ended r s o
      → ((e' : Env W) → Outcome r (suc i) plan (run_from r labels (suc i) none no_reason plan e').0)
      → let rest =
          (run_from r labels
            (suc i)
            o
            (elim o [ none ↦ no_reason | some x ↦ reason_of x.kind ])
            plan
            e).0 in
        Outcome r i (step ∷ plan) (record rest { steps = s ∷ rest.steps })
  step_then r labels i step plan s none e reports ended ih =
      let rest = ih e in ((reports, inl (ended, rest.0)), rest.1)
  step_then r labels i step plan s (some x) e reports ended ih =
      let (skip, same, why, _) = run_from-skips r labels plan (suc i) x (reason_of x.kind) e in
      rw (same, why) ((reports, inr (ended, refl, skip)), refl)

  run_from-Outcome :
      (r : StepRunner W) (labels : Labels) (plan : List Step) (i : ℕ) (e : Env W)
      → Outcome r i plan (run_from r labels i none no_reason plan e).0
  unfolding run_from
  run_from-Outcome r labels [] i e = (refl, refl)
  run_from-Outcome r labels (step ∷ plan) i e =
      let done = run_step r i labels step e in
      step_then r labels i step plan done.0.0 done.0.1 done.1 (run_step-Reports r i labels step e)
        (run_step-Ended r i labels step e) (λ e'. run_from-Outcome r labels plan (suc i) e')

  -- An attempt records one status to each step of the plan, in order. Either all steps passed
  -- (`Simulated` in a dry run, `Succeeded` otherwise) and there is no error; or some passed, the
  -- next failed, all that follow are `Skipped`, and there is an error, whose kind gives the reason.
  pub run-StopsAtFailure :
      (r : StepRunner W) (labels : Labels) (plan : List Step) (e : Env W)
      → let res = (run r labels plan e).0 in
        StopsAtFailure r.dry_run 0 plan res.steps (is_some res.error)
        × Explains res.error res.reason
  unfolding run
  run-StopsAtFailure r labels plan e = run_from-Outcome r labels plan 0 e
