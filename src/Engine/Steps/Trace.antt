-- ===== src/Engine/Steps/Trace.antt =====
-- internal/engine/steps.go: what a run calls.
use remedik.Base.{
  ℕ, suc, ◌≡◌, refl, sym, subst, ◌∙◌, Bool, true, false, Option, none, some, List, [], ◌∷◌, String,
  arith, count, Result, ok, err, Error,
}
use remedik.Alert.{Labels}
use remedik.Action.Targets.{Target}
use remedik.Action.{Action, Registry, Request, get_action}
use remedik.Api.{Step, StepStatus, Reason, no_reason}
use remedik.Engine.Effects.{Env, Call, now, planned}
use remedik.Engine.Steps.{
  StepRunner, on_target, with_action, run_step, run_from, run, request, reason_of,
}

-- A call that does anything but describe.
abbrev pub acts : Call → Bool
acts (planned a t) = false
acts _ = true

-- How many such calls were made so far.
abbrev pub acted : {W : Type 0} → Env W → ℕ
acted e = count acts e.trace

-- The cluster `w` is what plans of registered actions, in dry runs, make of `u`, one after the other.
pub data Plans {W : Type 0} (registry : Registry W) (u : W) : W → Type 0 where
  nothing : Plans registry u u
  one_more :
      (w : W) (name : String) (act : Action W) (req : Request)
      → Plans registry u w
      → get_action registry name ≡ ok act
      → req.dry_run ≡ true
      → Plans registry u (act.plan req w).1

module _ {W : Type 0} where
  run_step-acted :
      (r : StepRunner W) (i : ℕ) (labels : Labels) (step : Step) (e : Env W)
      → r.dry_run ≡ true
      → acted (run_step r i labels step e).1 ≡ acted e
  unfolding run_step count
  run_step-acted r i labels step e d = ground arith

  -- Every plan of the registry leaves the cluster as it is.
  abbrev pub PlansReadOnly : Registry W → Type 0
  PlansReadOnly registry =
      (name : String) (act : Action W)
      → get_action registry name ≡ ok act
      → (req : Request) (w : W) → (act.plan req w).1 ≡ w

  with_action-Plans :
      (r : StepRunner W) (labels : Labels) (step : Step) (s : StepStatus) (e : Env W)
      (found : Result (Action W))
      → get_action r.registry step.action ≡ found
      → r.dry_run ≡ true
      → Plans r.registry e.world (with_action r labels step s found e).1.world
  unfolding with_action
  with_action-Plans r labels step s e (err x) same d = nothing
  with_action-Plans r labels step s e (ok act) same d = plan_only (act.resolve labels step.params)
    where
      after_plan_of :
          (t : Target)
          → (on_target r act labels step s (ok t) e).1.world
            ≡ (act.plan (request r labels step t) e.world).1
      after_plan_of t = ground arith

      plan_only :
          (o : Result Target) → Plans r.registry e.world (on_target r act labels step s o e).1.world
      plan_only (err x) = nothing
      plan_only (ok t) =
          subst (Plans r.registry e.world) (sym (after_plan_of t))
            (one_more e.world step.action act (request r labels step t) nothing same d)

  Plans-trans :
      {registry : Registry W} {u v : W} (w : W)
      → Plans registry u v
      → Plans registry v w
      → Plans registry u w
  Plans-trans w p nothing = p
  Plans-trans w p (one_more x name act req q found d) =
      one_more x name act req (Plans-trans x p q) found d

  run_from-dry :
      (r : StepRunner W) (labels : Labels) (plan : List Step) (i : ℕ) (o : Option Error)
      (why : Reason) (e : Env W)
      → r.dry_run ≡ true
      → (acted (run_from r labels i o why plan e).1 ≡ acted e)
        × Plans r.registry e.world (run_from r labels i o why plan e).1.world
  unfolding run_from run_step now
  run_from-dry r labels [] i o why e d = (refl, nothing)
  run_from-dry r labels (step ∷ plan) i (some x) why e d =
      run_from-dry r labels plan (suc i) (some x) why e d
  run_from-dry r labels (step ∷ plan) i none why e d =
      let done = run_step r i labels step e in
      let rest =
        run_from-dry r labels plan (suc i) done.0.1
          (elim done.0.1 [ none ↦ why | some x ↦ reason_of x.kind ]) done.1 d in
      let first =
        with_action-Plans r labels step _ (now e).1 (get_action r.registry step.action) refl d in
      (rest.0 ∙ run_step-acted r i labels step e d, Plans-trans _ first rest.1)

  -- A dry run executes nothing, verifies nothing and publishes no event, whatever the plan and the
  -- alert; and the cluster afterwards is what a sequence of calls of `Plan` makes of it, each of a
  -- registered action, on a request that says that the run is dry.
  pub run-dry :
      (r : StepRunner W) (labels : Labels) (plan : List Step) (e : Env W)
      → r.dry_run ≡ true
      → (acted (run r labels plan e).1 ≡ acted e)
        × Plans r.registry e.world (run r labels plan e).1.world
  unfolding run
  run-dry r labels plan e d = run_from-dry r labels plan 0 none no_reason e d

  -- Where every registered `Plan` leaves the cluster as it is, so does a sequence of them.
  pub PlansReadOnly-Plans :
      {registry : Registry W} {u : W} (w : W) → PlansReadOnly registry → Plans registry u w → w ≡ u
  PlansReadOnly-Plans w h nothing = refl
  PlansReadOnly-Plans w h (one_more x name act req q found d) =
      h name act found req x ∙ PlansReadOnly-Plans x h q
