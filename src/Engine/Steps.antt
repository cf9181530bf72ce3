-- ===== src/Engine/Steps.antt =====
-- internal/engine/steps.go: one attempt over a plan. Each method is a state transformer over the
-- environment of Engine/Effects; whether events are published is a flag of the runner.
pub mod Trace
pub mod Outcome
pub mod Writes
use text.Mathlib.Text.{◌==◌ as str_eq}
use remedik.Base.{
  ℕ, suc, ◌+◌, String, Bool, true, false, not, ◌&&◌, Option, none, some, List, [], ◌∷◌, ◌++◌, Text,
  str, Error, ErrorKind, unknown_action, not_found, other_error, errorf, wrapf, Result, ok, err, ℤ,
  if◌then◌else◌,
}
use remedik.Base.Assoc
use remedik.Base.Assoc.{string_eq}
use remedik.Alert.{Labels}
use remedik.Action.Targets.{Target, is_zero, to_string}
use remedik.Action.{Action, Registry, Report, Request, get_action, verify_timeout}
use remedik.Api.{
  Step, StepStatus, StepPhase, step_running, step_succeeded, step_failure, step_skipped,
  step_simulated, State, failed, simulated, succeeded, Reason, no_reason, step_failed,
  unknown_action_reason,
}
use remedik.Engine.Effects.{
  Env, M, pure, ◌>>=◌, ◌>>◌, now, log, call, Call, planned, executed, verified, announced_start,
  announced_success, announced_failure,
}

pub record StepRunner (W : Type 0) : Type 0 where
  pub registry : Registry W
  pub remediation : String
  pub strategy : String
  pub namespace : String
  pub dry_run : Bool
  pub publishes : Bool
  pub parse_duration : String → Result ℤ

-- One result of `runStep`: what to record, and the error if there is one.
abbrev pub StepResult : Type 0
StepResult = StepStatus × Option Error

pub record RunResult : Type 0 where
  pub steps : List StepStatus
  pub error : Option Error
  pub reason : Reason

unfoldable pub blank : ℕ → Step → StepPhase → StepStatus
blank index step phase = record {
  index = index;
  action = step.action;
  target = "";
  phase = phase;
  plan = [];
  kubectl = [];
  outputs = [];
  verified = [];
  message = [];
  started_at = none;
  completed_at = none;
}

-- The loop that copies outputs, whose keys overwrite those that are there.
merge_outputs : Labels → Labels → Labels
merge_outputs into [] = into
merge_outputs into ((k, v) ∷ rest) = merge_outputs (Assoc.put into k v) rest

keep_if_set : Text → Text → Text
keep_if_set old [] = old
keep_if_set old (p ∷ ps) = p ∷ ps

record_report : StepStatus → Report → StepStatus
unfolding merge_outputs keep_if_set
record_report s r = record s {
  plan = r.summary;
  kubectl = keep_if_set s.kubectl r.kubectl;
  outputs = merge_outputs s.outputs r.outputs;
}

record_check : StepStatus → Report → StepStatus
unfolding merge_outputs keep_if_set
record_check s r = record s {
  verified = keep_if_set s.verified r.summary;
  outputs = merge_outputs s.outputs r.outputs;
}

describe : String → String → Target → Text
describe verb name t =
    if is_zero t
    then str verb ∷ str " " ∷ str name ∷ []
    else str verb ∷ str " " ∷ str name ∷ str " on " ∷ str (to_string t) ∷ []

unfoldable pub terminal_state : Bool → Option Error → State
terminal_state dry_run (some e) = failed
terminal_state true none = simulated
terminal_state false none = succeeded

name_target : StepStatus → Target → StepStatus
name_target s t = if is_zero t then s else record s { target = to_string t }

skipped : ℕ → Step → StepStatus
unfolding blank
skipped index step = blank index step step_skipped

unfoldable pub reason_of : ErrorKind → Reason
reason_of unknown_action = unknown_action_reason
reason_of not_found = step_failed
reason_of other_error = step_failed

module _ {W : Type 0} where
  finish_step : StepStatus → StepPhase → Text → M W StepStatus
  unfolding now
  finish_step s phase message = do
    completed ← now
    pure (record s { phase = phase; message = message; completed_at = some completed })

  fail_step : StepStatus → Error → M W StepResult
  unfolding finish_step
  fail_step s e = do s' ← finish_step s step_failure e.text_of; pure (s', some e)

  pass_step : StepStatus → StepPhase → M W StepResult
  unfolding finish_step
  pass_step s phase = do s' ← finish_step s phase []; pure (s', none)

  -- An event on the target, where a recorder is configured.
  announce : StepRunner W → Call → M W (Unit {0})
  unfolding log
  announce r c = if r.publishes then log c else pure tt

  request : StepRunner W → Labels → Step → Target → Request
  request r labels step target = record {
    target = target;
    params = step.params;
    labels = labels;
    remediation = r.remediation;
    strategy = r.strategy;
    namespace = r.namespace;
    dry_run = r.dry_run;
  }

  after_plan : Step → Target → StepStatus → Option Error → M W StepResult
  unfolding fail_step pass_step describe
  after_plan step target s none = pass_step s step_simulated
  after_plan step target s (some e) = fail_step s (wrapf (describe "plan" step.action target) e)

  simulate : StepRunner W → Action W → Labels → Step → Target → StepStatus → M W StepResult
  unfolding call log after_plan record_report request
  simulate r act labels step target s = do
    log (planned step.action target)
    done ← call (act.plan (request r labels step target))
    after_plan step target (record_report s done.0) done.1

  -- `verify`: the status with what the check saw, and the error if it failed.
  verify_with :
      StepRunner W
      → Action W
      → Request
      → Report
      → StepStatus
      → (ℤ → Request → Report → W → (Report × Option Error) × W)
      → Result ℤ
      → M W StepResult
  unfolding call log record_check describe
  verify_with r act req done s check (err e) =
      pure (s, some (wrapf (describe "verify" act.name req.target) e))
  verify_with r act req done s check (ok timeout) = do
    log (verified act.name req.target)
    seen ← call (check timeout req done)
    pure (
      record_check s seen.0,
      elim seen.1 [
        | none ↦ none
        | some e ↦ some (
            wrapf
              (str act.name
                ∷ str " ran on "
                ∷ str (to_string req.target)
                ∷ str " but did not take effect"
                ∷ [])
              e)
      ],
    )

  verify :
      StepRunner W
      → Action W
      → Request
      → Report
      → StepStatus
      → Option (ℤ → Request → Report → W → (Report × Option Error) × W)
      → M W StepResult
  unfolding verify_with
  verify r act req done s none = pure (s, none)
  verify r act req done s (some check) =
      verify_with r act req done s check (verify_timeout r.parse_duration req.params)

  after_verify : StepRunner W → Step → Target → StepResult → M W StepResult
  unfolding announce fail_step pass_step
  after_verify r step target (s, some e) = do
    announce r (announced_failure step.action target)
    fail_step s e
  after_verify r step target (s, none) = do
    announce r (announced_success step.action target)
    pass_step s step_succeeded

  after_execute :
      StepRunner W
      → Action W
      → Labels
      → Step
      → Target
      → StepStatus
      → Report × Option Error
      → M W StepResult
  unfolding announce fail_step describe verify after_verify request
  after_execute r act labels step target s (done, some e) = do
    announce r (announced_failure step.action target)
    fail_step s (wrapf (describe "execute" step.action target) e)
  after_execute r act labels step target s (done, none) = do
    checked ← verify r act (request r labels step target) done s act.verifier
    after_verify r step target checked

  perform : StepRunner W → Action W → Labels → Step → Target → StepStatus → M W StepResult
  unfolding announce call log after_execute record_report request
  perform r act labels step target s = do
    announce r (announced_start step.action target)
    log (executed step.action target)
    done ← call (act.execute (request r labels step target))
    after_execute r act labels step target (record_report s done.0) done

  on_target : StepRunner W → Action W → Labels → Step → StepStatus → Result Target → M W StepResult
  unfolding fail_step simulate perform name_target
  on_target r act labels step s (err e) =
      fail_step s (wrapf (str "resolve target for " ∷ str step.action ∷ []) e)
  on_target r act labels step s (ok target) =
      if r.dry_run
      then simulate r act labels step target (name_target s target)
      else perform r act labels step target (name_target s target)

  with_action : StepRunner W → Labels → Step → StepStatus → Result (Action W) → M W StepResult
  unfolding fail_step on_target
  with_action r labels step s (err e) = fail_step s e
  with_action r labels step s (ok act) =
      on_target r act labels step s (act.resolve labels step.params)

  -- `Step` and `runStep`.
  unfoldable pub run_step : StepRunner W → ℕ → Labels → Step → M W StepResult
  unfolding now with_action blank
  run_step r index labels step = do
    started ← now
    with_action r labels step (record (blank index step step_running) { started_at = some started })
        (get_action r.registry step.action)

  -- The loop of `Run`; `error` and `reason` are those of the result so far.
  run_from : StepRunner W → Labels → ℕ → Option Error → Reason → List Step → M W RunResult
  unfolding skipped reason_of
  run_from r labels i error reason [] = pure (record { steps = []; error = error; reason = reason })
  run_from r labels i (some e) reason (step ∷ plan) = do
    rest ← run_from r labels (suc i) (some e) reason plan
    pure (record rest { steps = skipped i step ∷ rest.steps })
  run_from r labels i none reason (step ∷ plan) = do
    done ← run_step r i labels step
    rest ←
        run_from r labels (suc i) done.1 (elim done.1 [ none ↦ reason | some e ↦ reason_of e.kind ])
          plan
    pure (record rest { steps = done.0 ∷ rest.steps })

  pub run : StepRunner W → Labels → List Step → M W RunResult
  run r labels plan = run_from r labels 0 none no_reason plan
