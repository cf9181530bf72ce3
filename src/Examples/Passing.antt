-- ===== src/Examples/Passing.antt =====
-- The theorems on runs, escalations and passes, on a small cluster.
use remedik.Base.{ℕ, true, false, ◌≡◌, refl, none, List, [], ◌∷◌, inr, ◌⊎◌, is_some, arith}
use remedik.Base.Assoc.{string_eq}
use remedik.Api.{Step, Remediation, auto, approval, first_success}
use remedik.Engine.Effects.{Env, writes}
use remedik.Engine.Escalation.{run_channels, is_first_success}
use remedik.Engine.Escalation.Channels.{TriesAll, run_channels-TriesAll}
use remedik.Engine.Steps.{run}
use remedik.Engine.Steps.Trace.{Plans, acted, run-dry}
use remedik.Engine.Steps.Outcome.{StopsAtFailure, Explains, run-StopsAtFailure}
use remedik.Engine.Controller.{reconcile_record}
use remedik.Engine.Controller.Lifecycle.{Legal, Reaches, AttemptsFit, current}
use remedik.Engine.Controller.Passes.{pass-Reaches}
use remedik.Engine.Controller.Gate.{Gated, pass-Gated}
use remedik.Examples.Cluster.{
  actions, restart, broken, runner, reconciler, small_client-Echoes, fresh, remediation,
}

abbrev pub plan : List Step
plan = restart ∷ broken ∷ restart ∷ []

abbrev one_pass : Env ℕ
one_pass = (reconcile_record reconciler (remediation auto plan 2) fresh).1

pass-Reaches_example :
    let rem = remediation auto plan 2 in
    let ws = writes (reconcile_record reconciler rem fresh).1.trace in
    Legal rem.spec rem.status ws
    × Reaches rem.spec rem.status (current rem.status ws)
    × AttemptsFit rem.spec (current rem.status ws)
unfolding writes
pass-Reaches_example =
    pass-Reaches reconciler (remediation auto plan 2) fresh small_client-Echoes refl
      (inr (omega arith), omega arith)

-- It asks for approval, has no deadline, and somebody to page.
abbrev unanswered : Remediation
unanswered =
    let rem = remediation approval plan 2 in
    record rem {
      spec = record rem.spec { escalation_steps = broken ∷ []; approval_deadline = none };
    }

pass-Gated_example :
    Gated reconciler unanswered fresh (reconcile_record reconciler unanswered fresh).1
pass-Gated_example = pass-Gated reconciler unanswered fresh refl refl

run-dry_example :
    (acted (run (runner true) [] plan fresh).1 ≡ acted fresh)
    × Plans actions 0 (run (runner true) [] plan fresh).1.world
run-dry_example = run-dry (runner true) [] plan fresh refl

run-StopsAtFailure_example :
    let res = (run (runner false) [] plan fresh).0 in
    StopsAtFailure false 0 plan res.steps (is_some res.error) × Explains res.error res.reason
run-StopsAtFailure_example = run-StopsAtFailure (runner false) [] plan fresh

run_channels-TriesAll_example :
    let result =
      (run_channels (runner false) [] (broken ∷ restart ∷ restart ∷ []) first_success fresh).0 in
    TriesAll
      (is_first_success first_success)
      false
      0
      (broken ∷ restart ∷ restart ∷ [])
      result.steps
      result.delivered
    × ((result.delivered ≡ true) ⊎ (is_some result.last_error ≡ true))
run_channels-TriesAll_example =
    run_channels-TriesAll (runner false) refl [] first_success broken (restart ∷ restart ∷ []) fresh
