-- ===== src/Action/Scale/Deployments.antt =====
-- internal/action/workload/scale.go: `DeploymentScale`.
use remedik.Base.{
  String, Option, none, some, [], ◌∷◌, Text, str, num, Error, Result, ok, err, ℤ, itoa,
}
use remedik.Action.{Request, Report}
use remedik.Action.Targets.{Target, to_string}
use remedik.Action.Scale.{Refusal, ScaleClient, no_report, unwritten, plan_of, check_autoscaler}

unfoldable pub kubectl_scale : Target → ℤ → Text
kubectl_scale t replicas =
    str "kubectl scale deployment/"
    ∷ str t.name
    ∷ str " -n "
    ∷ str t.namespace
    ∷ str " --replicas="
    ∷ num replicas
    ∷ []

unfoldable pub scale_report : String → Target → ℤ × ℤ → Report
unfolding kubectl_scale
scale_report verb t (current, want) = record {
  summary =
      str verb
      ∷ str (to_string t)
      ∷ str " from "
      ∷ num current
      ∷ str " to "
      ∷ num want
      ∷ str " replicas"
      ∷ [];
  kubectl = kubectl_scale t want;
  outputs = ("replicasBefore", itoa current) ∷ ("replicasAfter", itoa want) ∷ [];
}

module _ {W : Type 0} where
  -- `plan` of a Deployment.
  unfoldable pub scale_plan : ScaleClient W → Request → W → Result (ℤ × ℤ)
  unfolding plan_of check_autoscaler
  scale_plan c req w =
      plan_of req (c.deployment_at req.target.namespace req.target.name w)
        (check_autoscaler req.target (c.autoscalers_in req.target.namespace w))

  unfoldable pub report_plan : Request → W → Result (ℤ × ℤ) → (Report × Option Error) × W
  unfolding scale_report
  report_plan req w (err e) = ((no_report, some e), w)
  report_plan req w (ok counts) = ((scale_report "scale " req.target counts, none), w)

  unfoldable pub plan_scale : ScaleClient W → Request → W → (Report × Option Error) × W
  unfolding report_plan
  plan_scale c req w = report_plan req w (scale_plan c req w)

  unfoldable pub scale_written : Target → ℤ × ℤ → Option Refusal × W → (Report × Option Error) × W
  unfolding scale_report unwritten
  scale_written t counts (none, w) = ((scale_report "scaled " t counts, none), w)
  scale_written t counts (some r, w) = (
    (no_report, some (unwritten (str "not permitted to scale " ∷ []) (str "scale " ∷ []) t r)),
    w,
  )

  unfoldable pub carry_out :
      ScaleClient W → Request → W → Result (ℤ × ℤ) → (Report × Option Error) × W
  unfolding scale_written
  carry_out c req w (err e) = ((no_report, some e), w)
  carry_out c req w (ok counts) =
      scale_written req.target counts
        (c.patch_scale req.target.namespace req.target.name counts.1 w)

  unfoldable pub execute_scale : ScaleClient W → Request → W → (Report × Option Error) × W
  unfolding carry_out
  execute_scale c req w = carry_out c req w (scale_plan c req w)
