-- ===== src/Action/Scale/Autoscalers.antt =====
-- internal/action/workload/scale.go: `HPAScale`.
use remedik.Base.{
  String, Option, none, some, [], ◌∷◌, ◌++◌, Text, str, num, Error, errorf, Result, ok, err, ℤ,
  itoa, inl, inr, le_ℤ, if◌then◌else◌,
}
use remedik.Alert.{Labels}
use remedik.Action.{Request, Report}
use remedik.Action.Targets.{Target, to_string}
use remedik.Action.Scale.{
  Answer, Refusal, Autoscaler, ScaleClient, unreadable, no_report, unwritten,
}
use remedik.Action.Scale.Count.{target_count}

kubectl_patch_hpa : Target → ℤ → Text
kubectl_patch_hpa t ceiling =
    str "kubectl patch hpa "
    ∷ str t.name
    ∷ str " -n "
    ∷ str t.namespace
    ∷ str " --type=merge -p '{\"spec\":{\"maxReplicas\":"
    ∷ num ceiling
    ∷ str "}}'"
    ∷ []

ceiling_report : Target → Text → Autoscaler → ℤ → Labels → Report
unfolding kubectl_patch_hpa
ceiling_report t summary h want more = record {
  summary = summary;
  kubectl = kubectl_patch_hpa t want;
  outputs = ("maxReplicasBefore", itoa h.max_replicas) ∷ ("maxReplicasAfter", itoa want) ∷ more;
}

raise_text : String → Target → ℤ → ℤ → Text
raise_text verb t before want =
    str verb
    ∷ str (to_string t)
    ∷ str " maxReplicas from "
    ∷ num before
    ∷ str " to "
    ∷ num want
    ∷ []

ceiling_of : Request → Answer Autoscaler → Result (Autoscaler × ℤ)
unfolding unreadable
ceiling_of req (inr refused) = err (unreadable req.target refused)
ceiling_of req (inl h) = elim (target_count req.params h.max_replicas) [
  | err e ↦ err e
  | ok want ↦
      if le_ℤ want h.max_replicas
      then err (
          errorf (
            str (to_string req.target)
            ∷ str " already allows "
            ∷ num h.max_replicas
            ∷ str " replicas, and this step asks for "
            ∷ num want
            ∷ str ": lowering an autoscaler's ceiling during an incident is not a remediation"
            ∷ []))
      else ok (h, want)
]

module _ {W : Type 0} where
  -- `plan` of an autoscaler.
  unfoldable pub ceiling_plan : ScaleClient W → Request → W → Result (Autoscaler × ℤ)
  unfolding ceiling_of
  ceiling_plan c req w = ceiling_of req (c.autoscaler_at req.target.namespace req.target.name w)

  unfoldable pub plan_ceiling : ScaleClient W → Request → W → (Report × Option Error) × W
  unfolding ceiling_report raise_text
  plan_ceiling c req w = elim (ceiling_plan c req w) [
    | err e ↦ ((no_report, some e), w)
    | ok (h, want) ↦ (
      (
        ceiling_report req.target (raise_text "raise " req.target h.max_replicas want) h want
            (("currentReplicas", itoa h.current_replicas) ∷ []),
        none,
      ),
      w,
    )
  ]

  ceiling_written : Target → Autoscaler → ℤ → Option Refusal × W → (Report × Option Error) × W
  unfolding ceiling_report raise_text unwritten
  ceiling_written t h want (none, w) = (
    (
      ceiling_report t
          (raise_text "raised " t h.max_replicas want
            ++ str "; the autoscaler decides whether to use the headroom" ∷ [])
          h want [],
      none,
    ),
    w,
  )
  ceiling_written t h want (some r, w) = (
    (no_report, some (unwritten (str "not permitted to patch " ∷ []) (str "patch " ∷ []) t r)),
    w,
  )

  unfoldable pub execute_ceiling : ScaleClient W → Request → W → (Report × Option Error) × W
  unfolding ceiling_written
  execute_ceiling c req w = elim (ceiling_plan c req w) [
    | err e ↦ ((no_report, some e), w)
    | ok (h, want) ↦
        ceiling_written req.target h want
          (c.patch_ceiling req.target.namespace req.target.name want w)
  ]
