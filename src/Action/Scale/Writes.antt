-- ===== src/Action/Scale/Writes.antt =====
-- internal/action/workload/scale.go: what a scaling step writes, and what its plan says of it.
use remedik.Base.{
  ◌≡◌, ◌⊎◌, inl, true, false, Option, none, List, [], ◌∷◌, Error, ok, ℤ, any, is_some, itoa,
}
use remedik.Action.{Request, Report}
use remedik.Action.Targets.{Target}
use remedik.Action.Scale.{Answer, Deployment, Autoscaler, ScaleClient, scales, desired}
use remedik.Action.Scale.Count.{target_count}
use remedik.Action.Scale.Deployments.{kubectl_scale, plan_scale}

-- The plan of a Deployment went through: it was read, no listed autoscaler scales it, and the count is
-- the one that the step asks for.
pub record Scalable (req : Request) (found : Answer Deployment) (listed : Answer (List Autoscaler))
    (counts : ℤ × ℤ) : Type 0 where
  pub deployment : Deployment
  pub autoscalers : List Autoscaler
  pub was_read : found ≡ inl deployment
  pub was_listed : listed ≡ inl autoscalers
  pub unowned : any (scales req.target) autoscalers ≡ false
  pub before : counts.0 ≡ desired deployment
  pub asked_for : target_count req.params (desired deployment) ≡ ok counts.1

-- The report tells of a change between the counts, in its outputs and in its command.
abbrev pub Tells : Target → ℤ × ℤ → Report → Type 0
Tells t counts told =
    (told.outputs ≡ ("replicasBefore", itoa counts.0) ∷ ("replicasAfter", itoa counts.1) ∷ [])
    × (told.kubectl ≡ kubectl_scale t counts.1)

-- There was no error, and the report tells of the counts.
abbrev pub Told : Target → ℤ × ℤ → Report × Option Error → Type 0
Told t counts out = (out.1 ≡ none) × Tells t counts out.0

module _ {W : Type 0} where
  abbrev pub Written : ScaleClient W → Request → W → (Report × Option Error) × W → ℤ × ℤ → Type 0
  Written c req w out counts =
      Scalable req (c.deployment_at req.target.namespace req.target.name w)
        (c.autoscalers_in req.target.namespace w) counts
      × Told req.target counts (plan_scale c req w).0
      × (Told req.target counts out.0 ⊎ (is_some out.0.1 ≡ true))
      × (out.1 ≡ (c.patch_scale req.target.namespace req.target.name counts.1 w).1)

  abbrev pub Refused : ScaleClient W → Request → W → (Report × Option Error) × W → Type 0
  Refused c req w out =
      (out.1 ≡ w) × (is_some out.0.1 ≡ true) × ((plan_scale c req w).0.1 ≡ out.0.1)

  abbrev pub Executed : ScaleClient W → Request → W → (Report × Option Error) × W → Type 0
  Executed c req w out = ((counts : ℤ × ℤ) × Written c req w out counts) ⊎ Refused c req w out
