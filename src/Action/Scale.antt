-- ===== src/Action/Scale.antt =====
-- internal/action/workload/scale.go: the scaling of a Deployment and of an autoscaler's ceiling. The
-- client is a parameter; how a target is found and how the new replicas are waited for are left out.
pub mod Count
pub mod Bounds
pub mod Deployments
pub mod Autoscalers
pub mod Writes
use Prim.Native.Char.{code}
use text.Mathlib.Text.{◌==◌ as str_eq}
use remedik.Base.{
  ℕ, suc, ◌+◌, ◌-◌, ◌*◌, ◌/◌, ◌%◌, String, Bool, true, false, not, ◌&&◌, Option, none, some, List,
  [], ◌∷◌, ◌++◌, Text, str, num, Error, errorf, wrapf, Result, ok, err, ℤ, pos, negsuc, itoa, ◌⊎◌,
  inl, inr, le_ℤ, lt_ℤ, ◌+ℤ◌, neg, leb, ltb, ◌==◌, if◌then◌else◌,
}
use remedik.Alert.{Labels}
use remedik.Action.{get_param, Request, Report}
use remedik.Action.Targets.{Target, to_string}
use Count.{target_count}

-- What the API server says of an error.
pub data Kind : Type 0 where
  missing forbidden other : Kind

pub record Refusal : Type 0 where
  pub kind : Kind
  pub error : Error

pub record Deployment : Type 0 where
  pub replicas : Option ℤ

pub record Autoscaler : Type 0 where
  pub name : String
  pub target_kind : String
  pub target_name : String
  pub max_replicas : ℤ
  pub current_replicas : ℤ

-- A read or a write of the API server.
abbrev pub Answer : Type 0 → Type 0
Answer A = A ⊎ Refusal

pub record ScaleClient (W : Type 0) : Type 0 where
  pub deployment_at : String → String → W → Answer Deployment
  pub autoscalers_in : String → W → Answer (List Autoscaler)
  pub autoscaler_at : String → String → W → Answer Autoscaler
  pub patch_scale : String → String → ℤ → W → Option Refusal × W
  pub patch_ceiling : String → String → ℤ → W → Option Refusal × W

unfoldable pub desired : Deployment → ℤ
desired d = elim d.replicas [ none ↦ pos 1 | some n ↦ n ]

unreadable : Target → Refusal → Error
unreadable t r = elim r.kind [
  | missing ↦ wrapf (str (to_string t) ∷ str " does not exist" ∷ []) r.error
  | _ ↦ wrapf (str "read " ∷ str (to_string t) ∷ []) r.error
]

unlisted : Target → Refusal → Error
unlisted t r = elim r.kind [
  | forbidden ↦
      wrapf
        (str "cannot tell whether "
          ∷ str (to_string t)
          ∷ str " is autoscaled, so remedik will not scale it"
          ∷ [])
        r.error
  | _ ↦ wrapf (str "list autoscalers in " ∷ str t.namespace ∷ []) r.error
]

autoscaled_by : Target → String → Error
autoscaled_by t name = errorf (
    str (to_string t)
    ∷ str " is scaled by horizontalpodautoscaler/"
    ∷ str name
    ∷ str
        ": setting replicas would be reverted on its next interval, and remedik would have recorded a success that did not stick. Use hpa.scale to raise its ceiling instead"
    ∷ [])

unfoldable pub scales : Target → Autoscaler → Bool
scales t h = str_eq h.target_kind "Deployment" && str_eq h.target_name t.name

-- The loop over the autoscalers.
unfoldable pub owner_error : Target → List Autoscaler → Option Error
unfolding scales autoscaled_by
owner_error t [] = none
owner_error t (h ∷ hs) =
    let rest = owner_error t hs in if scales t h then some (autoscaled_by t h.name) else rest

unfoldable pub check_autoscaler : Target → Answer (List Autoscaler) → Option Error
unfolding owner_error unlisted
check_autoscaler t (inr refused) = some (unlisted t refused)
check_autoscaler t (inl hs) = owner_error t hs

-- The present count and the wanted one.
unfoldable pub with_count : ℤ → Result ℤ → Result (ℤ × ℤ)
with_count before (err e) = err e
with_count before (ok want) = ok (before, want)

unfoldable pub plan_found : Labels → Deployment → Option Error → Result (ℤ × ℤ)
unfolding with_count
plan_found params d (some e) = err e
plan_found params d none = with_count (desired d) (target_count params (desired d))

unfoldable pub plan_of : Request → Answer Deployment → Option Error → Result (ℤ × ℤ)
unfolding unreadable plan_found
plan_of req (inr refused) owned = err (unreadable req.target refused)
plan_of req (inl d) owned = plan_found req.params d owned

abbrev pub no_report : Report
no_report = record { summary = []; kubectl = []; outputs = [] }

unwritten : Text → Text → Target → Refusal → Error
unwritten denied failing t r = elim r.kind [
  | forbidden ↦ wrapf (denied ++ str (to_string t) ∷ []) r.error
  | _ ↦ wrapf (failing ++ str (to_string t) ∷ []) r.error
]
