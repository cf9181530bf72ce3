-- ===== src/Action/Rollback.antt =====
-- internal/action/workload/rollback.go: the revision that a rollback returns to, and the refusals before
-- it. What the API server answers is an argument; the patch of the pod template is left out.
pub mod Revisions
use text.Mathlib.Text.{◌==◌ as str_eq}
use remedik.Base.{
  ℕ, String, Bool, true, false, ◌&&◌, Option, none, some, List, [], ◌∷◌, ◌++◌, str, num, Text,
  Error, errorf, wrapf, Result, ok, err, ℤ, pos, le_ℤ, lt_ℤ, eq_ℤ, itoa, if◌then◌else◌, keep, any,
}
use remedik.Alert.{Labels, label}
use remedik.Action.{get_param, Request}
use remedik.Action.Targets.{Target, to_string}
use remedik.Action.Scale.Count.{parse_int}

abbrev pub revision_annotation : String
revision_annotation = "deployment.kubernetes.io/revision"

abbrev pub to_revision_param : String
to_revision_param = "toRevision"

abbrev pub ignore_git_ops_param : String
ignore_git_ops_param = "ignoreGitOps"

pub record Owner : Type 0 where
  pub uid : String
  pub controller : Option Bool

pub record ReplicaSet : Type 0 where
  pub name : String
  pub annotations : Labels
  pub owners : List Owner

pub record Deployment : Type 0 where
  pub uid : String
  pub labels : Labels
  pub annotations : Labels

pub record Rollback : Type 0 where
  pub current : ℤ
  pub revision : ℤ
  pub replica_set : ReplicaSet

-- 0 where the annotation is no number.
unfoldable pub revision_of : Labels → ℤ
revision_of annotations =
    elim (parse_int 9223372036854775808 (label annotations revision_annotation)) [
      | none ↦ pos 0
      | some n ↦ n
    ]

unfoldable pub is_owner : String → Owner → Bool
is_owner uid o = elim o.controller [ none ↦ false | some b ↦ b && str_eq o.uid uid ]

unfoldable pub is_owned : Deployment → ReplicaSet → Bool
unfolding is_owner
is_owned d rs = any (is_owner d.uid) rs.owners

-- The ones that the Deployment controls.
unfoldable pub owned_replica_sets : Deployment → List ReplicaSet → List ReplicaSet
unfolding is_owned
owned_replica_sets d sets = keep (is_owned d) sets

unfoldable pub rev : ReplicaSet → ℤ
unfolding revision_of
rev rs = revision_of rs.annotations

unfoldable pub insert_by_revision : ReplicaSet → List ReplicaSet → List ReplicaSet
unfolding rev
insert_by_revision r [] = r ∷ []
insert_by_revision r (q ∷ rs) =
    if lt_ℤ (rev r) (rev q) then q ∷ insert_by_revision r rs else r ∷ q ∷ rs

-- `sort.Slice`, newest first.
unfoldable pub newest_first : List ReplicaSet → List ReplicaSet
unfolding insert_by_revision
newest_first [] = []
newest_first (r ∷ rs) = insert_by_revision r (newest_first rs)

unfoldable pub previous : ℤ → List ReplicaSet → Option ReplicaSet
unfolding rev
previous current [] = none
previous current (r ∷ rs) =
    let rest = previous current rs in if lt_ℤ (rev r) current then some r else rest

unfoldable pub at_revision : ℤ → List ReplicaSet → Option ReplicaSet
unfolding rev
at_revision wanted [] = none
at_revision wanted (r ∷ rs) =
    let rest = at_revision wanted rs in if eq_ℤ (rev r) wanted then some r else rest

pub not_a_revision : String → Error
not_a_revision raw =
    errorf (str "parameter \"toRevision\": \"" ∷ str raw ∷ str "\" is not a revision number" ∷ [])

pub revision_list : List ReplicaSet → Text
revision_list [] = []
revision_list (r ∷ []) = num (rev r) ∷ []
revision_list (r ∷ q ∷ rs) = num (rev r) ∷ str ", " ∷ revision_list (q ∷ rs)

unfoldable pub requested_revision : Labels → Result ℤ
requested_revision params =
    let raw = get_param params to_revision_param "" in
    if str_eq raw "" then ok (pos 0) else elim (parse_int 9223372036854775808 raw) [
      | none ↦ err (not_a_revision raw)
      | some n ↦ if le_ℤ n (pos 0) then err (not_a_revision raw) else ok n
    ]

-- The labels and annotations that Argo CD and Flux set, with the place and the controller.
abbrev pub git_ops_markers : List (String × (Bool × String))
git_ops_markers =
    ("argocd.argoproj.io/instance", (true, "Argo CD"))
    ∷ ("app.kubernetes.io/instance", (false, "Argo CD"))
    ∷ ("kustomize.toolkit.fluxcd.io/name", (false, "Flux"))
    ∷ ("helm.toolkit.fluxcd.io/name", (false, "Flux"))
    ∷ []

managed : Target → String → String → String → String → Error
managed t controller place key value = errorf (
    str (to_string t)
    ∷ str " is managed by "
    ∷ str controller
    ∷ str " ("
    ∷ str place
    ∷ str " "
    ∷ str key
    ∷ str "="
    ∷ str value
    ∷ str
        "): a rollback would be reverted within minutes, and remedik would have recorded a success while the outage continued. Revert the commit instead, or set ignoreGitOps=\"true\" on the step if you know better"
    ∷ [])

unfoldable pub marker_error : Target → Deployment → List (String × (Bool × String)) → Option Error
unfolding managed
marker_error t d [] = none
marker_error t d ((key, (annotation, controller)) ∷ markers) =
    let rest = marker_error t d markers in
    let value = label (if annotation then d.annotations else d.labels) key in
    if str_eq value ""
    then rest
    else some (managed t controller (if annotation then "annotation" else "label") key value)

unfoldable pub check_git_ops : Deployment → Request → Option Error
unfolding marker_error
check_git_ops d req =
    if str_eq (get_param req.params ignore_git_ops_param "false") "true"
    then none
    else marker_error req.target d git_ops_markers

pub nothing_earlier : Target → ℤ → Error
nothing_earlier t current = errorf (
    str (to_string t)
    ∷ str " is at revision "
    ∷ num current
    ∷ str " and has no earlier one kept: there is nothing to roll back to"
    ∷ [])

unfoldable pub chosen : ℤ → Option ReplicaSet → Error → Result Rollback
chosen current none e = err e
chosen current (some rs) e = ok (record { current = current; revision = rev rs; replica_set = rs })

-- The choice among the kept revisions; `wanted` is 0 where the step names none.
unfoldable pub choose : Target → ℤ → ℤ → List ReplicaSet → Result Rollback
unfolding chosen
choose t current wanted owned =
    if eq_ℤ wanted (pos 0)
    then chosen current (previous current owned) (nothing_earlier t current)
    else elim (at_revision wanted owned) [
      | none ↦ err (
          errorf (
            str (to_string t)
            ∷ str " has no revision "
            ∷ num wanted
            ∷ str " kept; available: "
            ∷ revision_list owned))
      | some rs ↦
          if eq_ℤ wanted current
          then err (errorf (str (to_string t) ∷ str " is already at revision " ∷ num wanted ∷ []))
          else ok (record { current = current; revision = wanted; replica_set = rs })
    ]

-- From the list of the ReplicaSets on.
unfoldable pub choose_owned : Request → Deployment → List ReplicaSet → Result Rollback
unfolding choose
choose_owned req d owned = elim owned [
  | [] ↦ err (
      errorf (
        str (to_string req.target)
        ∷ str
            " has no revision history to roll back to: its ReplicaSets are gone, which usually means revisionHistoryLimit is 0"
        ∷ []))
  | r ∷ rs ↦ elim (requested_revision req.params) [
    | err e ↦ err e
    | ok wanted ↦ choose req.target (revision_of d.annotations) wanted (newest_first (r ∷ rs))
  ]
]

-- `rollbackTarget`, once the Deployment is read.
unfoldable pub rollback_target : Request → Deployment → Result (List ReplicaSet) → Result Rollback
unfolding check_git_ops choose_owned
rollback_target req d listed = elim (check_git_ops d req) [
  | some e ↦ err e
  | none ↦ elim listed [
    | err e ↦ err (wrapf (str "list the revisions of " ∷ str (to_string req.target) ∷ []) e)
    | ok sets ↦ choose_owned req d (owned_replica_sets d sets)
  ]
]
