-- ===== src/Action/Restart.antt =====
-- internal/action/workload/restart.go: which workload a step means, how far a rollout has got, and the
-- wait for it. What the API server answers to a read is an argument; the patch is left out.
pub mod Waits
use text.Mathlib.Text.{◌==◌ as str_eq}
use remedik.Base.{
  ℕ, suc, String, Bool, true, false, Option, none, some, List, [], ◌∷◌, ◌++◌, str, num, Text, Error,
  errorf, wrapf, Result, ok, err, ℤ, pos, lt_ℤ, ◌-ℤ◌, itoa, to_lower, if◌then◌else◌,
}
use remedik.Alert.{Labels, label}
use remedik.Action.{get_param, Report}
use remedik.Action.Targets.{Target}
use remedik.Action.Scale.Count.{int32}

abbrev pub label_namespace : String
label_namespace = "namespace"

abbrev pub kind_param : String
kind_param = "kind"

abbrev pub name_param : String
name_param = "name"

-- The kinds, with the labels that name one, in the order in which they are looked for.
abbrev pub workload_kinds : List (String × String)
workload_kinds =
    ("Deployment", "deployment") ∷ ("StatefulSet", "statefulset") ∷ ("DaemonSet", "daemonset") ∷ []

unfoldable pub canonical_kind : String → Option String
canonical_kind kind =
    let low = to_lower kind in
    if str_eq low "deployment"
    then some "Deployment"
    else if str_eq low "deploy"
    then some "Deployment"
    else if str_eq low "deployments"
    then some "Deployment"
    else if str_eq low "statefulset"
    then some "StatefulSet"
    else if str_eq low "sts"
    then some "StatefulSet"
    else if str_eq low "statefulsets"
    then some "StatefulSet"
    else if str_eq low "daemonset"
    then some "DaemonSet"
    else if str_eq low "ds"
    then some "DaemonSet"
    else if str_eq low "daemonsets"
    then some "DaemonSet"
    else none

unfoldable pub label_for : String → String
label_for kind =
    if str_eq kind "StatefulSet"
    then "statefulset"
    else if str_eq kind "DaemonSet"
    then "daemonset"
    else "deployment"

-- The value of a label, which a parameter of the step replaces.
either : Labels → Labels → String → String
either labels params key = get_param params key (label labels key)

named_or : Text → String → String → Result (String × String)
named_or message kind name = if str_eq name "" then err (errorf message) else ok (kind, name)

-- Whichever label is there names the object and its kind.
first_labelled : Labels → Labels → List (String × String) → Result (String × String)
unfolding either
first_labelled labels params [] = err (
    errorf (
      str
        "no workload: the alert carries none of the \"deployment\", \"statefulset\" or \"daemonset\" labels, and the step sets no \"kind\" and \"name\". An alert naming only a pod is not enough: guessing an owner from a pod name is how the wrong workload gets restarted"
      ∷ []))
first_labelled labels params ((kind, key) ∷ kinds) =
    let value = either labels params key in
    let rest = first_labelled labels params kinds in
    if str_eq value "" then rest else ok (kind, value)

-- The name of a workload of a kind that the step or the action gives.
name_of_kind : Labels → Labels → String → String
unfolding either label_for
name_of_kind labels params kind =
    get_param params name_param (either labels params (label_for kind))

of_named_kind : Labels → Labels → String → Option String → Result (String × String)
unfolding name_of_kind named_or
of_named_kind labels params named none = err (
    errorf (
      str "unsupported kind \""
      ∷ str named
      ∷ str "\": want one of Deployment, StatefulSet or DaemonSet"
      ∷ []))
of_named_kind labels params named (some kind) =
    named_or
      (str "no name: the step sets kind="
        ∷ str named
        ∷ str " but neither \"name\" nor the \""
        ∷ str (label_for kind)
        ∷ str "\" label"
        ∷ [])
      kind (name_of_kind labels params kind)

-- `workload`, of an action that is pinned to a kind, or to none.
unfoldable pub workload_of : String → Labels → Labels → Result (String × String)
unfolding first_labelled of_named_kind named_or name_of_kind canonical_kind
workload_of pinned labels params =
    let named = get_param params kind_param "" in
    if str_eq pinned ""
    then (if str_eq named ""
        then first_labelled labels params workload_kinds
        else of_named_kind labels params named (canonical_kind named))
    else named_or
        (str "no "
          ∷ str (to_lower pinned)
          ∷ str ": the alert has no \""
          ∷ str (label_for pinned)
          ∷ str "\" label and the step sets no \"name\" or \""
          ∷ str (label_for pinned)
          ∷ str "\" parameter"
          ∷ [])
        pinned (name_of_kind labels params pinned)

unfoldable pub resolve : String → Labels → Labels → Result Target
unfolding workload_of either
resolve pinned labels params =
    let namespace = either labels params label_namespace in
    if str_eq namespace ""
    then err (
        errorf (
          str
            "no namespace: the alert has no \"namespace\" label and the step sets no \"namespace\" parameter"
          ∷ []))
    else elim (workload_of pinned labels params) [
      | err e ↦ err e
      | ok (kind, name) ↦ ok (record { kind = kind; namespace = namespace; name = name })
    ]

pub record Rollout : Type 0 where
  pub generation : ℤ
  pub observed : ℤ
  pub desired : ℤ
  pub updated : ℤ
  pub current : ℤ
  pub available : ℤ
  pub ready : ℤ
  pub unit_name : String

unit_of : Rollout → String
unit_of r = if str_eq r.unit_name "" then "replicas" else r.unit_name

-- How far the rollout has got, and whether it is done.
unfoldable pub describe : Rollout → Text × Bool
unfolding unit_of
describe r =
    if lt_ℤ r.observed r.generation
    then (
      str "waiting for the controller to observe generation "
          ∷ num r.generation
          ∷ str " (at "
          ∷ num r.observed
          ∷ str ")"
          ∷ [],
      false,
    )
    else if lt_ℤ r.updated r.desired
    then (
      num r.updated ∷ str "/" ∷ num r.desired ∷ str " " ∷ str (unit_of r) ∷ str " updated" ∷ [],
      false,
    )
    else if lt_ℤ r.updated r.current
    then (
      num (int32 (r.current -ℤ r.updated))
          ∷ str " old "
          ∷ str (unit_of r)
          ∷ str " still terminating"
          ∷ [],
      false,
    )
    else if lt_ℤ r.available r.desired
    then (
      num r.available ∷ str "/" ∷ num r.desired ∷ str " " ∷ str (unit_of r) ∷ str " available" ∷ [],
      false,
    )
    else (
      num r.ready
          ∷ str "/"
          ∷ num r.desired
          ∷ str " "
          ∷ str (unit_of r)
          ∷ str " updated, available and ready"
          ∷ [],
      true,
    )

only_said : Text → Report
only_said says = record { summary = says; kubectl = []; outputs = [] }

-- `Verify`: the reads that come before the deadline, and what was said last. At the last of them the
-- wait has run out.
unfoldable pub verify_from : Text → List (Result Rollout) → Report × Option Error
unfolding describe only_said
verify_from last [] =
    (only_said last, some (errorf (str "the rollout did not complete in time: " ∷ last)))
verify_from last (err e ∷ reads) = (only_said last, some e)
verify_from last (ok r ∷ reads) =
    let says = (describe r).0 in
    let later = verify_from says reads in
    if (describe r).1
    then (
      record {
        summary = says;
        kubectl = [];
        outputs = ("readyReplicas", itoa r.ready) ∷ ("updatedReplicas", itoa r.updated) ∷ [];
      },
      none,
    )
    else later

-- There is a first read, whatever the deadline.
unfoldable pub verify_restart : Result Rollout → List (Result Rollout) → Report × Option Error
unfolding verify_from
verify_restart first reads = verify_from [] (first ∷ reads)
