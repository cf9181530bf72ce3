-- ===== src/Engine/Workload.antt =====
-- internal/engine/workload.go: how much of the workload behind a target is up. What the API server
-- answers to a read is a parameter; a nil reader is `none`.
pub mod Owners
use Prim.Native.String.{◌++◌ as append}
use text.Mathlib.Text.{◌==◌ as str_eq}
use remedik.Base.{
  String, Bool, true, false, Option, none, some, List, [], ◌∷◌, str, Error, errorf, wrapf, Result,
  ok, err, ℤ, pos, if◌then◌else◌, to_lower,
}
use remedik.Action.Targets.{Target, to_string, parse_target}
use remedik.Guards.BlastRadius.{Workload, Reader}

pub record OwnerReference : Type 0 where
  pub kind : String
  pub name : String
  pub controller : Option Bool

-- A Deployment, or a StatefulSet.
pub record Replicated : Type 0 where
  pub replicas : Option ℤ
  pub available_replicas : ℤ

pub record DaemonSet : Type 0 where
  pub desired_number_scheduled : ℤ
  pub number_available : ℤ

pub record ReplicaSet : Type 0 where
  pub name : String
  pub owners : List OwnerReference
  pub spec : Replicated

-- Reads by namespace and name; of a pod, its owners.
pub record ClusterReader : Type 0 where
  pub deployment_at : String → String → Result Replicated
  pub stateful_set_at : String → String → Result Replicated
  pub daemon_set_at : String → String → Result DaemonSet
  pub replica_set_at : String → String → Result ReplicaSet
  pub pod_at : String → String → Result (List OwnerReference)

-- A workload, nothing to measure, or a failure to measure.
abbrev pub Measured : Type 0
Measured = Result (Option Workload)

replicas_of : Option ℤ → ℤ
replicas_of none = pos 1
replicas_of (some n) = n

-- The error of a read names the target.
unfoldable pub naming : {A : Type 0} → Target → Result A → Result A
naming t (ok found) = ok found
naming t (err e) = err (wrapf (str "read " ∷ str (to_string t) ∷ []) e)

-- `get`, with the read of a kind.
unfoldable pub read :
    {A : Type 0}
    → Option ClusterReader
    → (ClusterReader → String → String → Result A)
    → Target
    → Result A
unfolding naming
read none at_key t = err (errorf (str "no client" ∷ []))
read (some r) at_key t = naming t (at_key r t.namespace t.name)

measured_replicas : Target → Result Replicated → Measured
unfolding replicas_of
measured_replicas t (err e) = err e
measured_replicas t (ok d) = ok (
    some (record {
      name = to_string t;
      desired = replicas_of d.replicas;
      available = d.available_replicas;
    }))

measured_daemons : Target → Result DaemonSet → Measured
measured_daemons t (err e) = err e
measured_daemons t (ok d) = ok (
    some (record {
      name = to_string t;
      desired = d.desired_number_scheduled;
      available = d.number_available;
    }))

unfoldable pub deployment : Option ClusterReader → Target → Measured
unfolding read measured_replicas
deployment r t = measured_replicas t (read r (λ c. c.deployment_at) t)

unfoldable pub stateful_set : Option ClusterReader → Target → Measured
unfolding read measured_replicas
stateful_set r t = measured_replicas t (read r (λ c. c.stateful_set_at) t)

unfoldable pub daemon_set : Option ClusterReader → Target → Measured
unfolding read measured_daemons
daemon_set r t = measured_daemons t (read r (λ c. c.daemon_set_at) t)

is_controller : OwnerReference → Bool
is_controller o = elim o.controller [ none ↦ false | some b ↦ b ]

unfoldable pub controller_of : List OwnerReference → Option OwnerReference
unfolding is_controller
controller_of [] = none
controller_of (o ∷ os) = let rest = controller_of os in if is_controller o then some o else rest

bare_replica_set : String → ReplicaSet → Measured
unfolding replicas_of
bare_replica_set namespace rs = ok (
    some (record {
      name = append "replicaset/" (append namespace (append "/" rs.name));
      desired = replicas_of rs.spec.replicas;
      available = rs.spec.available_replicas;
    }))

-- From the ReplicaSet that owns a pod on.
unfoldable pub behind_replica_set :
    Option ClusterReader → String → ReplicaSet → Option OwnerReference → Measured
unfolding bare_replica_set deployment
behind_replica_set r namespace rs none = bare_replica_set namespace rs
behind_replica_set r namespace rs (some owner) =
    if str_eq owner.kind "Deployment"
    then deployment r (record { kind = "Deployment"; namespace = namespace; name = owner.name })
    else bare_replica_set namespace rs

-- The direct read of a ReplicaSet; it is reached through a pod that was read, so there is a reader.
unfoldable pub replica_set_of_pod : Option ClusterReader → String → String → Measured
unfolding behind_replica_set
replica_set_of_pod none namespace name = err (errorf (str "no client" ∷ []))
replica_set_of_pod (some c) namespace name = elim (c.replica_set_at namespace name) [
  | err e ↦ err (wrapf (str "read replicaset/" ∷ str namespace ∷ str "/" ∷ str name ∷ []) e)
  | ok rs ↦ behind_replica_set (some c) namespace rs (controller_of rs.owners)
]

unfoldable pub behind_owner : Option ClusterReader → String → Option OwnerReference → Measured
unfolding replica_set_of_pod stateful_set daemon_set
behind_owner r namespace none = ok none
behind_owner r namespace (some owner) =
    let at_kind : String → Target =
      λ kind. record { kind = kind; namespace = namespace; name = owner.name } in
    if str_eq owner.kind "ReplicaSet"
    then replica_set_of_pod r namespace owner.name
    else if str_eq owner.kind "StatefulSet"
    then stateful_set r (at_kind "StatefulSet")
    else if str_eq owner.kind "DaemonSet"
    then daemon_set r (at_kind "DaemonSet")
    else ok none

unfoldable pub behind_pod : Option ClusterReader → Target → Measured
unfolding read behind_owner
behind_pod r t = elim (read r (λ c. c.pod_at) t) [
  | err e ↦ err e
  | ok owners ↦ behind_owner r t.namespace (controller_of owners)
]

-- The switch on the kind, in small letters.
unfoldable pub by_kind : Option ClusterReader → Target → Measured
unfolding deployment stateful_set daemon_set behind_pod
by_kind r t =
    let kind = to_lower t.kind in
    if str_eq kind "deployment"
    then deployment r t
    else if str_eq kind "statefulset"
    then stateful_set r t
    else if str_eq kind "daemonset"
    then daemon_set r t
    else if str_eq kind "pod"
    then behind_pod r t
    else ok none

-- `Workload`, on the text of a target.
unfoldable pub workload : Option ClusterReader → String → Measured
unfolding by_kind
workload r target =
    if str_eq target ""
    then ok none
    else elim (parse_target target) [ err e ↦ ok none | ok t ↦ by_kind r t ]
