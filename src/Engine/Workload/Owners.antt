-- ===== src/Engine/Workload/Owners.antt =====
-- internal/engine/workload.go: the workload behind a pod.
use Prim.Native.Char.{Char}
use Prim.Native.String.{◌++◌ as append}
use text.Mathlib.TextLemmas.{cons-append}
use text.Mathlib.Text.{◌==◌ as str_eq}
use remedik.Base.{
  String, ◌≡◌, refl, sym, ap, ◌∙◌, false, Option, some, List, Result, ok, err, to_lower, lower_char,
  lower_in, cons-nonempty, Bool-cases, inl, inr, arith,
}
use remedik.Action.Targets.{Target, to_string, is_zero}
use remedik.Action.Targets.RoundTrip.{HasNoSlash, lowered, read_lowered}
use remedik.Engine.Workload.{
  OwnerReference, ReplicaSet, ClusterReader, Replicated, naming, measured_replicas, read,
  deployment, controller_of, behind_replica_set, replica_set_of_pod, behind_owner, behind_pod,
  by_kind, workload,
}

abbrev pub in_namespace : String → String → String → Target
in_namespace kind namespace name = record { kind = kind; namespace = namespace; name = name }

-- The names that are joined in the text of a target.
pub record Plain (namespace name : String) : Type 0 where
  pub namespace_is_one_part : HasNoSlash namespace
  pub name_is_one_part : HasNoSlash name
  pub is_named : str_eq name "" ≡ false

-- The pod is controlled by a ReplicaSet, which a Deployment controls.
pub record Behind (c : ClusterReader) (namespace pod deployment : String) : Type 0 where
  pub owners : List OwnerReference
  pub owner : OwnerReference
  pub set : ReplicaSet
  pub above : OwnerReference
  pub pod_there : c.pod_at namespace pod ≡ ok owners
  pub pod_owned : controller_of owners ≡ some owner
  pub by_set : owner.kind ≡ "ReplicaSet"
  pub set_there : c.replica_set_at namespace owner.name ≡ ok set
  pub set_owned : controller_of set.owners ≡ some above
  pub by_deployment : above.kind ≡ "Deployment"
  pub same_name : above.name ≡ deployment

workload-by_kind :
    (r : Option ClusterReader) (kind namespace name : String)
    → HasNoSlash kind
    → str_eq kind "" ≡ false
    → Plain namespace name
    → str_eq (to_string (in_namespace kind namespace name)) "" ≡ false
    → workload r (to_string (in_namespace kind namespace name))
      ≡ by_kind r (lowered (in_namespace kind namespace name))
unfolding workload
workload-by_kind r kind namespace name k n p t =
    rw
      (
        t,
        read_lowered (in_namespace kind namespace name) k p.namespace_is_one_part p.name_is_one_part
            n p.is_named,
      )
      refl

replica_set-deployment :
    (c : ClusterReader) (namespace pod name : String) (b : Behind c namespace pod name)
    → replica_set_of_pod (some c) namespace b.owner.name
      ≡ deployment (some c) (in_namespace "Deployment" namespace name)
unfolding replica_set_of_pod behind_replica_set
replica_set-deployment c namespace pod name b =
    rw (b.set_there, replica_set_of_pod)
      (rw b.set_owned (
        rw b.by_deployment
          (ap (λ x. deployment (some c) (in_namespace "Deployment" namespace x)) b.same_name)))

owner-deployment :
    (c : ClusterReader) (namespace pod name : String) (b : Behind c namespace pod name)
    → behind_owner (some c) namespace (some b.owner)
      ≡ deployment (some c) (in_namespace "Deployment" namespace name)
unfolding behind_owner
owner-deployment c namespace pod name b =
    rw b.by_set (replica_set-deployment c namespace pod name b)

behind_pod-deployment :
    (c : ClusterReader) (namespace pod name : String) (b : Behind c namespace pod name)
    → behind_pod (some c) (in_namespace "pod" namespace pod)
      ≡ deployment (some c) (in_namespace "Deployment" namespace name)
unfolding behind_pod read naming
behind_pod-deployment c namespace pod name b =
    rw (b.pod_there, behind_pod)
      (ap (behind_owner (some c) namespace) b.pod_owned ∙ owner-deployment c namespace pod name b)

starts_so : (c : Char) (s t : String) → str_eq (append (String.◌∷◌ c s) t) "" ≡ false
starts_so c s t = rw (cons-append c s t) (cons-nonempty c (append s t))

pod-nonempty :
    (namespace pod : String) → str_eq (to_string (in_namespace "Pod" namespace pod)) "" ≡ false
unfolding to_string to_lower lower_char lower_in is_zero
pod-nonempty namespace pod = elim (Bool-cases (str_eq namespace "")) [
  | inl e ↦ rw e (starts_so "p" "od" _)
  | inr e ↦ rw e (starts_so "p" "od" _)
]

deployment-nonempty :
    (namespace name : String)
    → str_eq (to_string (in_namespace "Deployment" namespace name)) "" ≡ false
unfolding to_string to_lower lower_char lower_in is_zero
deployment-nonempty namespace name = elim (Bool-cases (str_eq namespace "")) [
  | inl e ↦ rw e (starts_so "d" "eployment" _)
  | inr e ↦ rw e (starts_so "d" "eployment" _)
]

small_name :
    (namespace name : String) (x : Result Replicated)
    → let t = in_namespace "Deployment" namespace name in
      let small = in_namespace "deployment" namespace name in
      measured_replicas t (naming t x) ≡ measured_replicas small (naming small x)
unfolding measured_replicas naming to_string to_lower lower_char lower_in is_zero
small_name namespace name (ok d) = refl
small_name namespace name (err e) = refl

small_kind :
    (c : ClusterReader) (namespace name : String)
    → deployment (some c) (in_namespace "Deployment" namespace name)
      ≡ by_kind (some c) (lowered (in_namespace "Deployment" namespace name))
unfolding by_kind deployment read to_lower lower_char lower_in
small_kind c namespace name = small_name namespace name (c.deployment_at namespace name)

-- What the guard is told of a pod is what it is told of the Deployment behind it: for a pod that a
-- ReplicaSet controls, which a Deployment controls, the reader answers as for the Deployment's own
-- target, name, counts and errors included. The names are no texts with a slash, and not empty.
pub workload-pod :
    (c : ClusterReader) (namespace pod name : String)
    → Behind c namespace pod name
    → Plain namespace pod
    → Plain namespace name
    → workload (some c) (to_string (in_namespace "Pod" namespace pod))
      ≡ workload (some c) (to_string (in_namespace "Deployment" namespace name))
unfolding by_kind to_lower lower_char lower_in
workload-pod c namespace pod name b p q =
    workload-by_kind (some c) "Pod" namespace pod (ground arith) refl p (pod-nonempty namespace pod)
    ∙ behind_pod-deployment c namespace pod name b
    ∙ small_kind c namespace name
    ∙ sym (
        workload-by_kind (some c) "Deployment" namespace name (ground arith) refl q
          (deployment-nonempty namespace name))
