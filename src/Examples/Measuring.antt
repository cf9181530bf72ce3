-- ===== src/Examples/Measuring.antt =====
-- The theorems on workloads, on the readiness of a strategy and on scaling, on concrete data.
use Prim.Native.Nat.{min}
use remedik.Base.{
  ◌+◌, ◌≤◌, ◌<◌, ◌≡◌, refl, inl, inr, ◌↔◌, String, true, false, none, some, [], ◌∷◌, ℤ, pos, arith,
  all, ok, err, errorf,
}
use remedik.Action.Targets.{to_string}
use remedik.Action.{Request}
use remedik.Action.Scale.{ScaleClient, missing}
use remedik.Action.Scale.Count.{max_int32, increased_by}
use remedik.Action.Scale.Bounds.{increased_by-exact}
use remedik.Engine.Workload.{OwnerReference, ReplicaSet, ClusterReader, controller_of, workload}
use remedik.Engine.Workload.Owners.{Behind, Plain, in_namespace, workload-pod}
use remedik.Engine.Readiness.{readiness}
use remedik.Engine.Readiness.Usable.{runs, readiness-runs}
use remedik.Examples.Cluster.{actions}
use remedik.Examples.Delivering.{strategy}

abbrev controls : String → String → OwnerReference
controls kind name = record { kind = kind; name = name; controller = some true }

abbrev web_set : ReplicaSet
web_set = record {
  name = "web-7d9";
  owners = controls "Deployment" "web" ∷ [];
  spec = record { replicas = some (pos 3); available_replicas = pos 2 };
}

abbrev reader : ClusterReader
reader = record {
  deployment_at =
      λ namespace name. ok (record { replicas = some (pos 3); available_replicas = pos 2 });
  stateful_set_at = λ namespace name. err (errorf []);
  daemon_set_at = λ namespace name. err (errorf []);
  replica_set_at = λ namespace name. ok web_set;
  pod_at = λ namespace name. ok (controls "ReplicaSet" "web-7d9" ∷ []);
}

web_pod : Behind reader "shop" "web-7d9-x" "web"
unfolding controller_of
web_pod = record {
  owners = controls "ReplicaSet" "web-7d9" ∷ [];
  owner = controls "ReplicaSet" "web-7d9";
  set = web_set;
  above = controls "Deployment" "web";
  pod_there = refl;
  pod_owned = refl;
  by_set = refl;
  set_there = refl;
  set_owned = refl;
  by_deployment = refl;
  same_name = refl;
}

pod-Plain : Plain "shop" "web-7d9-x"
pod-Plain = record {
  namespace_is_one_part = ground arith;
  name_is_one_part = ground arith;
  is_named = refl;
}

web-Plain : Plain "shop" "web"
web-Plain = record {
  namespace_is_one_part = ground arith;
  name_is_one_part = ground arith;
  is_named = refl;
}

workload-pod_example :
    workload (some reader) (to_string (in_namespace "Pod" "shop" "web-7d9-x"))
    ≡ workload (some reader) (to_string (in_namespace "Deployment" "shop" "web"))
workload-pod_example = workload-pod reader "shop" "web-7d9-x" "web" web_pod pod-Plain web-Plain

readiness-runs_example : ((readiness actions (pos 1) strategy).is_true ≡ true) ↔ (
    (all (runs actions) strategy.steps ≡ true) × (all (runs actions) strategy.failure_steps ≡ true))
readiness-runs_example = readiness-runs actions (pos 1) strategy

increased_by-exact_example :
    (increased_by (pos 3) (pos 5) (pos 4) ≡ ok (pos 5))
    ↔ ((3 + 4 ≤ max_int32) × (3 < 5) × (5 ≡ min 5 (3 + 4)))
increased_by-exact_example =
    increased_by-exact 3 5 4 5 (omega arith) (omega arith) (omega arith) (omega arith)

abbrev pub scaling : Request
scaling = record {
  target = in_namespace "Deployment" "shop" "web";
  params = ("increaseBy", "2") ∷ ("max", "5") ∷ [];
  labels = [];
  remediation = "shop-1";
  strategy = "scale-web";
  namespace = "remedik";
  dry_run = false;
}

-- The state is the number of replicas.
abbrev scale_client : ScaleClient ℤ
scale_client = record {
  deployment_at = λ namespace name w. inl (record { replicas = some w });
  autoscalers_in = λ namespace w. inl [];
  autoscaler_at = λ namespace name w. inr (record { kind = missing; error = errorf [] });
  patch_scale = λ namespace name n w. (none, n);
  patch_ceiling = λ namespace name n w. (none, w);
}
