-- ===== src/Examples/Rolling.antt =====
-- The theorem on rollbacks, on three kept revisions.
use remedik.Base.{◌≡◌, refl, true, none, some, List, [], ◌∷◌, String, pos, keep, any}
use remedik.Base.Assoc
use remedik.Action.{get_param}
use remedik.Action.Scale.Count.{digits_from, digits_of, signed, parse_int}
use remedik.Action.Rollback.{
  ReplicaSet, Deployment, Rollback, rev, revision_of, is_owner, is_owned, owned_replica_sets,
  insert_by_revision, newest_first, previous, chosen, choose, choose_owned, requested_revision,
  marker_error, check_git_ops, rollback_target,
}
use remedik.Action.Rollback.Revisions.{Closest, rollback_target-Closest}
use remedik.Examples.Measuring.{scaling}

abbrev kept : String → String → ReplicaSet
kept name revision = record {
  name = name;
  annotations = ("deployment.kubernetes.io/revision", revision) ∷ [];
  owners = record { uid = "u1"; controller = some true } ∷ [];
}

abbrev web : Deployment
web = record {
  uid = "u1";
  labels = [];
  annotations = ("deployment.kubernetes.io/revision", "7") ∷ [];
}

abbrev sets : List ReplicaSet
sets = kept "web-a" "5" ∷ kept "web-c" "7" ∷ kept "web-b" "6" ∷ []

abbrev back : Rollback
back = record { current = pos 7; revision = pos 6; replica_set = kept "web-b" "6" }

rollback_target-Closest_example :
    Closest (is_owned web) (revision_of web.annotations) (owned_replica_sets web sets) back
    × (check_git_ops web scaling ≡ none)
unfolding requested_revision rollback_target owned_replica_sets is_owned is_owner insert_by_revision
    newest_first previous chosen choose choose_owned marker_error check_git_ops parse_int signed
    digits_of digits_from get_param Assoc.get keep any rev revision_of
rollback_target-Closest_example = rollback_target-Closest scaling web sets back refl refl
