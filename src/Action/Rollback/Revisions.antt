-- ===== src/Action/Rollback/Revisions.antt =====
-- internal/action/workload/rollback.go: which revision is chosen.
use remedik.Base.{
  ◌≡◌, refl, sym, subst, ◌∙◌, inl, inr, Bool-cases, if◌then◌else◌, Bool, true, Option, none, some,
  List, [], ◌∷◌, ℤ, ◌≤ℤ◌, ◌<ℤ◌, lt_ℤ, le_ℤ, arith, all, keep, ap, pos, Error, Result, ok, err,
  Option-cases,
}
use remedik.Action.{Request}
use remedik.Action.Rollback.{
  ReplicaSet, Deployment, Rollback, rev, revision_of, is_owned, owned_replica_sets,
  insert_by_revision, newest_first, previous, nothing_earlier, chosen, choose, choose_owned,
  requested_revision, check_git_ops, rollback_target,
}

-- No revision between `r` and the current one.
abbrev pub is_closest : ℤ → ReplicaSet → ReplicaSet → Bool
is_closest current r s = if lt_ℤ (rev s) current then le_ℤ (rev s) (rev r) else true

abbrev Descending : List ReplicaSet → Type 0
Descending [] = Unit
Descending (r ∷ rs) = (all (λ s. le_ℤ (rev s) (rev r)) rs ≡ true) × Descending rs

all-insert :
    (p : ReplicaSet → Bool) (r : ReplicaSet) (rs : List ReplicaSet)
    → all p (insert_by_revision r rs) ≡ all p (r ∷ rs)
unfolding insert_by_revision all
all-insert p r [] = refl
all-insert p r (q ∷ rs) = ground (arith, all-insert p r rs)

all-newest_first :
    (p : ReplicaSet → Bool) (rs : List ReplicaSet) → all p (newest_first rs) ≡ all p rs
unfolding newest_first all
all-newest_first p [] = refl
all-newest_first p (r ∷ rs) =
    ground (arith, all-insert p r (newest_first rs), all-newest_first p rs)

all-weaker :
    (p q : ReplicaSet → Bool) (rs : List ReplicaSet)
    → ((s : ReplicaSet) → p s ≡ true → q s ≡ true)
    → all p rs ≡ true
    → all q rs ≡ true
unfolding all
all-weaker p q [] h a = refl
all-weaker p q (r ∷ rs) h a = ground (arith, all-weaker p q rs h, h r)

all-below :
    (q r : ReplicaSet) (rs : List ReplicaSet)
    → rev q ≤ℤ rev r
    → all (λ s. le_ℤ (rev s) (rev q)) rs ≡ true
    → all (λ s. le_ℤ (rev s) (rev r)) rs ≡ true
all-below q r rs h a =
    all-weaker (λ s. le_ℤ (rev s) (rev q)) (λ s. le_ℤ (rev s) (rev r)) rs
      (λ s x. ground (arith, h, x)) a

insert-Descending :
    (r : ReplicaSet) (rs : List ReplicaSet) → Descending rs → Descending (insert_by_revision r rs)
unfolding insert_by_revision all
insert-Descending r [] d = (refl, tt)
insert-Descending r (q ∷ rs) d = ground (
  arith,
  insert-Descending r rs d.1,
  all-insert (λ s. le_ℤ (rev s) (rev q)) r rs,
  all-below q r rs,
)

newest_first-Descending : (rs : List ReplicaSet) → Descending (newest_first rs)
unfolding newest_first
newest_first-Descending [] = tt
newest_first-Descending (r ∷ rs) =
    insert-Descending r (newest_first rs) (newest_first-Descending rs)

previous-closest :
    (current : ℤ) (rs : List ReplicaSet) (r : ReplicaSet)
    → Descending rs
    → previous current rs ≡ some r
    → (rev r <ℤ current) × (all (is_closest current r) rs ≡ true)
unfolding previous all
previous-closest current [] r d e = absurd (cc e)
previous-closest current (q ∷ rs) r d e = elim (Bool-cases (lt_ℤ (rev q) current)) [
  | inl earlier ↦
      let same : q ≡ r = ground (arith, e, earlier) in
      subst (λ x. (rev x <ℤ current) × (all (is_closest current x) (q ∷ rs) ≡ true)) same
        (
          ground (arith, earlier),
          ground (
            arith,
            earlier,
            all-weaker (λ s. le_ℤ (rev s) (rev q)) (is_closest current q) rs
                (λ s x. ground (arith, x)) d.0,
          ),
        )
  | inr later ↦
      let rest = previous-closest current rs r d.1 (ground (arith, e, later)) in
      (rest.0, ground (arith, rest.1, later))
]

previous-passes :
    (p : ReplicaSet → Bool) (current : ℤ) (rs : List ReplicaSet) (r : ReplicaSet)
    → all p rs ≡ true
    → previous current rs ≡ some r
    → p r ≡ true
unfolding previous all
previous-passes p current [] r a e = absurd (cc e)
previous-passes p current (q ∷ rs) r a e = elim (Bool-cases (lt_ℤ (rev q) current)) [
  | inl earlier ↦
      let same : q ≡ r = ground (arith, e, earlier) in
      subst (λ x. p x ≡ true) same (ground (arith, a))
  | inr later ↦ previous-passes p current rs r (ground (arith, a)) (ground (arith, e, later))
]

previous-newest :
    (p : ReplicaSet → Bool) (current : ℤ) (sets : List ReplicaSet) (r : ReplicaSet)
    → all p sets ≡ true
    → previous current (newest_first sets) ≡ some r
    → (rev r <ℤ current) × (all (is_closest current r) sets ≡ true) × (p r ≡ true)
previous-newest p current sets r a e =
    let (below, closest) =
      previous-closest current (newest_first sets) r (newest_first-Descending sets) e in
    (
      below,
      sym (all-newest_first (is_closest current r) sets) ∙ closest,
      previous-passes p current (newest_first sets) r (all-newest_first p sets ∙ a) e,
    )

all-keep : (p : ReplicaSet → Bool) (rs : List ReplicaSet) → all p (keep p rs) ≡ true
unfolding all keep
all-keep p [] = refl
all-keep p (r ∷ rs) = ground (arith, all-keep p rs)

-- What a rollback to no revision in particular chooses among the owned ones.
pub record Closest (p : ReplicaSet → Bool) (current : ℤ) (sets : List ReplicaSet) (back : Rollback)
    : Type 0 where
  pub from_current : back.current ≡ current
  pub its_revision : back.revision ≡ rev back.replica_set
  pub earlier : rev back.replica_set <ℤ current
  pub none_between : all (is_closest current back.replica_set) sets ≡ true
  pub passes : p back.replica_set ≡ true

ok_path : (a b : Rollback) → Path (Result Rollback) (ok a) (ok b) → a ≡ b
ok_path a b e = ap (λ r. elim r as (λ x. Rollback) [ ok q ↦ q | err x ↦ a ]) e

chosen-Closest :
    (p : ReplicaSet → Bool) (current : ℤ) (sets : List ReplicaSet) (back : Rollback)
    (found : Option ReplicaSet) (x : Error)
    → all p sets ≡ true
    → previous current (newest_first sets) ≡ found
    → chosen current found x ≡ ok back
    → Closest p current sets back
unfolding chosen
chosen-Closest p current sets back none x a f e = absurd (cc e)
chosen-Closest p current sets back (some r) x a f e =
    let (below, closest, passes) = previous-newest p current sets r a f in
    subst (Closest p current sets) (ok_path _ back e) (record {
      from_current = refl;
      its_revision = refl;
      earlier = below;
      none_between = closest;
      passes = passes;
    })

choose_owned-Closest :
    (req : Request) (d : Deployment) (p : ReplicaSet → Bool) (owned : List ReplicaSet)
    (back : Rollback)
    → all p owned ≡ true
    → requested_revision req.params ≡ ok (pos 0)
    → choose_owned req d owned ≡ ok back
    → Closest p (revision_of d.annotations) owned back
unfolding choose_owned choose
choose_owned-Closest req d p [] back a w e = absurd (cc e)
choose_owned-Closest req d p (r ∷ rs) back a w e =
    chosen-Closest p (revision_of d.annotations) (r ∷ rs) back
      (previous (revision_of d.annotations) (newest_first (r ∷ rs)))
      (nothing_earlier req.target (revision_of d.annotations)) a refl (ground (arith, e, w))

-- Where the step names no revision, a rollback that is not refused returns to the closest kept one: a
-- ReplicaSet that the Deployment controls, of a revision below the current one, with no revision of
-- another owned ReplicaSet between the two; and no marker of a GitOps controller forbade it.
pub rollback_target-Closest :
    (req : Request) (d : Deployment) (sets : List ReplicaSet) (back : Rollback)
    → requested_revision req.params ≡ ok (pos 0)
    → rollback_target req d (ok sets) ≡ ok back
    → Closest (is_owned d) (revision_of d.annotations) (owned_replica_sets d sets) back
      × (check_git_ops d req ≡ none)
unfolding rollback_target owned_replica_sets
rollback_target-Closest req d sets back w e = elim (Option-cases (check_git_ops d req)) [
  | inr (x, refused) ↦ absurd (ground (arith, e, refused))
  | inl free ↦ (
    choose_owned-Closest req d (is_owned d) (owned_replica_sets d sets) back
        (all-keep (is_owned d) sets) w (ground (arith, e, free)),
    free,
  )
]
