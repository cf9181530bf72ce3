-- ===== src/Guards/BlastRadius.antt =====
-- internal/guards/blastradius.go: the guard that looks at the cluster, through a reader that the
-- engine implements. An int32 or int is an integer.
pub mod Bounds
use remedik.Base.{
  ℕ, ◌+◌, ◌-◌, ◌*◌, ◌/◌, String, Bool, true, false, ◌||◌, ◌&&◌, Option, none, some, List, ◌∷◌, [],
  ◌++◌, Text, str, num, Error, errorf, Result, ok, err, ℤ, pos, pos_part, ◌-ℤ◌, le_ℤ, lt_ℤ,
  if◌then◌else◌,
}
use remedik.Guards.{Decision, allowed, blast_radius_guard}

pub record BlastRadius : Type 0 where
  pub min_available : ℤ
  pub max_unavailable_percent : ℤ

unfoldable pub configured : BlastRadius → Bool
configured b = lt_ℤ (pos 0) b.min_available || lt_ℤ (pos 0) b.max_unavailable_percent

pub record Workload : Type 0 where
  pub name : String
  pub desired : ℤ
  pub available : ℤ

pub unavailable : Workload → ℤ
unavailable w = if le_ℤ w.desired w.available then pos 0 else w.desired -ℤ w.available

-- The quotient is of numbers that are not negative, for which Go's `/` is the floor.
pub unavailable_percent : Workload → ℕ
unfolding unavailable
unavailable_percent w =
    let desired = pos_part w.desired in
    if le_ℤ w.desired (pos 0) then 0 else (pos_part (unavailable w) * 100 + desired - 1) / desired

refuse_unreadable : String → Error → Decision
refuse_unreadable target e = record {
  is_allowed = false;
  guard = some blast_radius_guard;
  reason =
      (str "cannot tell how much of "
        ∷ str target
        ∷ str " is available, so remedik will not act on it: "
        ∷ [])
      ++ e.text_of
      ++ str
          ". blastRadius needs read access to the workload; the chart grants it with guards.blastRadius.enabled=true"
        ∷ [];
  retry_after = pos 0;
}

too_few_reason : BlastRadius → Workload → Text
too_few_reason cfg w =
    str w.name
    ∷ str " has "
    ∷ num w.available
    ∷ str " of "
    ∷ num w.desired
    ∷ str " replicas available, and blastRadius.minAvailable is "
    ∷ num cfg.min_available
    ∷ str ": acting now could take it below what you said it must keep"
    ∷ []

too_degraded_reason : BlastRadius → Workload → Text
unfolding unavailable_percent
too_degraded_reason cfg w =
    num (pos (unavailable_percent w))
    ∷ str "% of "
    ∷ str w.name
    ∷ str " is already unavailable ("
    ∷ num (unavailable w)
    ∷ str " of "
    ∷ num w.desired
    ∷ str " replicas), and blastRadius.maxUnavailablePercent is "
    ∷ num cfg.max_unavailable_percent
    ∷ str ": it is already struggling without remedik adding to it"
    ∷ []

rejected : Text → Decision
rejected reason = record {
  is_allowed = false;
  guard = some blast_radius_guard;
  reason = reason;
  retry_after = pos 0;
}

measure : BlastRadius → Workload → Decision
unfolding too_few_reason too_degraded_reason rejected
measure cfg w =
    if lt_ℤ (pos 0) cfg.min_available && le_ℤ w.available cfg.min_available
    then rejected (too_few_reason cfg w)
    else if lt_ℤ (pos 0) cfg.max_unavailable_percent
        && le_ℤ cfg.max_unavailable_percent (pos (unavailable_percent w))
    then rejected (too_degraded_reason cfg w)
    else allowed

-- What `reader.Workload` answers: the workload, nothing to measure, or an error.
abbrev pub Reader : Type 0
Reader = String → Result (Option Workload)

judge : BlastRadius → String → Result (Option Workload) → Decision
unfolding measure refuse_unreadable
judge cfg target (err e) = refuse_unreadable target e
judge cfg target (ok none) = allowed
judge cfg target (ok (some w)) = measure cfg w

pub read_workload : Option Reader → String → Result (Option Workload)
read_workload none target = err (errorf (str "no workload reader is configured" ∷ []))
read_workload (some reader) target = reader target

unfoldable pub evaluate_blast_radius : BlastRadius → Option Reader → String → Decision
unfolding judge read_workload configured
evaluate_blast_radius cfg reader target =
    if configured cfg then judge cfg target (read_workload reader target) else allowed
