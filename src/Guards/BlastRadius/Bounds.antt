-- ===== src/Guards/BlastRadius/Bounds.antt =====
-- What the blastRadius guard of internal/guards/blastradius.go refuses.
use native.Mathlib.Nat.{le-div_iff_mul-le}
use remedik.Base.{
  ℕ, ◌+◌, ◌-◌, ◌*◌, ◌/◌, ◌≤◌, ◌<◌, ◌≡◌, refl, ◌⊎◌, inl, inr, ◌↔◌, String, true, false, Option, none,
  some, arith, pos, pos_part, ◌≤ℤ◌, ◌<ℤ◌, -ℤ_parts, Bool-cases, Result, ok, err,
}
use remedik.Guards.BlastRadius.{
  BlastRadius, Workload, Reader, configured, unavailable, unavailable_percent, measure, judge,
  evaluate_blast_radius, rejected, read_workload, refuse_unreadable,
}

ceil_lem : (k m d : ℕ) → 0 < d → (k + 1 ≤ (m + d - 1) / d) ↔ (k * d < m)
ceil_lem k m d h =
    (λ a. omega (arith, (le-div_iff_mul-le h).0 a), λ b. (le-div_iff_mul-le h).1 (omega arith))

-- Where the available replicas are not a negative number, the missing share is at most a hundred
-- percent, also where more than the desired replicas are there.
pub unavailable_percent-le : (w : Workload) → pos 0 ≤ℤ w.available → unavailable_percent w ≤ 100
unfolding unavailable_percent unavailable
unavailable_percent-le w h = ground (
  arith,
  (ceil_lem 100 (pos_part (unavailable w) * 100) (pos_part w.desired)),
  -ℤ_parts w.desired w.available,
)

-- Where replicas are desired, the missing share is rounded up: it is above a percentage exactly
-- when the missing replicas are, so that a limit of 25 refuses at anything above 24 percent.
pub unavailable_percent_iff :
    (w : Workload) (limit : ℕ)
    → pos 0 <ℤ w.desired
    → (limit + 1 ≤ unavailable_percent w)
      ↔ (limit * pos_part w.desired < pos_part (unavailable w) * 100)
unfolding unavailable_percent
unavailable_percent_iff w limit h =
    let (a, b) =
      ceil_lem limit (pos_part (unavailable w) * 100) (pos_part w.desired) (ground arith) in
    (λ x. ground (arith, a), λ x. ground (arith, b x))

-- The workload of a target has room: neither limit that is set is reached.
abbrev pub HasRoom : BlastRadius → Workload → Type 0
HasRoom cfg w =
    ((cfg.min_available ≤ℤ pos 0) ⊎ (cfg.min_available <ℤ w.available))
    × ((cfg.max_unavailable_percent ≤ℤ pos 0)
        ⊎ (pos (unavailable_percent w) <ℤ cfg.max_unavailable_percent))

-- What the reader answered lets the action through: nothing to measure, or a workload with room.
abbrev pub Permits : BlastRadius → Result (Option Workload) → Type 0
Permits cfg (err e) = ⊥
Permits cfg (ok none) = Unit {0}
Permits cfg (ok (some w)) = HasRoom cfg w

judge_iff :
    (cfg : BlastRadius) (target : String) (answer : Result (Option Workload))
    → ((judge cfg target answer).is_allowed ≡ true) ↔ Permits cfg answer
unfolding judge measure rejected refuse_unreadable
judge_iff cfg target (err e) = (λ a. ground arith, λ b. absurd b)
judge_iff cfg target (ok none) = (λ a. tt, λ b. refl)
judge_iff cfg target (ok (some w)) = (λ a. ground arith, λ b. ground arith)

-- The guard lets an action through exactly when neither limit is set, or a reader is there and it
-- answers that there is nothing to measure or a workload with room; so a missing reader and an
-- error of the reader refuse.
pub evaluate_blast_radius-allowed :
    (cfg : BlastRadius) (reader : Option Reader) (target : String)
    → ((evaluate_blast_radius cfg reader target).is_allowed ≡ true)
      ↔ ((configured cfg ≡ false) ⊎ Permits cfg (read_workload reader target))
unfolding evaluate_blast_radius
evaluate_blast_radius-allowed cfg reader target =
    let (to, from) = judge_iff cfg target (read_workload reader target) in
    elim (Bool-cases (configured cfg)) [
      | inl on ↦
          rw (on, evaluate_blast_radius)
            (λ a. inr (to a), λ b. elim b [ inl off ↦ cc | inr p ↦ from p ])
      | inr off ↦ rw (off, evaluate_blast_radius) (λ a. inl refl, λ b. refl)
    ]
