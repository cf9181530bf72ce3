-- ===== src/Action/Restart/Waits.antt =====
-- internal/action/workload/restart.go: what a rollout that is called done has reached.
use remedik.Base.{
  true, false, lt_ℤ, ◌≡◌, Text, List, [], ◌∷◌, Result, ok, err, none, refl, ap, ◌∙◌, sym,
}
use mathlib.Core.Logic.{inl, inr}
use remedik.Base.Tests.{Bool-cases}
use native.Mathlib.Omega.{arith}
use remedik.Base.Lists.{Member}
use remedik.Action.Restart.{Rollout, describe, verify_from}

-- A rollout is done only when its controller has seen the generation, every replica asked for is
-- updated and available, and none of the old ones is left.
pub describe-done :
    (r : Rollout)
    → (describe r).1 ≡ true
    → (lt_ℤ r.observed r.generation ≡ false)
      × (lt_ℤ r.updated r.desired ≡ false)
      × (lt_ℤ r.updated r.current ≡ false)
      × (lt_ℤ r.available r.desired ≡ false)
unfolding describe
describe-done r done = ground arith

abbrev Ended : Text → List (Result Rollout) → Type 0
Ended last reads =
    (r : Rollout) × Member (ok r) reads
    × ((describe r).1 ≡ true)
    × ((verify_from last reads).0.summary ≡ (describe r).0)

ends :
    (last : Text) (r : Rollout) (reads : List (Result Rollout))
    → (describe r).1 ≡ true
    → (verify_from last (ok r ∷ reads)).0.summary ≡ (describe r).0
unfolding verify_from
ends last r reads d = simp (d)

goes_on :
    (last : Text) (r : Rollout) (reads : List (Result Rollout))
    → (describe r).1 ≡ false
    → verify_from last (ok r ∷ reads) ≡ verify_from (describe r).0 reads
unfolding verify_from
goes_on last r reads d = simp (d)

later :
    (last : Text) (r : Rollout) (reads : List (Result Rollout))
    → (describe r).1 ≡ false
    → Ended (describe r).0 reads
    → Ended last (ok r ∷ reads)
later last r reads d (s, there, done, says) =
    (s, inr there, done, ap (λ o. o.0.summary) (goes_on last r reads d) ∙ says)

-- When a wait returns no error, one of its reads says that the rollout is done, and the report is
-- what that read says.
pub verify_from-done :
    (last : Text) (reads : List (Result Rollout))
    → (verify_from last reads).1 ≡ none
    → Ended last reads
unfolding verify_from
verify_from-done last [] h = absurd (cc h)
verify_from-done last (err e ∷ reads) h = absurd (cc h)
verify_from-done last (ok r ∷ reads) h = elim (Bool-cases (describe r).1) [
  | inl d ↦ (r, inl refl, d, ends last r reads d)
  | inr d ↦
      later last r reads d
        (verify_from-done (describe r).0 reads (ap (λ o. o.1) (sym (goes_on last r reads d)) ∙ h))
]
