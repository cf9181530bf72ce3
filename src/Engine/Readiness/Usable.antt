-- ===== src/Engine/Readiness/Usable.antt =====
-- internal/engine/strategy.go and internal/action/action.go: which strategies are ready.
use remedik.Base.{
  ℕ, ◌+◌, ◌≡◌, refl, ◌↔◌, Bool, true, false, Option, none, some, List, [], ◌∷◌, ok, err, Error, ℤ,
  all, arith,
}
use remedik.Base.Assoc.{string_eq}
use remedik.Action.{Registry, get_action, has_action, validate_from, validate_names}
use remedik.Api.{Strategy, Step}
use remedik.Engine.Readiness.{verdict, ready, not_ready, action_names, readiness}

verdict_ready :
    (generation : ℤ) (plan escalation : Option Error)
    → ((verdict generation plan escalation).is_true ≡ true) ↔ ((plan ≡ none) × (escalation ≡ none))
unfolding verdict ready not_ready
verdict_ready generation none none = (λ x. (refl, refl), λ x. refl)
verdict_ready generation none (some e) = (λ x. absurd (cc x), λ x. absurd (cc x.1))
verdict_ready generation (some e) escalation = (λ x. absurd (cc x), λ x. absurd (cc x.0))

module _ {W : Type 0} where
  -- The runner finds an action for the step.
  unfoldable pub runs : Registry W → Step → Bool
  runs registry s = elim (get_action registry s.action) [ ok a ↦ true | err e ↦ false ]

  runs-has_action :
      (registry : Registry W) (s : Step) → runs registry s ≡ has_action registry s.action
  unfolding runs get_action has_action
  runs-has_action registry s = ground arith

  validate_from-runs :
      (registry : Registry W) (i : ℕ) (steps : List Step)
      → (validate_from registry i (action_names steps) ≡ none) ↔ (all (runs registry) steps ≡ true)
  unfolding validate_from action_names all
  validate_from-runs registry i [] = (λ x. refl, λ x. refl)
  validate_from-runs registry i (s ∷ steps) =
      let (to, from) = validate_from-runs registry (i + 1) steps in
      let same = runs-has_action registry s in
      (λ x. ground (arith, x, to, same), λ x. ground (arith, x, from, same))

  validate_names-runs :
      (registry : Registry W) (steps : List Step)
      → (validate_names registry (action_names steps) ≡ none) ↔ (all (runs registry) steps ≡ true)
  unfolding validate_names
  validate_names-runs registry steps = validate_from-runs registry 0 steps

  -- A strategy is ready exactly when the runner finds an action for every step of its plan and of its
  -- escalation.
  pub readiness-runs :
      (registry : Registry W) (generation : ℤ) (s : Strategy)
      → ((readiness registry generation s).is_true ≡ true)
        ↔ ((all (runs registry) s.steps ≡ true) × (all (runs registry) s.failure_steps ≡ true))
  unfolding readiness
  readiness-runs registry generation s =
      let (to, from) =
        verdict_ready generation (validate_names registry (action_names s.steps))
          (validate_names registry (action_names s.failure_steps)) in
      let (plan_to, plan_from) = validate_names-runs registry s.steps in
      let (last_to, last_from) = validate_names-runs registry s.failure_steps in
      (λ x. (plan_to (to x).0, last_to (to x).1), λ y. from (plan_from y.0, last_from y.1))
