-- ===== src/Guards/Limits.antt =====
-- Which executions the time guards of internal/guards/guards.go let through.
use remedik.Base.{
  ℕ, String, ◌≡◌, ◌⊎◌, ◌↔◌, Bool, true, not, Option, none, some, arith, ℤ, pos, ◌≤ℤ◌, ◌<ℤ◌, le_ℤ,
  lt_ℤ, neg, add, sub, max_duration, if◌then◌else◌, +ℤ_parts, -ℤ_parts, ◌+ℤ◌, ◌-ℤ◌, eq_of_parts,
}
use remedik.Guards.{
  Config, allowed, History, give_up_guard, rate_window, evaluate_cooldown, evaluate_rate,
  evaluate_give_up, evaluate, since_last, reject_cooldown,
}

-- A gap of at least `d`, also where `Sub` saturates.
le-sub : (t u d : ℤ) → pos 0 <ℤ d → d ≤ℤ max_duration → le_ℤ d (sub t u) ≡ le_ℤ (add u d) t
unfolding sub add
le-sub t u d h k = ground (arith, -ℤ_parts t u, +ℤ_parts u d)

-- The cooldown is over: it is not set, nothing completed, or the last completion is that old.
abbrev pub Rested : ℤ → ℤ → Option ℤ → Type 0
Rested cooldown now none = Unit {0}
Rested cooldown now (some last) = (cooldown ≤ℤ pos 0) ⊎ (add last cooldown ≤ℤ now)

-- The limit is not set, or the count is below it.
abbrev pub Below : ℕ → ℤ → Type 0
Below count limit = (limit ≤ℤ pos 0) ⊎ (pos count <ℤ limit)

since_last_iff :
    (strategy target : String) (cooldown now : ℤ) (last : Option ℤ)
    → cooldown ≤ℤ max_duration
    → ((if le_ℤ cooldown (pos 0)
          then allowed
          else since_last strategy target cooldown now last).is_allowed
        ≡ true)
      ↔ Rested cooldown now last
unfolding since_last
since_last_iff strategy target c now none k = (λ h. tt, λ h. ground arith)
since_last_iff strategy target c now (some last) k =
    (λ h. ground (arith, le-sub now last c), λ h. ground (arith, le-sub now last c))

module _ (cfg : Config) (h : History) (strategy target : String) (now : ℤ) where
  -- What each of the three guards asks.
  abbrev pub IsRested : Type 0
  IsRested = Rested cfg.cooldown now (h.last_completion strategy target)

  abbrev pub HasBudget : Type 0
  HasBudget = Below (h.starts_since strategy (add now (neg rate_window))) cfg.max_per_hour

  abbrev pub StillHelps : Type 0
  StillHelps =
      (cfg.give_up_after.within ≤ℤ pos 0)
      ⊎ Below (h.completions_since strategy target (add now (neg cfg.give_up_after.within)))
          cfg.give_up_after.count

  cooldown_iff :
      cfg.cooldown ≤ℤ max_duration
      → ((evaluate_cooldown cfg (some h) strategy target now).is_allowed ≡ true) ↔ IsRested
  unfolding evaluate_cooldown
  cooldown_iff = since_last_iff strategy target cfg.cooldown now (h.last_completion strategy target)

  rate_iff : ((evaluate_rate cfg (some h) strategy now).is_allowed ≡ true) ↔ HasBudget
  unfolding evaluate_rate
  rate_iff = (λ a. ground arith, λ b. ground arith)

  give_up_iff : ((evaluate_give_up cfg (some h) strategy target now).is_allowed ≡ true) ↔ StillHelps
  unfolding evaluate_give_up
  give_up_iff = (λ a. ground arith, λ b. ground arith)

  not_by_cooldown :
      (evaluate cfg (some h) strategy target now).guard ≡ some give_up_guard
      → (evaluate_cooldown cfg (some h) strategy target now).is_allowed ≡ true
  unfolding evaluate evaluate_cooldown since_last reject_cooldown
  not_by_cooldown e = ground arith

  not_by_rate :
      (evaluate cfg (some h) strategy target now).guard ≡ some give_up_guard
      → (evaluate_rate cfg (some h) strategy now).is_allowed ≡ true
  unfolding evaluate evaluate_rate evaluate_cooldown since_last reject_cooldown
  not_by_rate e = ground arith

  -- An execution is allowed exactly when the cooldown is over, the hourly budget is not spent, and
  -- the target has not been remediated too often in its window; the cooldown is a Go duration.
  pub evaluate-allowed :
      cfg.cooldown ≤ℤ max_duration
      → ((evaluate cfg (some h) strategy target now).is_allowed ≡ true)
        ↔ (IsRested × HasBudget × StillHelps)
  unfolding evaluate
  evaluate-allowed k = (
    λ a. (
      (cooldown_iff k).0 (ground arith),
      rate_iff.0 (ground arith),
      give_up_iff.0 (ground arith),
    ),
    λ b. ground (arith, (cooldown_iff k).1, rate_iff.1, give_up_iff.1),
  )

  -- The guard that pages somebody is named only where the cooldown is over, the hourly budget is not
  -- spent, and the limit of completions is set and reached in its window; the cooldown is a Go
  -- duration.
  pub evaluate-give_up :
      cfg.cooldown ≤ℤ max_duration
      → (evaluate cfg (some h) strategy target now).guard ≡ some give_up_guard
      → IsRested
        × HasBudget
        × (pos 0 <ℤ cfg.give_up_after.within)
        × (pos 0 <ℤ cfg.give_up_after.count)
        × (cfg.give_up_after.count
            ≤ℤ pos (h.completions_since strategy target (add now (neg cfg.give_up_after.within))))
  unfolding evaluate evaluate_give_up
  evaluate-give_up k e = (
    (cooldown_iff k).0 (not_by_cooldown e),
    rate_iff.0 (not_by_rate e),
    ground (arith, not_by_cooldown e, not_by_rate e),
    ground (arith, not_by_cooldown e, not_by_rate e),
    ground (arith, not_by_cooldown e, not_by_rate e),
  )

-- The verdict of the cooldown at a later moment, for the same last completion.
abbrev pub cools : String → String → ℤ → ℤ → ℤ → Bool
cools strategy target cooldown last now =
    not (since_last strategy target cooldown now (some last)).is_allowed

module _ (strategy target : String) (cooldown last now : ℤ) where
  abbrev pub wait : ℤ
  wait = (since_last strategy target cooldown now (some last)).retry_after

  -- Where a cooldown that is set refuses because of a completion that is not in the future, the
  -- reported wait is exact: at any moment, earlier or later, that completion makes the guard refuse
  -- if and only if the moment lies before the end of the wait. The cooldown is a Go duration.
  pub retry_after_exact :
      (later : ℤ)
      → pos 0 <ℤ cooldown
      → cooldown ≤ℤ max_duration
      → last ≤ℤ now
      → cools strategy target cooldown last now ≡ true
      → cools strategy target cooldown last later ≡ lt_ℤ later (add now wait)
  unfolding since_last reject_cooldown sub add
  retry_after_exact later p k past refused = ground (
    arith,
    -ℤ_parts now last,
    -ℤ_parts later last,
    -ℤ_parts cooldown (now -ℤ last),
    +ℤ_parts now (cooldown -ℤ (now -ℤ last)),
  )

  -- Where the completion lies in the future and a cooldown is set, the reported wait is the whole
  -- cooldown, and the guard still refuses when it is over. The cooldown is a Go duration.
  pub retry_after_skewed :
      pos 0 <ℤ cooldown
      → cooldown ≤ℤ max_duration
      → now <ℤ last
      → (wait ≡ cooldown) × (cools strategy target cooldown last (add now wait) ≡ true)
  unfolding since_last reject_cooldown sub add
  retry_after_skewed p k future = (
    ground (
      arith,
      -ℤ_parts now last,
      -ℤ_parts cooldown (pos 0),
      eq_of_parts (cooldown -ℤ pos 0) cooldown,
    ),
    ground (
      arith,
      -ℤ_parts now last,
      -ℤ_parts cooldown (pos 0),
      +ℤ_parts now (cooldown -ℤ pos 0),
      -ℤ_parts (now +ℤ (cooldown -ℤ pos 0)) last,
    ),
  )
