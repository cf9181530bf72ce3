-- ===== src/Guards.antt =====
-- internal/guards/guards.go: the guards that look at time, over an abstract read model of the
-- history. The children hold the in-memory history, the blastRadius guard, and the proofs.
pub mod Memory
pub mod BlastRadius
pub mod Limits
pub mod Logged
use remedik.Base.{
  ℕ, String, Bool, true, false, Option, none, some, ◌∷◌, [], Text, str, num, duration, ℤ, pos, le_ℤ,
  lt_ℤ, neg, hour, add, sub, rounded, ◌-ℤ◌, if◌then◌else◌,
}

pub data GuardName : Type 0 where
  cooldown_guard give_up_guard max_per_hour_guard blast_radius_guard : GuardName

pub record GiveUp : Type 0 where
  pub count : ℤ
  pub within : ℤ

pub record Config : Type 0 where
  pub cooldown : ℤ
  pub max_per_hour : ℤ
  pub give_up_after : GiveUp

-- The read model that the guards need.
pub record History : Type 0 where
  pub last_completion : String → String → Option ℤ
  pub starts_since : String → ℤ → ℕ
  pub completions_since : String → String → ℤ → ℕ

pub record Decision : Type 0 where
  pub is_allowed : Bool
  pub guard : Option GuardName
  pub reason : Text
  pub retry_after : ℤ

abbrev pub allowed : Decision
allowed = record { is_allowed = true; guard = none; reason = []; retry_after = pos 0 }

abbrev pub rate_window : ℤ
rate_window = pos hour

cooldown_reason : String → String → ℤ → ℤ → Text
cooldown_reason strategy target elapsed cooldown =
    str strategy
    ∷ str " completed on "
    ∷ str target
    ∷ str " "
    ∷ duration (rounded elapsed)
    ∷ str " ago, cooldown is "
    ∷ duration cooldown
    ∷ []

rate_reason : String → ℕ → ℤ → Text
rate_reason strategy started limit =
    str strategy
    ∷ str " started "
    ∷ num (pos started)
    ∷ str " executions in the last hour, limit is "
    ∷ num limit
    ∷ []

give_up_reason : String → String → ℕ → ℤ → Text
give_up_reason strategy target done within =
    str strategy
    ∷ str " has remediated "
    ∷ str target
    ∷ str " "
    ∷ num (pos done)
    ∷ str " times in the last "
    ∷ duration within
    ∷ str " and the problem keeps coming back; remediation is not fixing this and it needs a person"
    ∷ []

-- A completion in the future reads as one that has just happened.
unfoldable pub reject_cooldown : String → String → ℤ → ℤ → Decision
unfolding cooldown_reason
reject_cooldown strategy target cooldown gap =
    let elapsed = if lt_ℤ gap (pos 0) then pos 0 else gap in
    record {
      is_allowed = false;
      guard = some cooldown_guard;
      reason = cooldown_reason strategy target elapsed cooldown;
      retry_after = cooldown -ℤ elapsed;
    }

unfoldable pub since_last : String → String → ℤ → ℤ → Option ℤ → Decision
unfolding reject_cooldown
since_last strategy target cooldown now none = allowed
since_last strategy target cooldown now (some last) =
    if le_ℤ cooldown (sub now last)
    then allowed
    else reject_cooldown strategy target cooldown (sub now last)

unfoldable pub evaluate_cooldown : Config → Option History → String → String → ℤ → Decision
evaluate_cooldown cfg none strategy target now = allowed
evaluate_cooldown cfg (some h) strategy target now =
    if le_ℤ cfg.cooldown (pos 0)
    then allowed
    else since_last strategy target cfg.cooldown now (h.last_completion strategy target)

unfoldable pub evaluate_rate : Config → Option History → String → ℤ → Decision
unfolding rate_reason
evaluate_rate cfg none strategy now = allowed
evaluate_rate cfg (some h) strategy now =
    let started = h.starts_since strategy (add now (neg rate_window)) in
    if le_ℤ cfg.max_per_hour (pos 0)
    then allowed
    else if lt_ℤ (pos started) cfg.max_per_hour
    then allowed
    else record {
      is_allowed = false;
      guard = some max_per_hour_guard;
      reason = rate_reason strategy started cfg.max_per_hour;
      retry_after = pos 0;
    }

unfoldable pub evaluate_give_up : Config → Option History → String → String → ℤ → Decision
unfolding give_up_reason
evaluate_give_up cfg none strategy target now = allowed
evaluate_give_up cfg (some h) strategy target now =
    let limit = cfg.give_up_after in
    let done = h.completions_since strategy target (add now (neg limit.within)) in
    if le_ℤ limit.count (pos 0)
    then allowed
    else if le_ℤ limit.within (pos 0)
    then allowed
    else if lt_ℤ (pos done) limit.count
    then allowed
    else record {
      is_allowed = false;
      guard = some give_up_guard;
      reason = give_up_reason strategy target done limit.within;
      retry_after = pos 0;
    }

-- The first rejection wins.
unfoldable pub evaluate : Config → Option History → String → String → ℤ → Decision
evaluate cfg h strategy target now =
    let by_cooldown = evaluate_cooldown cfg h strategy target now in
    let by_rate = evaluate_rate cfg h strategy now in
    if by_cooldown.is_allowed
    then (if by_rate.is_allowed then evaluate_give_up cfg h strategy target now else by_rate)
    else by_cooldown
