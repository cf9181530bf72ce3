-- ===== src/Examples/Guarding.antt =====
-- The theorems on the guards and their history, on concrete configurations and events.
use remedik.Base.{
  neg, ◌+◌, ◌*◌, ◌≤◌, ◌<◌, ◌≡◌, refl, true, false, some, List, [], ◌∷◌, arith, ℤ, pos, pos_part,
  ◌≤ℤ◌, ◌<ℤ◌, hour, minute, add, sub, ◌-ℤ◌, lt_ℤ, ◌↔◌, ◌⊎◌, ok,
}
use remedik.Base.Assoc.{string_eq, pair_eq}
use remedik.Guards.{
  rate_window, Config, History, evaluate, evaluate_cooldown, evaluate_rate, evaluate_give_up,
  since_last, reject_cooldown,
}
use remedik.Guards.Logged.{cooling, evaluate-logged}
use remedik.Guards.Limits.{
  Below, IsRested, HasBudget, StillHelps, evaluate-allowed, evaluate-give_up, cools, wait,
  retry_after_exact, retry_after_skewed,
}
use remedik.Guards.Memory.{as_history, starts_since, completions_since, last_completion}
use remedik.Guards.Memory.Slices.{is_from}
use remedik.Guards.Memory.Latest.{IsLatest}
use remedik.Guards.Memory.Holds.{tally}
use remedik.Guards.Memory.Log.{
  Event, start, completion, pruning, remembered, logged, starts_since-tally,
  completions_since-tally, last_completion-IsLatest,
}
use remedik.Guards.BlastRadius.{
  BlastRadius, Workload, Reader, configured, unavailable, unavailable_percent,
  evaluate_blast_radius, read_workload,
}
use remedik.Guards.BlastRadius.Bounds.{
  Permits, evaluate_blast_radius-allowed, unavailable_percent_iff, unavailable_percent-le,
}

abbrev pub strict : Config
strict = record {
  cooldown = pos (10 * minute);
  max_per_hour = pos 5;
  give_up_after = record { count = pos 3; within = pos hour };
}

-- Three completions, the last one two hours before `later`.
abbrev pub seen : History
seen = record {
  last_completion = λ strategy target. some (pos 0);
  starts_since = λ strategy since. 2;
  completions_since = λ strategy target since. 3;
}

abbrev pub later : ℤ
later = pos (2 * hour)

evaluate-allowed_example :
    ((evaluate strict (some seen) "restart-web" "deployment/shop/web" later).is_allowed ≡ true) ↔ (
      IsRested strict seen "restart-web" "deployment/shop/web" later
      × HasBudget strict seen "restart-web" "deployment/shop/web" later
      × StillHelps strict seen "restart-web" "deployment/shop/web" later)
evaluate-allowed_example =
    evaluate-allowed strict seen "restart-web" "deployment/shop/web" later (ground arith)

evaluate-give_up_example :
    IsRested strict seen "restart-web" "deployment/shop/web" later
    × HasBudget strict seen "restart-web" "deployment/shop/web" later
    × (pos 0 <ℤ pos hour)
    × (pos 0 <ℤ pos 3)
    × (pos 3 ≤ℤ pos 3)
unfolding evaluate evaluate_cooldown evaluate_rate evaluate_give_up since_last reject_cooldown sub
    add ◌-ℤ◌
evaluate-give_up_example =
    evaluate-give_up strict seen "restart-web" "deployment/shop/web" later (ground arith) refl

retry_after_exact_example :
    cools "restart-web" "web" (pos (10 * minute)) (pos 0) (pos (20 * minute))
    ≡ lt_ℤ (pos (20 * minute)) (
        add
          (pos (4 * minute))
          (wait "restart-web" "web" (pos (10 * minute)) (pos 0) (pos (4 * minute))))
unfolding since_last reject_cooldown sub ◌-ℤ◌
retry_after_exact_example =
    retry_after_exact "restart-web" "web" (pos (10 * minute)) (pos 0) (pos (4 * minute))
      (pos (20 * minute)) (ground arith) (ground arith) (ground arith) refl

retry_after_skewed_example :
    (wait "restart-web" "web" (pos 600) (pos 100) (pos 0) ≡ pos 600)
    × (cools "restart-web" "web"
          (pos 600)
          (pos 100)
          (add (pos 0) (wait "restart-web" "web" (pos 600) (pos 100) (pos 0)))
        ≡ true)
retry_after_skewed_example =
    retry_after_skewed "restart-web" "web" (pos 600) (pos 100) (pos 0) (ground arith) (ground arith)
      (ground arith)

-- Two starts out of order, a completion, a pruning and one more start.
abbrev pub events : List Event
events =
    start "restart-web" (pos 9)
    ∷ start "restart-web" (pos 4)
    ∷ completion "restart-web" "web" (pos 5)
    ∷ completion "restart-web" "web" (pos 2)
    ∷ pruning (pos 6)
    ∷ start "restart-web" (pos 11)
    ∷ []

starts_since-tally_example :
    starts_since (remembered (pos 3) events) "restart-web" (pos 9)
    ≡ tally (is_from (pos 9)) "restart-web" (logged (pos 3) events).started
starts_since-tally_example = starts_since-tally (pos 3) events "restart-web" (pos 9)

completions_since-tally_example :
    completions_since (remembered (pos 3) events) "restart-web" "web" (pos 3)
    ≡ tally (is_from (pos 3)) ("restart-web", "web") (logged (pos 3) events).completed
completions_since-tally_example = completions_since-tally (pos 3) events "restart-web" "web" (pos 3)

last_completion-IsLatest_example :
    IsLatest
      (last_completion (remembered (pos 3) events) "restart-web" "web")
      (λ p. tally p ("restart-web", "web") (logged (pos 3) events).completed)
last_completion-IsLatest_example = last_completion-IsLatest (pos 3) events "restart-web" "web"

abbrev pub quarter : BlastRadius
quarter = record { min_available = pos 2; max_unavailable_percent = pos 25 }

abbrev pub three_of_four : Workload
three_of_four = record { name = "web"; desired = pos 4; available = pos 3 }

abbrev pub reader : Reader
reader = λ target. ok (some three_of_four)

evaluate_blast_radius-allowed_example :
    ((evaluate_blast_radius quarter (some reader) "deployment/shop/web").is_allowed ≡ true) ↔ (
      (configured quarter ≡ false)
      ⊎ Permits quarter (read_workload (some reader) "deployment/shop/web"))
evaluate_blast_radius-allowed_example =
    evaluate_blast_radius-allowed quarter (some reader) "deployment/shop/web"

unavailable_percent_iff_example :
    (24 + 1 ≤ unavailable_percent three_of_four)
    ↔ (24 * 4 < pos_part (unavailable three_of_four) * 100)
unavailable_percent_iff_example = unavailable_percent_iff three_of_four 24 (ground arith)

unavailable_percent-le_example : unavailable_percent three_of_four ≤ 100
unavailable_percent-le_example = unavailable_percent-le three_of_four (ground arith)

evaluate-logged_example :
    let log = logged (pos hour) events in
    ((evaluate strict
        (some (as_history (remembered (pos hour) events)))
        "restart-web"
        "web"
        (pos 12)).is_allowed
      ≡ true)
    ↔ (((pos (10 * minute) ≤ℤ pos 0)
          ⊎ (tally (cooling (pos (10 * minute)) (pos 12)) ("restart-web", "web") log.completed ≡ 0))
        × Below (tally (is_from (add (pos 12) (neg rate_window))) "restart-web" log.started) (pos 5)
        × ((pos hour ≤ℤ pos 0)
            ⊎ Below
                (tally
                  (is_from (add (pos 12) (neg (pos hour))))
                  ("restart-web", "web")
                  log.completed)
                (pos 3)))
evaluate-logged_example =
    evaluate-logged (pos hour) events strict "restart-web" "web" (pos 12) (ground arith)
