-- ===== src/Guards/Logged.antt =====
-- The time guards of internal/guards/guards.go over the history of internal/guards/memory.go, against
-- the log of the events that the history was told of.
use remedik.Base.{
  ℕ, ◌≤◌, ◌≡◌, refl, sym, subst, ◌⊎◌, inl, inr, ◌↔◌, String, Bool, true, Option, none, some, List,
  [], ◌∷◌, arith, ℤ, pos, ◌≤ℤ◌, lt_ℤ, eq_ℤ, neg, add, +ℤ_parts, max_duration, Bool-cases,
}
use remedik.Base.Assoc.{string_eq, pair_eq}
use remedik.Guards.{Config, rate_window, evaluate}
use remedik.Guards.Limits.{Rested, Below, evaluate-allowed}
use remedik.Guards.Memory.{as_history, last_completion}
use remedik.Guards.Memory.Holds.{tally}
use remedik.Guards.Memory.Latest.{IsLatest}
use remedik.Guards.Memory.Slices.{is_from}
use remedik.Guards.Memory.Log.{
  Event, remembered, logged, starts_since-tally, completions_since-tally, last_completion-IsLatest,
}

-- A completion at `t` whose cooldown is not over at `now`.
abbrev pub cooling : ℤ → ℤ → ℤ → Bool
cooling cooldown now t = lt_ℤ now (add t cooldown)

tally-le :
    (p q : ℤ → Bool) (key : String × String) (es : List ((String × String) × ℤ))
    → ((t : ℤ) → p t ≡ true → q t ≡ true)
    → tally p key es ≤ tally q key es
unfolding tally
tally-le p q key [] h = omega arith
tally-le p q key ((j, t) ∷ es) h = ground (arith, h t, tally-le p q key es h)

Rested-cooling :
    (cooldown now : ℤ) (last : Option ℤ) (key : String × String) (es : List ((String × String) × ℤ))
    → IsLatest last (λ p. tally p key es)
    → Rested cooldown now last ↔ ((cooldown ≤ℤ pos 0) ⊎ (tally (cooling cooldown now) key es ≡ 0))
unfolding add
Rested-cooling c now none key es h =
    (λ x. inr (ground (arith, tally-le (cooling c now) (λ t. true) key es (λ t e. refl))), λ x. tt)
Rested-cooling c now (some l) key es (at, after) = (
  λ x. elim x [
    | inl off ↦ inl off
    | inr over ↦
        let less =
          tally-le (cooling c now) (lt_ℤ l) key es
            (λ t e. ground (arith, +ℤ_parts t c, +ℤ_parts l c)) in
        inr (ground (arith, less))
  ],
  λ x. elim x [
    | inl off ↦ inl off
    | inr none_left ↦ elim (Bool-cases (lt_ℤ now (add l c))) [
      | inl cools ↦
          let less =
            tally-le (eq_ℤ l) (cooling c now) key es
              (λ t e. ground (arith, cools, +ℤ_parts t c, +ℤ_parts l c)) in
          absurd (ground (arith, less))
      | inr over ↦ inr (ground arith)
    ]
  ],
)

-- An execution is allowed, after any sequence of recorded starts, recorded completions and prunings,
-- exactly when three things hold of the log of these events: there is no cooldown or no logged
-- completion of the strategy on the target whose cooldown is not over; there is no hourly limit or
-- fewer starts of the strategy are logged in the last hour; and there is no give-up limit or fewer
-- completions on the target are logged in its window. The cooldown is a Go duration.
pub evaluate-logged :
    (retention : ℤ) (es : List Event) (cfg : Config) (strategy target : String) (now : ℤ)
    → cfg.cooldown ≤ℤ max_duration
    → let log = logged retention es in
      ((evaluate cfg (some (as_history (remembered retention es))) strategy target now).is_allowed
        ≡ true)
      ↔ (((cfg.cooldown ≤ℤ pos 0)
            ⊎ (tally (cooling cfg.cooldown now) (strategy, target) log.completed ≡ 0))
          × Below
              (tally (is_from (add now (neg rate_window))) strategy log.started)
              cfg.max_per_hour
          × ((cfg.give_up_after.within ≤ℤ pos 0)
              ⊎ Below
                  (tally
                    (is_from (add now (neg cfg.give_up_after.within)))
                    (strategy, target)
                    log.completed)
                  cfg.give_up_after.count))
evaluate-logged retention es cfg strategy target now k =
    let h = as_history (remembered retention es) in
    let (to, from) = evaluate-allowed cfg h strategy target now k in
    let (rest, rest_back) =
      Rested-cooling cfg.cooldown now (last_completion (remembered retention es) strategy target)
        (strategy, target) (logged retention es).completed
        (last_completion-IsLatest retention es strategy target) in
    let starts = starts_since-tally retention es strategy (add now (neg rate_window)) in
    let completions =
      completions_since-tally retention es strategy target
        (add now (neg cfg.give_up_after.within)) in
    let few = λ (n : ℕ). Below n cfg.max_per_hour in
    let helps = λ (n : ℕ). (cfg.give_up_after.within ≤ℤ pos 0) ⊎ Below n cfg.give_up_after.count in
    (
      λ a. let (x, y, z) = to a in (rest x, subst few starts y, subst helps completions z),
      λ b.
          let (x, y, z) = b in
          from (rest_back x, subst few (sym starts) y, subst helps (sym completions) z),
    )
