-- ===== src/Engine/Sweeper/Floor.antt =====
-- internal/engine/sweeper.go: the floor against the windows of the guards.
use remedik.Base.{
  ◌≡◌, refl, sym, subst, ◌⊎◌, inl, inr, List, [], ◌∷◌, arith, ℤ, pos, ◌≤ℤ◌, neg, add, hour,
  +ℤ_parts, ◌+ℤ◌, max_duration, min_duration, Member,
}
use remedik.Api.{Strategy, GuardsSpec}
use remedik.Guards.{Config}
use remedik.Engine.Sink.{guard_config}
use remedik.Engine.Sweeper.{longer, widen, wrap, longest_window, floor_at, floor_margin}

-- No window of the configured guards is longer.
abbrev pub Covers : ℤ → Config → Type 0
Covers longest cfg =
    (cfg.cooldown ≤ℤ longest)
    × ((cfg.max_per_hour ≤ℤ pos 0) ⊎ (pos hour ≤ℤ longest))
    × (cfg.give_up_after.within ≤ℤ longest)

le-widen : (longest : ℤ) (g : GuardsSpec) → longest ≤ℤ widen longest g
unfolding widen longer
le-widen longest g = ground arith

le-longest_window : (longest : ℤ) (ss : List Strategy) → longest ≤ℤ longest_window longest ss
unfolding longest_window
le-longest_window longest [] = omega arith
le-longest_window longest (s ∷ ss) =
    omega (arith, le-widen longest s.guards, le-longest_window (widen longest s.guards) ss)

widen-Covers :
    (longest : ℤ) (s : Strategy)
    → pos 0 ≤ℤ longest
    → Covers (widen longest s.guards) (guard_config s)
unfolding widen longer guard_config
widen-Covers longest s z = ground arith

Covers-le : (a b : ℤ) (cfg : Config) → a ≤ℤ b → Covers a cfg → Covers b cfg
Covers-le a b cfg h c = (omega (arith, c.0), ground (arith, c.1), omega (arith, c.2))

pub longest_window-Covers :
    (longest : ℤ) (ss : List Strategy) (s : Strategy)
    → pos 0 ≤ℤ longest
    → Member s ss
    → Covers (longest_window longest ss) (guard_config s)
unfolding longest_window
longest_window-Covers longest [] s z m = absurd m
longest_window-Covers longest (q ∷ ss) s z (inl e) =
    subst (λ x. Covers (longest_window (widen longest q.guards) ss) (guard_config x)) (sym e)
      (Covers-le (widen longest q.guards) (longest_window (widen longest q.guards) ss)
        (guard_config q) (le-longest_window (widen longest q.guards) ss) (widen-Covers longest q z))
longest_window-Covers longest (q ∷ ss) s z (inr m) =
    longest_window-Covers (widen longest q.guards) ss s (omega (arith, le-widen longest q.guards)) m

wrap-small : (d : ℤ) → d ≤ℤ max_duration → min_duration ≤ℤ d → wrap d ≡ d
unfolding wrap
wrap-small d h k = ground arith

neg_small :
    (d : ℤ) → d ≤ℤ max_duration → pos 0 ≤ℤ d → (neg d ≤ℤ max_duration) × (min_duration ≤ℤ neg d)
neg_small d h k = ground arith

-- A window of length `d` that ends at `t` begins two hours after the floor, or later.
before_window :
    (t longest d : ℤ)
    → d ≤ℤ longest
    → add t (neg (longest +ℤ floor_margin)) +ℤ d +ℤ floor_margin ≤ℤ t
unfolding add
before_window t longest d h =
    let wide = longest +ℤ floor_margin in
    let back = neg wide in
    ground (
      arith,
      +ℤ_parts longest floor_margin,
      +ℤ_parts t back,
      +ℤ_parts (t +ℤ back) d,
      +ℤ_parts (t +ℤ back +ℤ d) floor_margin,
    )

floor_at-exact :
    (t : ℤ) (ss : List Strategy)
    → longest_window (pos 0) ss +ℤ floor_margin ≤ℤ max_duration
    → floor_at t ss ≡ add t (neg (longest_window (pos 0) ss +ℤ floor_margin))
unfolding floor_at
floor_at-exact t ss h =
    let wide = longest_window (pos 0) ss +ℤ floor_margin in
    let at_least : pos 0 ≤ℤ wide =
      omega
        (arith, le-longest_window (pos 0) ss, +ℤ_parts (longest_window (pos 0) ss) floor_margin) in
    let small = neg_small wide h at_least in
    rw (wrap-small wide h (omega (arith, at_least)), wrap-small (neg wide) small.0 small.1) refl

-- Where the windows are not close to the longest Go duration, the floor lies at least two hours
-- before the beginning of every window of every listed strategy.
pub floor_at-le :
    (t : ℤ) (ss : List Strategy) (s : Strategy)
    → longest_window (pos 0) ss +ℤ floor_margin ≤ℤ max_duration
    → Member s ss
    → (floor_at t ss +ℤ (guard_config s).cooldown +ℤ floor_margin ≤ℤ t)
      × (((guard_config s).max_per_hour ≤ℤ pos 0)
          ⊎ (floor_at t ss +ℤ pos hour +ℤ floor_margin ≤ℤ t))
      × (floor_at t ss +ℤ (guard_config s).give_up_after.within +ℤ floor_margin ≤ℤ t)
unfolding add
floor_at-le t ss s h m =
    let c = longest_window-Covers (pos 0) ss s (omega arith) m in
    let e = floor_at-exact t ss h in
    let longest = longest_window (pos 0) ss in
    rw e (
      before_window t longest _ c.0,
      elim c.1 [ inl off ↦ inl off | inr on ↦ inr (before_window t longest (pos hour) on) ],
      before_window t longest _ c.2,
    )
