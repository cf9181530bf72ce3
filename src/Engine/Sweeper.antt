-- ===== src/Engine/Sweeper.antt =====
-- internal/engine/sweeper.go: the retention policy. The ticker around it and its log lines are left
-- out. Go leaves open in which order a range visits a map; here it is the order in which the
-- strategies first occur.
pub mod Floor
pub mod Groups
pub mod Picks
pub mod Passes
use remedik.Base.{
  ℕ, suc, ◌+◌, String, Bool, true, false, not, ◌&&◌, ◌||◌, Option, none, some, List, [], ◌∷◌, ◌++◌,
  str, Error, wrapf, ErrorKind, not_found, unknown_action, other_error, Result, ok, err, ℤ, pos,
  ◌*◌, pos_part, lt_ℤ, ◌≤ℤ◌, le_ℤ, ◌+ℤ◌, ◌-ℤ◌, neg, add, hour, before, after, max_duration,
  min_duration, leb, ◌==◌, if◌then◌else◌,
}
use remedik.Base.Assoc
use remedik.Base.Assoc.{string_eq}
use remedik.Api.{Remediation, Strategy, GuardsSpec, is_terminal}
use remedik.Engine.Effects.{Env, M, pure, ◌>>=◌, ◌>>◌, now, log, call, deleted, counted_swept}
use remedik.Engine.Reconciler.{Client}

pub record Sweeper (W : Type 0) : Type 0 where
  pub client : Client W
  pub namespace : String
  pub max_age : ℤ
  pub keep_per_strategy : ℤ
  pub has_metrics : Bool

abbrev pub max_deletes_per_sweep : ℕ
max_deletes_per_sweep = 200

abbrev pub floor_margin : ℤ
floor_margin = pos (2 * hour)

-- A sum of two durations, or the opposite of one, in 64 bits.
unfoldable pub wrap : ℤ → ℤ
wrap d =
    if lt_ℤ max_duration d
    then d -ℤ pos 18446744073709551616
    else if lt_ℤ d min_duration
    then d +ℤ pos 18446744073709551616
    else d

unfoldable pub longer : ℤ → ℤ → ℤ
longer d longest = if lt_ℤ longest d then d else longest

-- One round of the loop over the strategies.
unfoldable pub widen : ℤ → GuardsSpec → ℤ
unfolding longer
widen longest guards =
    let cooled : ℤ = elim guards.cooldown [ none ↦ longest | some d ↦ longer d longest ] in
    let rated = if lt_ℤ (pos 0) guards.max_per_hour then longer (pos hour) cooled else cooled in
    elim guards.give_up_after [ none ↦ rated | some g ↦ longer g.within rated ]

unfoldable pub longest_window : ℤ → List Strategy → ℤ
unfolding widen
longest_window longest [] = longest
longest_window longest (s ∷ ss) = longest_window (widen longest s.guards) ss

unfoldable pub floor_at : ℤ → List Strategy → ℤ
unfolding longest_window
floor_at t strategies =
    add t (wrap (neg (wrap (longest_window (pos 0) strategies +ℤ floor_margin))))

unfoldable pub completed_at : Remediation → ℤ
completed_at rem = elim rem.status.completed_at [ none ↦ rem.creation | some t ↦ t ]

-- The terminal records by strategy.
unfoldable pub group_one :
    List (String × List Remediation) → Remediation → List (String × List Remediation)
group_one m rem =
    let k = rem.spec.strategy_name in
    let old : List Remediation = elim (Assoc.get m k) [ none ↦ [] | some rems ↦ rems ] in
    if is_terminal rem.status.state then Assoc.put m k (old ++ rem ∷ []) else m

unfoldable pub group_from :
    List (String × List Remediation) → List Remediation → List (String × List Remediation)
unfolding group_one
group_from m [] = m
group_from m (rem ∷ items) = group_from (group_one m rem) items

-- `sort.Slice` by completion, newest first.
unfoldable pub insert_by_completion : Remediation → List Remediation → List Remediation
unfolding completed_at
insert_by_completion r [] = r ∷ []
insert_by_completion r (s ∷ ss) =
    if after (completed_at s) (completed_at r) then s ∷ insert_by_completion r ss else r ∷ s ∷ ss

unfoldable pub sort_by_completion : List Remediation → List Remediation
unfolding insert_by_completion
sort_by_completion [] = []
sort_by_completion (r ∷ rs) = insert_by_completion r (sort_by_completion rs)

unfoldable pub is_not_found : Error → Bool
is_not_found e = elim e.kind [ not_found ↦ true | _ ↦ false ]

-- What goes, and how many the floor saved.
pub record Picked : Type 0 where
  pub out : List Remediation
  pub held : ℕ

module _ (max_age keep_per_strategy t floor : ℤ) where
  unfoldable pub too_old : Remediation → Bool
  unfolding completed_at
  too_old rem = lt_ℤ (pos 0) max_age && before (completed_at rem) (add t (wrap (neg max_age)))

  unfoldable pub too_many : ℕ → Bool
  too_many i = lt_ℤ (pos 0) keep_per_strategy && le_ℤ keep_per_strategy (pos i)

  -- One round of the loop over a group, at index `i`.
  unfoldable pub judge : ℕ → Remediation → Picked → Picked
  unfolding too_old too_many
  judge i rem found =
      if too_old rem || too_many i
      then (if after (completed_at rem) floor
          then record found { held = suc found.held }
          else record found { out = found.out ++ rem ∷ [] })
      else found

  unfoldable pub pick : ℕ → List Remediation → Picked → Picked
  unfolding judge
  pick i [] found = found
  pick i (rem ∷ rems) found = pick (suc i) rems (judge i rem found)

  unfoldable pub pick_groups : List (String × List Remediation) → Picked → Picked
  unfolding pick sort_by_completion
  pick_groups [] found = found
  pick_groups ((k, rems) ∷ groups) found =
      pick_groups groups (pick 0 (sort_by_completion rems) found)

  unfoldable pub candidates : List Remediation → Picked
  unfolding pick_groups group_from
  candidates items = pick_groups (group_from [] items) (record { out = []; held = 0 })

-- `guardFloor`, from what the client answered.
guard_floor : ℤ → Result (List Strategy) → Result ℤ
unfolding floor_at
guard_floor t (err x) = err x
guard_floor t (ok strategies) = ok (floor_at t strategies)

module _ {W : Type 0} where
  -- The loop over the candidates, with `count` of them deleted so far.
  delete_from : Sweeper W → ℕ → List Remediation → M W (Result ℕ)
  unfolding call log is_not_found
  delete_from s n [] e = (ok n, e)
  delete_from s n (rem ∷ rems) e =
      let answer = call (s.client.delete rem) e in
      let tried = (log (deleted rem.name) answer.1).1 in
      let skipped = delete_from s n rems tried in
      let counted = delete_from s (suc n) rems tried in
      let failed = λ (x : Error). wrapf (str "delete " ∷ str rem.name ∷ []) x in
      if n == max_deletes_per_sweep then (ok n, e) else elim answer.0 [
        | none ↦ counted
        | some x ↦ if is_not_found x then skipped else (err (failed x), tried)
      ]

  finish_sweep : Sweeper W → ℕ → Result ℕ → M W (Option Error)
  unfolding log
  finish_sweep s held (err x) = pure (some x)
  finish_sweep s held (ok n) = do
    if s.has_metrics then log (counted_swept n held) else pure tt
    pure none

  sweep_listed : Sweeper W → ℤ → ℤ → Result (List Remediation) → M W (Option Error)
  unfolding delete_from finish_sweep
  sweep_listed s t floor (err x) = pure (some (wrapf (str "list remediations" ∷ []) x))
  sweep_listed s t floor (ok items) = do
    let picked = candidates s.max_age s.keep_per_strategy t floor items
    outcome ← delete_from s 0 picked.out
    finish_sweep s picked.held outcome

  sweep_above : Sweeper W → ℤ → Result ℤ → M W (Option Error)
  unfolding call sweep_listed
  sweep_above s t (err x) = pure (some (wrapf (str "compute the guard floor" ∷ []) x))
  sweep_above s t (ok floor) = do
    listed ← call (s.client.list s.namespace [])
    sweep_listed s t floor listed

  pub sweep : Sweeper W → M W (Option Error)
  unfolding now call guard_floor sweep_above
  sweep s = do
    t ← now
    strategies ← call s.client.strategies
    sweep_above s t (guard_floor t strategies)
