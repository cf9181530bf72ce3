-- ===== src/Engine/Sweeper/Picks.antt =====
-- internal/engine/sweeper.go: what the sweep picks.
use remedik.Base.{
  ℕ, suc, ◌+◌, ◌≤◌, ◌≡◌, ◌∙◌, refl, subst, String, Bool, true, false, not, ◌&&◌, ◌||◌, List, [],
  ◌∷◌, ◌++◌, ℤ, pos, lt_ℤ, after, arith, count, all, leb, count-append, sym,
}
use text.Mathlib.TextEquality.{eq_iff}
use remedik.Base.Assoc
use remedik.Base.Assoc.{string_eq}
use remedik.Api.{Remediation, is_terminal}
use remedik.Engine.Sweeper.{
  completed_at, group_one, group_from, sort_by_completion, Picked, too_old, too_many, judge, pick,
  pick_groups, candidates,
}
use remedik.Engine.Sweeper.Groups.{
  as_recent, of_strategy, Descending, Grouped, adding, find, all-imp, all-append, all-sort,
  count-sort, sort-Descending, group_from-Grouped,
}

-- How many records pass a test, over all groups.
total : (Remediation → Bool) → List (String × List Remediation) → ℕ
total p [] = 0
total p ((k, rems) ∷ m) = count p rems + total p m

total-put :
    (p : Remediation → Bool) (m : List (String × List Remediation)) (k : String) (r : Remediation)
    → total p (Assoc.put m k (find m k ++ r ∷ [])) ≡ total p m + count p (r ∷ [])
unfolding total Assoc.put find Assoc.get count
total-put p [] k r = omega arith
total-put p ((j, rems) ∷ m) k r = ground (arith, total-put p m k r, count-append p rems (r ∷ []))

total-group_from :
    (p : Remediation → Bool) (m : List (String × List Remediation)) (items : List Remediation)
    → total p (group_from m items) ≤ total p m + count p items
unfolding group_from group_one find count
total-group_from p m [] = omega arith
total-group_from p m (r ∷ items) =
    ground (arith, total-group_from p (group_one m r) items, total-put p m r.spec.strategy_name r)

all_of :
    (p : Remediation → Bool) (rs : List Remediation)
    → ((r : Remediation) → p r ≡ true)
    → all p rs ≡ true
unfolding all
all_of p [] h = refl
all_of p (r ∷ rs) h = ground (arith, h r, all_of p rs h)

module _ (max_age keep_per_strategy t floor : ℤ) where
  -- Reached by one of the two policies, where `n` records of the strategy are completed no earlier.
  unfoldable pub reached : ℕ → Remediation → Bool
  reached n r =
      too_old max_age keep_per_strategy t floor r
      || (lt_ℤ (pos 0) keep_per_strategy && lt_ℤ keep_per_strategy (pos n))

  judge-all :
      (p : Remediation → Bool) (n i : ℕ) (r : Remediation) (found : Picked)
      → (after (completed_at r) floor ≡ false → reached n r ≡ true → p r ≡ true)
      → suc i ≤ n
      → all p found.out ≡ true
      → all p (judge max_age keep_per_strategy t floor i r found).out ≡ true
  unfolding judge reached too_many all
  judge-all p n i r found h e a = ground (arith, all-append p found.out (r ∷ []))

  pick-all :
      (p member : Remediation → Bool) (bound : Remediation → ℕ) (i : ℕ) (rems : List Remediation)
      (found : Picked)
      → ((r : Remediation)
          → member r ≡ true
          → after (completed_at r) floor ≡ false
          → reached (bound r) r ≡ true
          → p r ≡ true)
      → Descending rems
      → all member rems ≡ true
      → all (λ r. leb (i + count (as_recent r) rems) (bound r)) rems ≡ true
      → all p found.out ≡ true
      → all p (pick max_age keep_per_strategy t floor i rems found).out ≡ true
  unfolding pick all count
  pick-all p member bound i [] found h d m b a = a
  pick-all p member bound i (r ∷ rems) found h d m b a =
      pick-all p member bound (suc i) rems (judge max_age keep_per_strategy t floor i r found) h d.1
        (ground arith)
        (all-imp (λ s. as_recent s r) (λ s. leb (i + count (as_recent s) (r ∷ rems)) (bound s))
          (λ s. leb (suc i + count (as_recent s) rems) (bound s)) rems
          (λ s x y. ground (arith, x, y)) d.0 (ground arith))
        (judge-all p (bound r) i r found (λ x y. h r (ground arith) x y) (ground arith) a)

  count-pick :
      (p : Remediation → Bool) (i : ℕ) (rems : List Remediation) (found : Picked)
      → count p (pick max_age keep_per_strategy t floor i rems found).out
        ≤ count p found.out + count p rems
  unfolding pick judge count
  count-pick p i [] found = omega arith
  count-pick p i (r ∷ rems) found = ground (
    arith,
    count-pick p (suc i) rems (judge max_age keep_per_strategy t floor i r found),
    count-append p found.out (r ∷ []),
  )

  count-pick_groups :
      (p : Remediation → Bool) (m : List (String × List Remediation)) (found : Picked)
      → count p (pick_groups max_age keep_per_strategy t floor m found).out
        ≤ count p found.out + total p m
  unfolding pick_groups total
  count-pick_groups p [] found = omega arith
  count-pick_groups p ((k, rems) ∷ m) found =
      let sorted = sort_by_completion rems in
      omega (
        arith,
        count-pick_groups p m (pick max_age keep_per_strategy t floor 0 sorted found),
        count-pick p 0 sorted found,
        count-sort p rems,
      )

  -- Whatever a test, no more candidates pass it than listed records do: a candidate is a record of the
  -- list, and stands among the candidates no more often than in the list.
  pub count-candidates :
      (p : Remediation → Bool) (items : List Remediation)
      → count p (candidates max_age keep_per_strategy t floor items).out ≤ count p items
  unfolding candidates count total
  count-candidates p items = omega (
    arith,
    count-pick_groups p (group_from [] items) (record { out = []; held = 0 }),
    total-group_from p [] items,
  )

  -- What the policy says of a record that may go.
  unfoldable pub due : List Remediation → Remediation → Bool
  due items r =
      is_terminal r.status.state
      && not (after (completed_at r) floor)
      && reached (count (of_strategy r.spec.strategy_name (as_recent r)) items) r

  due-of_strategy :
      (items : List Remediation) (k : String) (r : Remediation)
      → of_strategy k (λ s. true) r ≡ true
      → after (completed_at r) floor ≡ false
      → reached (count (of_strategy k (as_recent r)) items) r ≡ true
      → due items r ≡ true
  unfolding due of_strategy
  due-of_strategy items k r m f b =
      let same : r.spec.strategy_name ≡ k = (eq_iff r.spec.strategy_name k).0 (ground (arith, m)) in
      let at_its_name =
        subst (λ j. reached (count (of_strategy j (as_recent r)) items) r ≡ true) (sym same) b in
      ground (arith, m, f, at_its_name)

  pick_groups-due :
      (items : List Remediation) (m : List (String × List Remediation)) (found : Picked)
      → Grouped (adding (λ k p. 0) items) m
      → all (due items) found.out ≡ true
      → all (due items) (pick_groups max_age keep_per_strategy t floor m found).out ≡ true
  unfolding pick_groups
  pick_groups-due items [] found g a = a
  pick_groups-due items ((k, rems) ∷ m) found g a =
      let sorted = sort_by_completion rems in
      pick_groups-due items m (pick max_age keep_per_strategy t floor 0 sorted found) g.2 (
        pick-all (due items) (of_strategy k (λ s. true))
          (λ r. count (of_strategy k (as_recent r)) items) 0 sorted found (due-of_strategy items k)
          (sort-Descending rems) (all-sort (of_strategy k (λ s. true)) rems ∙ g.0)
          (all_of
            (λ r. leb (0 + count (as_recent r) sorted) (count (of_strategy k (as_recent r)) items))
            sorted (λ r. ground (arith, count-sort (as_recent r) rems, g.1 (as_recent r))))
          a)

  -- Every candidate is terminal, was completed no later than the floor, and was reached by one of the
  -- two policies: it is older than the age limit, or there is a limit per strategy, and more listed
  -- terminal records of its strategy than it allows, the candidate among them, were completed no
  -- earlier than the candidate.
  pub candidates-due :
      (items : List Remediation)
      → all (due items) (candidates max_age keep_per_strategy t floor items).out ≡ true
  unfolding candidates all
  candidates-due items =
      pick_groups-due items (group_from [] items) (record { out = []; held = 0 })
        (group_from-Grouped (λ k p. 0) [] items tt) refl
