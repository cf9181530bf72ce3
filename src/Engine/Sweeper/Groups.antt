-- ===== src/Engine/Sweeper/Groups.antt =====
-- internal/engine/sweeper.go: the groups, and their order.
use remedik.Base.{
  ℕ, ◌+◌, ◌≤◌, ◌≡◌, refl, subst, inl, inr, String, Bool, true, false, not, ◌&&◌, none, some, List,
  [], ◌∷◌, ◌++◌, after, arith, count, all, Bool-cases, count-append,
}
use text.Mathlib.Text.{◌==◌ as str_eq}
use text.Mathlib.TextEquality.{eq_iff}
use remedik.Base.Assoc
use remedik.Base.Assoc.{Eq, string_eq}
use remedik.Api.{Remediation, is_terminal}
use remedik.Engine.Sweeper.{
  completed_at, group_one, group_from, insert_by_completion, sort_by_completion,
}

-- Completed no earlier than `r`.
abbrev pub as_recent : Remediation → Remediation → Bool
as_recent r s = not (after (completed_at r) (completed_at s))

abbrev pub Descending : List Remediation → Type 0
Descending [] = Unit
Descending (r ∷ rs) = (all (λ s. as_recent s r) rs ≡ true) × Descending rs

all-insert :
    (p : Remediation → Bool) (r : Remediation) (rs : List Remediation)
    → all p (insert_by_completion r rs) ≡ all p (r ∷ rs)
unfolding insert_by_completion all
all-insert p r [] = refl
all-insert p r (s ∷ rs) = ground (arith, all-insert p r rs)

pub all-imp :
    (p q o : Remediation → Bool) (rs : List Remediation)
    → ((r : Remediation) → p r ≡ true → q r ≡ true → o r ≡ true)
    → all p rs ≡ true
    → all q rs ≡ true
    → all o rs ≡ true
unfolding all
all-imp p q o [] h a b = refl
all-imp p q o (r ∷ rs) h a b = ground (arith, all-imp p q o rs h, h r)

all-later :
    (q r : Remediation) (rs : List Remediation)
    → after (completed_at q) (completed_at r) ≡ false
    → all (λ s. as_recent s q) rs ≡ true
    → all (λ s. as_recent s r) rs ≡ true
all-later q r rs h a =
    all-imp (λ s. as_recent s q) (λ s. as_recent s q) (λ s. as_recent s r) rs
      (λ s x y. ground (arith, h, x)) a a

insert-Descending :
    (r : Remediation) (rs : List Remediation)
    → Descending rs
    → Descending (insert_by_completion r rs)
unfolding insert_by_completion all
insert-Descending r [] d = (refl, tt)
insert-Descending r (q ∷ rs) d =
    ground
      (arith, insert-Descending r rs d.1, all-insert (λ s. as_recent s q) r rs, all-later q r rs)

pub sort-Descending : (rs : List Remediation) → Descending (sort_by_completion rs)
unfolding sort_by_completion
sort-Descending [] = tt
sort-Descending (r ∷ rs) = insert-Descending r (sort_by_completion rs) (sort-Descending rs)

count-insert :
    (p : Remediation → Bool) (r : Remediation) (rs : List Remediation)
    → count p (insert_by_completion r rs) ≡ count p (r ∷ rs)
unfolding insert_by_completion count
count-insert p r [] = refl
count-insert p r (s ∷ rs) = ground (arith, count-insert p r rs)

pub count-sort :
    (p : Remediation → Bool) (rs : List Remediation) → count p (sort_by_completion rs) ≡ count p rs
unfolding sort_by_completion count
count-sort p [] = refl
count-sort p (r ∷ rs) = ground (arith, count-insert p r (sort_by_completion rs), count-sort p rs)

pub all-sort :
    (p : Remediation → Bool) (rs : List Remediation) → all p (sort_by_completion rs) ≡ all p rs
unfolding sort_by_completion all
all-sort p [] = refl
all-sort p (r ∷ rs) = ground (arith, all-insert p r (sort_by_completion rs), all-sort p rs)

pub all-append :
    (p : Remediation → Bool) (xs ys : List Remediation) → all p (xs ++ ys) ≡ (all p xs && all p ys)
unfolding all
all-append p [] ys = refl
all-append p (x ∷ xs) ys = ground (arith, all-append p xs ys)

-- A terminal record of strategy `k` that passes a test.
unfoldable pub of_strategy : String → (Remediation → Bool) → Remediation → Bool
of_strategy k p s = is_terminal s.status.state && str_eq s.spec.strategy_name k && p s

-- The groups: each holds records of its strategy, and no more of them than the bound says.
abbrev pub Grouped : (String → (Remediation → Bool) → ℕ) → List (String × List Remediation) → Type 0
Grouped bound [] = Unit
Grouped bound ((k, rems) ∷ m) =
    (all (of_strategy k (λ s. true)) rems ≡ true)
    × ((p : Remediation → Bool) → count p rems ≤ bound k p)
    × Grouped bound m

Grouped-le :
    (b c : String → (Remediation → Bool) → ℕ) (m : List (String × List Remediation))
    → ((k : String) (p : Remediation → Bool) → b k p ≤ c k p)
    → Grouped b m
    → Grouped c m
Grouped-le b c [] h g = tt
Grouped-le b c ((k, rems) ∷ m) h g = (g.0, λ p. omega (arith, g.1 p, h k p), Grouped-le b c m h g.2)

unfoldable pub find : List (String × List Remediation) → String → List Remediation
find m k = elim (Assoc.get m k) [ none ↦ [] | some rems ↦ rems ]

find-Grouped :
    (b : String → (Remediation → Bool) → ℕ) (m : List (String × List Remediation)) (k : String)
    → Grouped b m
    → (all (of_strategy k (λ s. true)) (find m k) ≡ true)
      × ((p : Remediation → Bool) → count p (find m k) ≤ b k p)
unfolding find Assoc.get all count
find-Grouped b [] k g = (refl, λ p. omega arith)
find-Grouped b ((j, rems) ∷ m) k g = elim (Bool-cases (str_eq j k)) [
  | inl hit ↦
      rw (hit, find, Assoc.get)
        (subst
          (λ i.
            (all (of_strategy i (λ s. true)) rems ≡ true)
            × ((p : Remediation → Bool) → count p rems ≤ b i p))
          ((eq_iff j k).0 hit) (g.0, g.1))
  | inr miss ↦ rw (miss, find, Assoc.get) (find-Grouped b m k g.2)
]

put-Grouped :
    (b : String → (Remediation → Bool) → ℕ) (m : List (String × List Remediation)) (k : String)
    (rems : List Remediation)
    → Grouped b m
    → all (of_strategy k (λ s. true)) rems ≡ true
    → ((p : Remediation → Bool) → count p rems ≤ b k p)
    → Grouped b (Assoc.put m k rems)
unfolding Assoc.put
put-Grouped b [] k rems g a c = (a, c, tt)
put-Grouped b ((j, old) ∷ m) k rems g a c = elim (Bool-cases (str_eq j k)) [
  | inl hit ↦ rw hit (a, c, g.2)
  | inr miss ↦ rw miss (g.0, g.1, put-Grouped b m k rems g.2 a c)
]

-- A bound that grows with each record that is read.
abbrev pub adding :
    (String → (Remediation → Bool) → ℕ) → List Remediation → String → (Remediation → Bool) → ℕ
adding b items k p = b k p + count (of_strategy k p) items

of_strategy_self :
    (p : Remediation → Bool) (r : Remediation)
    → is_terminal r.status.state ≡ true
    → of_strategy r.spec.strategy_name p r ≡ p r
unfolding of_strategy
of_strategy_self p r t = rw (t, (eq_iff r.spec.strategy_name r.spec.strategy_name).1 refl) refl

grouped_all :
    (r : Remediation) (old : List Remediation)
    → is_terminal r.status.state ≡ true
    → all (of_strategy r.spec.strategy_name (λ s. true)) old ≡ true
    → all (of_strategy r.spec.strategy_name (λ s. true)) (old ++ r ∷ []) ≡ true
unfolding all
grouped_all r old t a =
    let k = r.spec.strategy_name in
    ground
      (arith, all-append (of_strategy k (λ s. true)) old (r ∷ []), of_strategy_self (λ s. true) r t)

grouped_count :
    (p : Remediation → Bool) (r : Remediation) (old : List Remediation) (n : ℕ)
    → is_terminal r.status.state ≡ true
    → count p old ≤ n
    → count p (old ++ r ∷ []) ≤ n + count (of_strategy r.spec.strategy_name p) (r ∷ [])
unfolding count
grouped_count p r old n t a = ground (arith, count-append p old (r ∷ []), of_strategy_self p r t)

group_one-Grouped :
    (b : String → (Remediation → Bool) → ℕ) (m : List (String × List Remediation)) (r : Remediation)
    → Grouped b m
    → Grouped (adding b (r ∷ [])) (group_one m r)
unfolding group_one find
group_one-Grouped b m r g = elim (Bool-cases (is_terminal r.status.state)) [
  | inl done ↦
      let k = r.spec.strategy_name in
      let wider = Grouped-le b (adding b (r ∷ [])) m (λ j p. omega arith) g in
      let old = find-Grouped b m k g in
      rw done (
        put-Grouped (adding b (r ∷ [])) m k (find m k ++ r ∷ []) wider
          (grouped_all r (find m k) done old.0)
          (λ p. grouped_count p r (find m k) (b k p) done (old.1 p)))
  | inr runs ↦ rw runs (Grouped-le b (adding b (r ∷ [])) m (λ j p. omega arith) g)
]

pub group_from-Grouped :
    (b : String → (Remediation → Bool) → ℕ) (m : List (String × List Remediation))
    (items : List Remediation)
    → Grouped b m
    → Grouped (adding b items) (group_from m items)
unfolding group_from count
group_from-Grouped b m [] g = Grouped-le b (adding b []) m (λ k p. omega arith) g
group_from-Grouped b m (r ∷ items) g =
    Grouped-le (adding (adding b (r ∷ [])) items) (adding b (r ∷ items))
      (group_from (group_one m r) items) (λ k p. ground arith)
      (group_from-Grouped (adding b (r ∷ [])) (group_one m r) items (group_one-Grouped b m r g))
