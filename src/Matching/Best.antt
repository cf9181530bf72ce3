-- ===== src/Matching/Best.antt =====
-- internal/matching/matching.go: which rule `Select` picks.
use remedik.Base.{
  ◌≡◌, refl, ap, inl, inr, true, false, Option, none, some, List, [], ◌∷◌, arith,
  lt_str-negatively_transitive, lt_str-asymmetric, lt_str-connected, Bool-cases, Member,
}
use remedik.Alert.{Alert}
use remedik.Matching.{
  Rule, matches, precedes, matching_rules, place, order, candidates, first, select,
}

precedes-negatively_transitive :
    (r s t : Rule) → precedes s r ≡ false → precedes t s ≡ false → precedes t r ≡ false
unfolding precedes
precedes-negatively_transitive r s t p q =
    ground (arith, lt_str-negatively_transitive r.name s.name t.name)

precedes-asymmetric : (r s : Rule) → precedes r s ≡ true → precedes s r ≡ false
unfolding precedes
precedes-asymmetric r s p = ground (arith, lt_str-asymmetric r.name s.name)

-- No rule of the list precedes `r`.
abbrev NonePrecedes : Rule → List Rule → Type 0
NonePrecedes r [] = Unit {0}
NonePrecedes r (s ∷ ss) = (precedes s r ≡ false) × NonePrecedes r ss

abbrev IsOrdered : List Rule → Type 0
IsOrdered [] = Unit {0}
IsOrdered (r ∷ rs) = NonePrecedes r rs × IsOrdered rs

NonePrecedes-trans :
    (r s : Rule) (ts : List Rule) → precedes s r ≡ false → NonePrecedes s ts → NonePrecedes r ts
NonePrecedes-trans r s [] p a = tt
NonePrecedes-trans r s (t ∷ ts) p a =
    (precedes-negatively_transitive r s t p a.0, NonePrecedes-trans r s ts p a.1)

place-NonePrecedes :
    (q r : Rule) (ss : List Rule)
    → precedes r q ≡ false
    → NonePrecedes q ss
    → NonePrecedes q (place r ss)
unfolding place
place-NonePrecedes q r [] p a = (p, tt)
place-NonePrecedes q r (s ∷ ss) p a = ground (arith, place-NonePrecedes q r ss p a.1)

place-IsOrdered : (r : Rule) (ss : List Rule) → IsOrdered ss → IsOrdered (place r ss)
unfolding place
place-IsOrdered r [] o = (tt, tt)
place-IsOrdered r (s ∷ ss) o = ground (
  arith,
  place-IsOrdered r ss o.1,
  place-NonePrecedes s r ss,
  precedes-asymmetric s r,
  NonePrecedes-trans r s ss,
)

order-IsOrdered : (rs : List Rule) → IsOrdered (order rs)
unfolding order
order-IsOrdered [] = tt
order-IsOrdered (r ∷ rs) = place-IsOrdered r (order rs) (order-IsOrdered rs)

Member-place_inv : (q r : Rule) (ss : List Rule) → Member q (place r ss) → Member q (r ∷ ss)
unfolding place
Member-place_inv q r [] m = m
Member-place_inv q r (s ∷ ss) m = elim (Bool-cases (precedes s r)) [
  | inr e ↦ rw (e, place) at m
  | inl e ↦ elim (rw (e, place) at m) [
    | inl p ↦ inr (inl p)
    | inr later ↦ elim (Member-place_inv q r ss later) [ inl p ↦ inl p | inr old ↦ inr (inr old) ]
  ]
]

Member-place : (q r : Rule) (ss : List Rule) → Member q (r ∷ ss) → Member q (place r ss)
unfolding place
Member-place q r [] m = m
Member-place q r (s ∷ ss) m = ground (arith, Member-place q r ss)

Member-order_inv : (q : Rule) (rs : List Rule) → Member q (order rs) → Member q rs
unfolding order
Member-order_inv q [] m = m
Member-order_inv q (r ∷ rs) m = elim (Member-place_inv q r (order rs) m) [
  | inl p ↦ inl p
  | inr old ↦ inr (Member-order_inv q rs old)
]

Member-order : (q : Rule) (rs : List Rule) → Member q rs → Member q (order rs)
unfolding order
Member-order q [] m = m
Member-order q (r ∷ rs) m =
    Member-place q r (order rs) (elim m [ inl p ↦ inl p | inr old ↦ inr (Member-order q rs old) ])

Member-matching_inv :
    (a : Alert) (q : Rule) (rs : List Rule)
    → Member q (matching_rules a rs)
    → Member q rs × (matches a q ≡ true)
unfolding matching_rules
Member-matching_inv a q [] m = absurd m
Member-matching_inv a q (r ∷ rs) m = ground (arith, Member-matching_inv a q rs)

Member-matching :
    (a : Alert) (q : Rule) (rs : List Rule)
    → Member q rs
    → matches a q ≡ true
    → Member q (matching_rules a rs)
unfolding matching_rules
Member-matching a q [] m e = absurd m
Member-matching a q (r ∷ rs) (inl p) e = rw (← p, e) (inl refl)
Member-matching a q (r ∷ rs) (inr m) e = ground (arith, Member-matching a q rs)

NonePrecedes-Member :
    (r s : Rule) (ss : List Rule) → NonePrecedes r ss → Member s ss → precedes s r ≡ false
NonePrecedes-Member r s [] a m = absurd m
NonePrecedes-Member r s (t ∷ ts) a (inl p) = rw p a.0
NonePrecedes-Member r s (t ∷ ts) a (inr m) = NonePrecedes-Member r s ts a.1 m

-- The best rule of a list for an alert: it matches, and no matching rule has more matchers, or as
-- many and a smaller name. Without a best rule no rule matches.
abbrev pub IsBest : Alert → List Rule → Option Rule → Type 0
IsBest a rs none = (r : Rule) → Member r rs → matches a r ≡ false
IsBest a rs (some b) =
    Member b rs
    × (matches a b ≡ true)
    × ((r : Rule) → Member r rs → matches a r ≡ true → precedes r b ≡ false)

irreflexive : (r : Rule) → precedes r r ≡ false
unfolding precedes
irreflexive r = ground (arith, lt_str-asymmetric r.name r.name)

same_name : (r s : Rule) → precedes s r ≡ false → precedes r s ≡ false → r.name ≡ s.name
unfolding precedes
same_name r s p q =
    lt_str-connected r.name s.name (ground (arith, lt_str-connected r.name s.name)) (ground arith)

first-IsBest :
    (a : Alert) (rs cs : List Rule)
    → IsOrdered cs
    → ((r : Rule) → Member r cs → Member r rs × (matches a r ≡ true))
    → ((r : Rule) → Member r rs → matches a r ≡ true → Member r cs)
    → IsBest a rs (first cs)
unfolding first
first-IsBest a rs [] o sound complete =
    λ r m. elim (Bool-cases (matches a r)) [ inl e ↦ absurd (complete r m e) | inr e ↦ e ]
first-IsBest a rs (c ∷ cs) o sound complete = (
  (sound c (inl refl)).0,
  (sound c (inl refl)).1,
  λ r m e. elim (complete r m e) [
    | inl p ↦ rw p (irreflexive c)
    | inr later ↦ NonePrecedes-Member c r cs o.0 later
  ],
)

-- `Select` returns a matching rule that no other matching rule beats, and nothing only if no rule
-- matches.
pub select-IsBest : (a : Alert) (rs : List Rule) → IsBest a rs (select a rs)
unfolding select candidates
select-IsBest a rs =
    first-IsBest a rs (order (matching_rules a rs)) (order-IsOrdered (matching_rules a rs))
      (λ r m. Member-matching_inv a r rs (Member-order_inv r _ m))
      (λ r m e. Member-order r _ (Member-matching a r rs m e))

IsBest-unique :
    (a : Alert) (rs ss : List Rule) (o p : Option Rule)
    → ((r : Rule) → Member r rs → Member r ss)
    → ((r : Rule) → Member r ss → Member r rs)
    → ((r s : Rule) → Member r rs → Member s rs → r.name ≡ s.name → r ≡ s)
    → IsBest a rs o
    → IsBest a ss p
    → o ≡ p
IsBest-unique a rs ss none none to from distinct b c = refl
IsBest-unique a rs ss none (some r) to from distinct b c = cc (b r (from r c.0), c.1)
IsBest-unique a rs ss (some r) none to from distinct b c = cc (c r (to r b.0), b.1)
IsBest-unique a rs ss (some r) (some s) to from distinct b c =
    ap some (
      distinct r s b.0 (from s c.0) (same_name r s (b.2 s (from s c.0) c.1) (c.2 r (to r b.0) b.1)))

-- The choice depends on which strategies there are, not on the order in which they are listed nor
-- on repetitions; strategies with the same name are the same strategy.
pub select_order_irrelevant :
    (a : Alert) (rs ss : List Rule)
    → ((r : Rule) → Member r rs → Member r ss)
    → ((r : Rule) → Member r ss → Member r rs)
    → ((r s : Rule) → Member r rs → Member s rs → r.name ≡ s.name → r ≡ s)
    → select a rs ≡ select a ss
select_order_irrelevant a rs ss to from distinct =
    IsBest-unique a rs ss (select a rs) (select a ss) to from distinct (select-IsBest a rs)
      (select-IsBest a ss)
