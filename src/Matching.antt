-- ===== src/Matching.antt =====
-- internal/matching/matching.go: which strategy handles an alert. The children hold the proofs.
pub mod Best
pub mod Explain
use text.Mathlib.Text.{◌==◌ as str_eq}
use remedik.Base.{
  ℕ, String, Bool, true, false, not, ◌&&◌, Option, none, some, List, [], ◌∷◌, ◌++◌, map, length,
  all, ltb, ◌==◌, if◌then◌else◌, lt_str, sort_strings, Text, str, words,
}
use remedik.Base.Assoc
use remedik.Base.Assoc.{string_eq}
use remedik.Alert.{Alert, Labels, label}

pub record Rule : Type 0 where
  pub name : String
  pub enabled : Bool
  pub match : Labels

unfoldable pub specificity : Rule → ℕ
specificity r = length r.match

unfoldable pub usable : Rule → Bool
usable r = r.enabled && ltb 0 (length r.match)

-- One matcher against the alert's label.
abbrev pub agrees : Alert → String × String → Bool
agrees a (key, want) = str_eq (label a.labels key) want

unfoldable pub matches : Alert → Rule → Bool
unfolding usable
matches a r = usable r && all (agrees a) r.match

-- Most matchers first, then by name.
unfoldable pub precedes : Rule → Rule → Bool
precedes i j =
    if specificity i == specificity j
    then lt_str i.name j.name
    else ltb (specificity j) (specificity i)

matching_rules : Alert → List Rule → List Rule
matching_rules a [] = []
matching_rules a (r ∷ rs) = if matches a r then r ∷ matching_rules a rs else matching_rules a rs

-- `sort.SliceStable`, by insertion: an equal rule stays behind the one that stood before it.
place : Rule → List Rule → List Rule
place r [] = r ∷ []
place r (s ∷ ss) = if precedes s r then s ∷ place r ss else r ∷ s ∷ ss

order : List Rule → List Rule
order [] = []
order (r ∷ rs) = place r (order rs)

unfoldable pub candidates : Alert → List Rule → List Rule
unfolding matching_rules order place matches precedes
candidates a rules = order (matching_rules a rules)

first : List Rule → Option Rule
first [] = none
first (r ∷ rs) = some r

unfoldable pub select : Alert → List Rule → Option Rule
unfolding first candidates
select a rules = first (candidates a rules)

-- Why one key of a rule does not match, or the empty text.
key_mismatch : Alert → Rule → String → Text
key_mismatch a r key = elim (Assoc.get a.labels key) [
  | none ↦
      str "the alert has no "
      ∷ str key
      ∷ str " label; the strategy wants "
      ∷ str key
      ∷ str "="
      ∷ str (label r.match key)
      ∷ []
  | some got ↦
      if str_eq got (label r.match key)
      then []
      else str key
        ∷ str " is "
        ∷ str got
        ∷ str ", the strategy wants "
        ∷ str (label r.match key)
        ∷ []
]

first_mismatch : Alert → Rule → List String → Text
first_mismatch a r [] = []
first_mismatch a r (key ∷ keys) =
    let rest = first_mismatch a r keys in
    elim (key_mismatch a r key) [ [] ↦ rest | p ∷ ps ↦ p ∷ ps ]

keys_of : Labels → List String
keys_of = map λ e. e.0

unfoldable pub why_not : Alert → Rule → Text
unfolding first_mismatch key_mismatch keys_of
why_not a r =
    if not r.enabled
    then words "disabled"
    else if length r.match == 0
    then words "no matchers, which would match every alert, so it is refused"
    else first_mismatch a r (sort_strings (keys_of r.match))
