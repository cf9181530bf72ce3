-- ===== src/Matching/Explain.antt =====
-- internal/matching/matching.go: `WhyNot` against `Matches`.
use text.Mathlib.Text.{◌==◌ as str_eq}
use mathlib.Core.Path.{ap₂}
use text.Mathlib.TextEquality.{eq_iff}
use remedik.Base.{
  ◌≡◌, refl, sym, ◌∙◌, ◌↔◌, inl, inr, Bool, true, false, ◌&&◌, none, some, List, [], ◌∷◌, length,
  all, arith, String, ◌==◌, sort_strings, all-sort_strings, Bool-cases, Member,
}
use remedik.Base.Assoc
use remedik.Base.Assoc.{string_eq}
use remedik.Alert.{Alert, Labels, label}
use remedik.Matching.{Rule, matches, agrees, key_mismatch, first_mismatch, keys_of, why_not}

-- The key of a matcher is there, with the value that the rule wants.
is_fine : Alert → Rule → String → Bool
is_fine a r key = elim (Assoc.get a.labels key) [
  | none ↦ false
  | some got ↦ str_eq got (label r.match key)
]

key_mismatch_iff :
    (a : Alert) (r : Rule) (key : String) → (key_mismatch a r key ≡ []) ↔ (is_fine a r key ≡ true)
unfolding key_mismatch is_fine
key_mismatch_iff a r key = (λ e. ground arith, λ e. ground arith)

first_mismatch_iff :
    (a : Alert) (r : Rule) (keys : List String)
    → (first_mismatch a r keys ≡ []) ↔ (all (is_fine a r) keys ≡ true)
unfolding first_mismatch all
first_mismatch_iff a r [] = (λ e. refl, λ e. refl)
first_mismatch_iff a r (k ∷ ks) = (
  λ e. ground (arith, (key_mismatch_iff a r k).0, (first_mismatch_iff a r ks).0),
  λ e. ground (arith, (key_mismatch_iff a r k).1, (first_mismatch_iff a r ks).1),
)

-- Each key once, as in a Go map, and no matcher that wants the empty value.
abbrev pub IsMap : Labels → Type 0
IsMap [] = Unit {0}
IsMap ((k, v) ∷ m) = (Assoc.get m k ≡ none) × IsMap m

abbrev pub WantsValues : Labels → Type 0
WantsValues [] = Unit {0}
WantsValues ((k, v) ∷ m) = (str_eq "" v ≡ false) × WantsValues m

get_of_Member : (m : Labels) (k v : String) → IsMap m → Member (k, v) m → Assoc.get m k ≡ some v
unfolding Assoc.get
get_of_Member [] k v u h = absurd h
get_of_Member ((j, w) ∷ m) k v u (inl p) = ground (arith, eq_iff j k)
get_of_Member ((j, w) ∷ m) k v u (inr h) = ground (arith, eq_iff j k, get_of_Member m k v u.1 h)

fine_is_agreement :
    (a : Alert) (r : Rule) (k v : String)
    → Assoc.get r.match k ≡ some v
    → str_eq "" v ≡ false
    → is_fine a r k ≡ agrees a (k, v)
unfolding is_fine
fine_is_agreement a r k v e w = ground arith

all-is_fine :
    (a : Alert) (r : Rule) (m : Labels)
    → ((k v : String) → Member (k, v) m → Assoc.get r.match k ≡ some v)
    → WantsValues m
    → all (is_fine a r) (keys_of m) ≡ all (agrees a) m
unfolding all keys_of
all-is_fine a r [] h w = refl
all-is_fine a r ((k, v) ∷ m) h w =
    ap₂ ◌&&◌ (fine_is_agreement a r k v (h k v (inl refl)) w.0)
      (all-is_fine a r m (λ j u i. h j u (inr i)) w.1)

why_not-loop :
    (a : Alert) (r : Rule)
    → r.enabled ≡ true
    → (length r.match == 0) ≡ false
    → (why_not a r ≡ []) ↔ (all (is_fine a r) (keys_of r.match) ≡ true)
unfolding why_not is_fine
why_not-loop a r e n =
    let (to, from) = first_mismatch_iff a r (sort_strings (keys_of r.match)) in
    let same = all-sort_strings (is_fine a r) (keys_of r.match) in
    rw (e, n, why_not) (λ x. sym same ∙ to x, λ x. from (same ∙ x))

-- For a rule whose matchers are a map and want no empty value, `WhyNot` is silent exactly if the
-- rule matches.
pub why_not-matches :
    (a : Alert) (r : Rule)
    → IsMap r.match
    → WantsValues r.match
    → (why_not a r ≡ []) ↔ (matches a r ≡ true)
unfolding matches why_not
why_not-matches a r u w = elim (Bool-cases r.enabled) [
  | inr off ↦ (λ x. ground arith, λ x. ground arith)
  | inl on ↦ elim (Bool-cases (length r.match == 0)) [
    | inl empty ↦ (λ x. ground arith, λ x. ground arith)
    | inr some_matcher ↦
        let loop = why_not-loop a r on some_matcher in
        let same = all-is_fine a r r.match (λ k v. get_of_Member r.match k v u) w in
        (λ x. ground (arith, loop.0 x, same), λ x. loop.1 (ground (arith, same)))
  ]
]
