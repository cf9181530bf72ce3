-- ===== src/Engine/Posture/Overrides/Parses.antt =====
-- internal/engine/posture.go: what the parsed overrides say of a namespace.
use text.Mathlib.Text.{◌==◌ as str_eq}
use text.Mathlib.TextEquality.{eq_iff}
use remedik.Base.{
  String, ◌≡◌, refl, ap, sym, subst, ◌⊎◌, inl, inr, Bool, true, false, Option, none, some, List, [],
  ◌∷◌, Result, ok, err, Member, Bool-cases, Option-cases, arith, trim, cut,
}
use remedik.Base.Assoc
use remedik.Base.Assoc.{Eq, string_eq, get-put}
use remedik.Engine.Posture.{Mode, unset, live, dry, is_live, is_dry, new_posture, dry_run_for}
use remedik.Engine.Posture.Overrides.{
  same_mode, parse_mode, checked, split_pair, add_override, add_pair, parse_from, parse_posture,
}

-- The pair gives the namespace the mode.
abbrev pub Says : String → String → Mode → Type 0
Says pair namespace mode =
    (value : String) × (split_pair pair ≡ some (namespace, value)) × (parse_mode value ≡ ok mode)

abbrev Overrides : Type 0
Overrides = List (String × Mode)

same_mode-path : (a b : Mode) → same_mode a b ≡ true → a ≡ b
unfolding same_mode
same_mode-path unset unset e = refl
same_mode-path unset live e = cc e
same_mode-path unset dry e = cc e
same_mode-path live unset e = cc e
same_mode-path live live e = refl
same_mode-path live dry e = cc e
same_mode-path dry unset e = cc e
same_mode-path dry live e = cc e
same_mode-path dry dry e = refl

-- What one override does to the map.
record Adds (o : Overrides) (namespace : String) (mode : Mode) (o' : Overrides) : Type 0 where
  there : Assoc.get o' namespace ≡ some mode
  kept : (k : String) (m : Mode) → Assoc.get o k ≡ some m → Assoc.get o' k ≡ some m
  only :
      (k : String) (m : Mode)
      → Assoc.get o' k ≡ some m
      → (Assoc.get o k ≡ some m) ⊎ ((k ≡ namespace) × (m ≡ mode))

put-Adds :
    (o : Overrides) (namespace : String) (mode : Mode) (found : Option Mode)
    → Assoc.get o namespace ≡ found
    → (found ≡ none) ⊎ (found ≡ some mode)
    → Adds o namespace mode (Assoc.put o namespace mode)
put-Adds o namespace mode found e h = record {
  there = ground (arith, get-put o namespace namespace mode, eq_iff namespace namespace);
  kept = λ k m f. ground (arith, get-put o namespace k mode, eq_iff namespace k, e, h, f);
  only = λ k m f. ground (arith, get-put o namespace k mode, eq_iff namespace k, f);
}

add_override-Adds :
    (o o' : Overrides) (namespace value : String) (mode : Mode)
    → add_override o namespace value (ok mode) ≡ ok o'
    → Adds o namespace mode o'
unfolding add_override
add_override-Adds o o' namespace value mode e = elim (Option-cases (Assoc.get o namespace)) [
  | inl fresh ↦
      let same : Assoc.put o namespace mode ≡ o' = ground (arith, e, fresh) in
      subst (Adds o namespace mode) same (put-Adds o namespace mode none fresh (inl refl))
  | inr (existing, there) ↦ elim (Bool-cases (same_mode existing mode)) [
    | inl agree ↦
        let same : Assoc.put o namespace mode ≡ o' = ground (arith, e, there, agree) in
        subst (Adds o namespace mode) same (
          put-Adds o namespace mode (some existing) there
            (inr (ap some (same_mode-path existing mode agree))))
    | inr clash ↦ absurd (ground (arith, e, there, clash))
  ]
]

record Reads (o : Overrides) (pair : String) (o' : Overrides) : Type 0 where
  namespace : String
  mode : Mode
  says : Says pair namespace mode
  adds : Adds o namespace mode o'

override-Reads :
    (o o' : Overrides) (pair namespace value : String) (r : Result Mode)
    → split_pair pair ≡ some (namespace, value)
    → parse_mode value ≡ r
    → add_override o namespace value r ≡ ok o'
    → Reads o pair o'
unfolding add_override
override-Reads o o' pair namespace value (err x) s p e = absurd (cc e)
override-Reads o o' pair namespace value (ok mode) s p e = record {
  namespace = namespace;
  mode = mode;
  says = (value, s, p);
  adds = add_override-Adds o o' namespace value mode e;
}

add_pair-Reads : (o o' : Overrides) (pair : String) → add_pair o pair ≡ ok o' → Reads o pair o'
unfolding add_pair
add_pair-Reads o o' pair e = elim (Option-cases (split_pair pair)) [
  | inl malformed ↦ absurd (ground (arith, e, malformed))
  | inr ((namespace, value), split) ↦
      override-Reads o o' pair namespace value (parse_mode value) split refl
        (ground (arith, e, split))
]

abbrev pub Named : List String → String → Mode → Type 0
Named pairs namespace mode = (pair : String) × Member pair pairs × Says pair namespace mode

-- What a list of pairs does to the map.
record ReadsAll (o : Overrides) (pairs : List String) (o' : Overrides) : Type 0 where
  kept : (k : String) (m : Mode) → Assoc.get o k ≡ some m → Assoc.get o' k ≡ some m
  only :
      (k : String) (m : Mode) → Assoc.get o' k ≡ some m → (Assoc.get o k ≡ some m) ⊎ Named pairs k m
  honours :
      (pair : String)
      → Member pair pairs
      → (k : String) × ((m : Mode) × (Says pair k m × (Assoc.get o' k ≡ some m)))

next_pair :
    (o o₁ o' : Overrides) (pair : String) (pairs : List String)
    → Reads o pair o₁
    → ReadsAll o₁ pairs o'
    → ReadsAll o (pair ∷ pairs) o'
next_pair o o₁ o' pair pairs r rs = record {
  kept = λ k m e. rs.kept k m (r.adds.kept k m e);
  only = λ k m e. elim (rs.only k m e) [
    | inr (q, there, says) ↦ inr (q, inr there, says)
    | inl before ↦ elim (r.adds.only k m before) [
      | inl old ↦ inl old
      | inr (same_name, same) ↦ inr (
        pair,
        inl refl,
        subst (λ x. Says pair x m) (sym same_name)
            (subst (λ y. Says pair r.namespace y) (sym same) r.says),
      )
    ]
  ];
  honours = λ q there. elim there [
    | inl same ↦ (
      r.namespace,
      (
        r.mode,
        (
          subst (λ x. Says x r.namespace r.mode) (sym same) r.says,
          rs.kept r.namespace r.mode r.adds.there,
        ),
      ),
    )
    | inr later ↦ rs.honours q later
  ];
}

parse_next :
    (o o' : Overrides) (pair : String) (pairs : List String)
    → ((o₁ : Overrides) → parse_from o₁ pairs ≡ ok o' → ReadsAll o₁ pairs o')
    → (r : Result Overrides) → add_pair o pair ≡ r
    → elim r [ err x ↦ err x | ok more ↦ parse_from more pairs ] ≡ ok o'
    → ReadsAll o (pair ∷ pairs) o'
parse_next o o' pair pairs later (err x) f g = absurd (cc g)
parse_next o o' pair pairs later (ok o₁) f g =
    next_pair o o₁ o' pair pairs (add_pair-Reads o o₁ pair f) (later o₁ g)

parse_from-ReadsAll :
    (o o' : Overrides) (pairs : List String) → parse_from o pairs ≡ ok o' → ReadsAll o pairs o'
unfolding parse_from
parse_from-ReadsAll o o' [] e =
    let same : o ≡ o' = ground (arith, e) in
    subst (ReadsAll o []) same
      (record { kept = λ k m f. f; only = λ k m f. inl f; honours = λ q m. absurd m })
parse_from-ReadsAll o o' (pair ∷ pairs) e =
    parse_next o o' pair pairs (λ o₁ g. parse_from-ReadsAll o₁ o' pairs g) (add_pair o pair) refl e

-- The mode that an override of a namespace stands for decides whether it is a dry run; a namespace that
-- no override names takes the default.
overridden :
    (dry_run : Bool) (o : Overrides) (namespace : String) (mode : Mode)
    → str_eq namespace "" ≡ false
    → Assoc.get o namespace ≡ some mode
    → dry_run_for (new_posture dry_run o) namespace ≡ is_dry mode
unfolding dry_run_for new_posture
overridden dry_run o namespace mode named found = rw (named, found) refl

not_overridden :
    (dry_run : Bool) (o : Overrides) (namespace : String)
    → Assoc.get o namespace ≡ none
    → dry_run_for (new_posture dry_run o) namespace ≡ dry_run
unfolding dry_run_for new_posture is_live
not_overridden dry_run o namespace absent = ground (arith, absent)

not_blank :
    (found : Option (String × String)) (namespace value : String)
    → checked found ≡ some (namespace, value)
    → str_eq namespace "" ≡ false
unfolding checked
not_blank none namespace value e = absurd (cc e)
not_blank (some (n, v)) namespace value e = ground (arith, e)

split_pair-named :
    (pair namespace value : String)
    → split_pair pair ≡ some (namespace, value)
    → str_eq namespace "" ≡ false
unfolding split_pair
split_pair-named pair namespace value e = not_blank (cut b'=' (trim pair)) namespace value e

-- Where the overrides parse, every pair is honoured: it gives some namespace a mode, and that namespace
-- is a dry run exactly where the mode is, whatever the default and the other pairs.
pub parse_posture-honours :
    (pairs : List String) (o : List (String × Mode)) (dry_run : Bool) (pair : String)
    → parse_posture pairs ≡ ok o
    → Member pair pairs
    → (namespace : String) × ((mode : Mode) × (Says pair namespace mode
          × (dry_run_for (new_posture dry_run o) namespace ≡ is_dry mode)))
unfolding parse_posture
parse_posture-honours pairs o dry_run pair e m =
    let (namespace, (mode, (says, found))) = (parse_from-ReadsAll [] o pairs e).honours pair m in
    (
      namespace,
      (
        mode,
        (
          says,
          overridden dry_run o namespace mode (split_pair-named pair namespace says.0 says.1) found,
        ),
      ),
    )

-- Where the overrides parse, a namespace that no pair names takes the default.
pub parse_posture-default :
    (pairs : List String) (o : List (String × Mode)) (dry_run : Bool) (namespace : String)
    → parse_posture pairs ≡ ok o
    → ((mode : Mode) → Named pairs namespace mode → ⊥)
    → dry_run_for (new_posture dry_run o) namespace ≡ dry_run
unfolding parse_posture Assoc.get
parse_posture-default pairs o dry_run namespace e unnamed =
    elim (Option-cases (Assoc.get o namespace)) [
      | inl absent ↦ not_overridden dry_run o namespace absent
      | inr (mode, found) ↦ elim ((parse_from-ReadsAll [] o pairs e).only namespace mode found) [
        | inl before ↦ absurd (cc before)
        | inr named ↦ absurd (unnamed mode named)
      ]
    ]
