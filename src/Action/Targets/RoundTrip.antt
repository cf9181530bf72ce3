-- ===== src/Action/Targets/RoundTrip.antt =====
-- internal/action/action.go: `ParseTarget` on the text of a target.
use Prim.Native.Char.{Char, code}
use Prim.Native.String.{◌++◌}
use text.Mathlib.Text.{◌==◌ as str_eq}
use text.Mathlib.TextEquality.{eq_iff}
use text.Mathlib.TextLemmas.{nil-append, cons-append}
use remedik.Base.{
  cons-nonempty, lower_in, lower_char, to_lower, ◌≡◌, refl, ap, sym, ◌∙◌, false, String, [], ◌∷◌,
  ok, err, Result, ◌↔◌, arith, ◌==◌, Bool-cases, inl, inr,
}
use remedik.Action.Targets.{Target, is_zero, to_string, slash, split, parse_target}

abbrev the_slash : Char
the_slash = "/"

-- No character of the text is a slash.
abbrev pub HasNoSlash : String → Type 0
HasNoSlash String.[] = Unit {0}
HasNoSlash (String.◌∷◌ c s) = ((code c == slash) ≡ false) × HasNoSlash s

lower_in-ne-slash :
    (us ls : String) (c : Char)
    → (code c == slash) ≡ false
    → HasNoSlash ls
    → (code (lower_in us ls c) == slash) ≡ false
unfolding lower_in
lower_in-ne-slash String.[] ls c h k = h
lower_in-ne-slash (String.◌∷◌ u us) String.[] c h k = h
lower_in-ne-slash (String.◌∷◌ u us) (String.◌∷◌ l ls) c h k =
    ground (arith, lower_in-ne-slash us ls c h k.1)

small_letters-HasNoSlash : HasNoSlash "abcdefghijklmnopqrstuvwxyzik"
small_letters-HasNoSlash = ground arith

lower_char-ne-slash :
    (c : Char) → (code c == slash) ≡ false → (code (lower_char c) == slash) ≡ false
unfolding lower_char
lower_char-ne-slash c h =
    lower_in-ne-slash "ABCDEFGHIJKLMNOPQRSTUVWXYZİK" "abcdefghijklmnopqrstuvwxyzik" c h
      small_letters-HasNoSlash

to_lower-HasNoSlash : (s : String) → HasNoSlash s → HasNoSlash (to_lower s)
unfolding to_lower
to_lower-HasNoSlash String.[] h = tt
to_lower-HasNoSlash (String.◌∷◌ c s) h = (lower_char-ne-slash c h.0, to_lower-HasNoSlash s h.1)

split_of_HasNoSlash : (s : String) → HasNoSlash s → split s ≡ s ∷ []
unfolding split
split_of_HasNoSlash String.[] h = refl
split_of_HasNoSlash (String.◌∷◌ c s) h = rw (h.0, split_of_HasNoSlash s h.1) refl

split-slash : (t : String) → split (String.◌∷◌ (the_slash) t) ≡ "" ∷ split t
unfolding split
split-slash t = refl

split-append : (s t : String) → HasNoSlash s → split (s ++ ("/" ++ t)) ≡ s ∷ split t
unfolding split
split-append String.[] t h =
    rw (nil-append ("/" ++ t), cons-append the_slash "" t, nil-append t) refl
split-append (String.◌∷◌ c s) t h = rw (cons-append c s ("/" ++ t), h.0, split-append s t h.1) refl

-- The target that comes back: the kind in small letters.
abbrev pub lowered : Target → Target
lowered t = record t { kind = to_lower t.kind }

to_lower-nonempty : (s : String) → str_eq s "" ≡ false → str_eq (to_lower s) "" ≡ false
unfolding to_lower
to_lower-nonempty String.[] h = h
to_lower-nonempty (String.◌∷◌ c s) h = cons-nonempty (lower_char c) (to_lower s)

two_parts : (k n : String) → HasNoSlash k → HasNoSlash n → split (k ++ ("/" ++ n)) ≡ k ∷ n ∷ []
two_parts k n hk hn = split-append k n hk ∙ ap (λ r. k ∷ r) (split_of_HasNoSlash n hn)

three_parts :
    (k m n : String)
    → HasNoSlash k
    → HasNoSlash m
    → HasNoSlash n
    → split (k ++ ("/" ++ (m ++ ("/" ++ n)))) ≡ k ∷ m ∷ n ∷ []
three_parts k m n hk hm hn =
    split-append k (m ++ ("/" ++ n)) hk ∙ ap (λ r. k ∷ r) (two_parts m n hm hn)

lowered_iff :
    (t : Target) → (Path (Result Target) (ok (lowered t)) (ok t)) ↔ (to_lower t.kind ≡ t.kind)
lowered_iff t = (
  λ e. ap (λ r. elim r as (λ x. String) [ ok p ↦ p.kind | err x ↦ "" ]) e,
  λ e. ap (λ k. ok (record { kind = k; namespace = t.namespace; name = t.name })) e,
)

read_back :
    (t : Target) (read : Result Target)
    → read ≡ ok (lowered t)
    → (read ≡ ok t) ↔ (to_lower t.kind ≡ t.kind)
read_back t read e = let (to, from) = lowered_iff t in (λ x. to (sym e ∙ x), λ x. e ∙ from x)

pub read_lowered :
    (t : Target)
    → HasNoSlash t.kind
    → HasNoSlash t.namespace
    → HasNoSlash t.name
    → str_eq t.kind "" ≡ false
    → str_eq t.name "" ≡ false
    → parse_target (to_string t) ≡ ok (lowered t)
unfolding parse_target to_string is_zero
read_lowered t hk hs hn k n =
    let kind : HasNoSlash (to_lower t.kind) = to_lower-HasNoSlash t.kind hk in
    let here = to_lower-nonempty t.kind k in
    elim (Bool-cases (str_eq t.namespace "")) [
      | inl cluster ↦
          simp (k, cluster)
            (rw (two_parts (to_lower t.kind) t.name kind hn) (
              simp (here, n)
                (ap (λ ns. ok (record { kind = to_lower t.kind; namespace = ns; name = t.name }))
                  (sym ((eq_iff t.namespace "").0 cluster)))))
      | inr namespaced ↦
          simp (k, namespaced)
            (rw (three_parts (to_lower t.kind) t.namespace t.name kind hs hn)
              (simp (here, namespaced, n)))
    ]

-- For a target that has a kind and a name, and no slash in its three parts: its text is read back with
-- the kind in small letters, and so it is read back as the same target exactly when its kind was in
-- small letters already.
pub parse_target-to_string :
    (t : Target)
    → HasNoSlash t.kind
    → HasNoSlash t.namespace
    → HasNoSlash t.name
    → str_eq t.kind "" ≡ false
    → str_eq t.name "" ≡ false
    → (parse_target (to_string t) ≡ ok (lowered t))
      × ((parse_target (to_string t) ≡ ok t) ↔ (to_lower t.kind ≡ t.kind))
parse_target-to_string t hk hs hn k n =
    let read = read_lowered t hk hs hn k n in (read, read_back t (parse_target (to_string t)) read)
