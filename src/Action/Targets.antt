-- ===== src/Action/Targets.antt =====
-- internal/action/action.go: the object that a step acts on, and its text.
pub mod RoundTrip
use Prim.Native.Char.{Char, code}
use Prim.Native.String.{◌++◌}
use text.Mathlib.Text.{◌==◌ as str_eq}
use remedik.Base.{
  ℕ, String, Bool, true, false, ◌&&◌, ◌||◌, List, [], ◌∷◌, str, to_lower, Result, ok, err, errorf,
  ◌==◌, if◌then◌else◌,
}

pub record Target : Type 0 where
  pub kind : String
  pub namespace : String
  pub name : String

unfoldable pub is_zero : Target → Bool
is_zero t = str_eq t.kind "" && (str_eq t.namespace "" && str_eq t.name "")

unfoldable pub to_string : Target → String
unfolding is_zero to_lower
to_string t =
    if is_zero t
    then ""
    else if str_eq t.namespace ""
    then to_lower t.kind ++ ("/" ++ t.name)
    else to_lower t.kind ++ ("/" ++ (t.namespace ++ ("/" ++ t.name)))

abbrev pub slash : ℕ
slash = b'/'

add_char : Char → List String → List String
add_char c [] = []
add_char c (s ∷ ss) = String.◌∷◌ c s ∷ ss

-- `strings.Split(s, "/")`.
unfoldable pub split : String → List String
unfolding add_char
split String.[] = "" ∷ []
split (String.◌∷◌ c s) = if code c == slash then "" ∷ split s else add_char c (split s)

malformed : String → Result Target
malformed s = err (errorf (str "malformed target " ∷ str s ∷ []))

target_of_parts : String → List String → Result Target
unfolding malformed
target_of_parts s (k ∷ n ∷ []) =
    if str_eq k "" || str_eq n ""
    then malformed s
    else ok (record { kind = k; namespace = ""; name = n })
target_of_parts s (k ∷ ns ∷ n ∷ []) =
    if str_eq k "" || (str_eq ns "" || str_eq n "")
    then malformed s
    else ok (record { kind = k; namespace = ns; name = n })
target_of_parts s _ =
    err (
      errorf (str "malformed target " ∷ str s ∷ str ": want kind/name or kind/namespace/name" ∷ []))

unfoldable pub parse_target : String → Result Target
unfolding target_of_parts split
parse_target s = target_of_parts s (split s)
