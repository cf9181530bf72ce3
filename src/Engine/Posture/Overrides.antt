-- ===== src/Engine/Posture/Overrides.antt =====
-- internal/engine/posture.go: the overrides, as text and as a list of namespaces.
pub mod Parses
use Prim.Native.String.{◌++◌ as append}
use text.Mathlib.Text.{◌==◌ as str_eq}
use remedik.Base.{
  String, Bool, true, false, not, Option, none, some, List, [], ◌∷◌, ◌++◌, str, errorf, Error,
  Result, ok, err, wrapf, if◌then◌else◌, sort_strings, trim, to_lower, cut,
}
use remedik.Base.Assoc
use remedik.Base.Assoc.{string_eq}
use remedik.Engine.Posture.{Mode, unset, live, dry, is_live, is_dry, Posture}

-- The text of a mode.
unfoldable pub mode_name : Mode → String
mode_name unset = ""
mode_name live = "live"
mode_name dry = "dryRun"

unfoldable pub same_mode : Mode → Mode → Bool
same_mode unset unset = true
same_mode live live = true
same_mode dry dry = true
same_mode _ _ = false

bool_differs : Bool → Bool → Bool
bool_differs true b = not b
bool_differs false b = b

mixed_in : Mode → List (String × Mode) → Bool
unfolding bool_differs is_dry is_live
mixed_in default_mode [] = false
mixed_in default_mode ((namespace, mode) ∷ overrides) =
    let rest = mixed_in default_mode overrides in
    if bool_differs (is_dry mode) (not (is_live default_mode)) then true else rest

unfoldable pub mixed : Posture → Bool
unfolding mixed_in
mixed p = mixed_in p.default_mode p.overrides

names_in : Mode → List (String × Mode) → List String
unfolding same_mode
names_in mode [] = []
names_in mode ((namespace, m) ∷ overrides) =
    let rest = names_in mode overrides in if same_mode m mode then namespace ∷ rest else rest

unfoldable pub namespaces : Posture → Mode → List String
unfolding names_in
namespaces p mode = sort_strings (names_in mode p.overrides)

join : String → List String → String
join separator [] = ""
join separator (s ∷ []) = s
join separator (s ∷ t ∷ ts) = append s (append separator (join separator (t ∷ ts)))

-- The part about one mode, where some namespace differs in it.
mode_part : Posture → Mode → List String
unfolding namespaces join mode_name same_mode
mode_part p mode =
    let names = namespaces p mode in
    elim names [
      | [] ↦ []
      | n ∷ ns ↦
          if same_mode mode p.default_mode
          then []
          else append (mode_name mode) (append " in " (join ", " (n ∷ ns))) ∷ []
    ]

pub to_string : Posture → String
unfolding mode_part join mode_name
to_string p = elim p.overrides [
  | [] ↦ append (mode_name p.default_mode) " everywhere"
  | o ∷ os ↦
      join "; "
        (append (mode_name p.default_mode) " by default" ∷ mode_part p live ++ mode_part p dry)
]

unfoldable pub parse_mode : String → Result Mode
unfolding to_lower
parse_mode value =
    let low = to_lower value in
    if str_eq low "live"
    then ok live
    else if str_eq low "dryrun"
    then ok dry
    else err (
        errorf (
          str "\""
          ∷ str value
          ∷ str
              "\" is not a posture; it is \"live\" (remedik acts) or \"dryRun\" (remedik only reports)"
          ∷ []))

pub not_a_pair : String → Error
not_a_pair pair = errorf (
    str "namespace posture \""
    ∷ str pair
    ∷ str "\" is not in the form \"namespace=live\" or \"namespace=dryRun\""
    ∷ [])

pub two_postures : String → Mode → Mode → Error
unfolding mode_name
two_postures namespace existing mode = errorf (
    str "namespace \""
    ∷ str namespace
    ∷ str "\" is given two postures, \""
    ∷ str (mode_name existing)
    ∷ str "\" and \""
    ∷ str (mode_name mode)
    ∷ str "\""
    ∷ [])

-- Without the space around them; both must be there.
unfoldable pub checked : Option (String × String) → Option (String × String)
checked none = none
checked (some (namespace, value)) =
    if str_eq (trim namespace) ""
    then none
    else if str_eq (trim value) ""
    then none
    else some (trim namespace, trim value)

-- The namespace and the value of a pair.
unfoldable pub split_pair : String → Option (String × String)
unfolding checked
split_pair pair = checked (cut b'=' (trim pair))

-- One round of the loop.
unfoldable pub add_override :
    List (String × Mode) → String → String → Result Mode → Result (List (String × Mode))
add_override overrides namespace value (err e) =
    err (wrapf (str "namespace \"" ∷ str namespace ∷ str "\"" ∷ []) e)
add_override overrides namespace value (ok mode) = elim (Assoc.get overrides namespace) [
  | none ↦ ok (Assoc.put overrides namespace mode)
  | some existing ↦
      if same_mode existing mode
      then ok (Assoc.put overrides namespace mode)
      else err (two_postures namespace existing mode)
]

unfoldable pub add_pair : List (String × Mode) → String → Result (List (String × Mode))
unfolding add_override
add_pair overrides pair = elim (split_pair pair) [
  | none ↦ err (not_a_pair pair)
  | some (namespace, value) ↦ add_override overrides namespace value (parse_mode value)
]

unfoldable pub parse_from : List (String × Mode) → List String → Result (List (String × Mode))
parse_from overrides [] = ok overrides
parse_from overrides (pair ∷ pairs) = elim (add_pair overrides pair) [
  | err e ↦ err e
  | ok more ↦ parse_from more pairs
]

unfoldable pub parse_posture : List String → Result (List (String × Mode))
unfolding parse_from
parse_posture pairs = parse_from [] pairs
