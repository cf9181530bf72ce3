-- ===== src/Action.antt =====
-- internal/action/action.go: the contract of a remediation verb, its parameters and the registry.
-- An implementation is a record of functions over the cluster `W`; `Plan` and `Verify` are given
-- the cluster to change too, so that what they may do is no matter of types.
pub mod Targets
pub mod Scale
pub mod Rollback
pub mod Restart
use text.Mathlib.Text.{◌==◌ as str_eq}
use remedik.Base.{
  ℕ, suc, String, Bool, true, false, Option, none, some, List, [], ◌∷◌, ◌++◌, Text, str, num, Error,
  wrapf, errorf, unknown_action, Result, ok, err, ℤ, pos, second, minute, ◌*◌, le_ℤ, lt_ℤ, duration,
  if◌then◌else◌, is_some, sort_strings, map, ◌+◌,
}
use remedik.Base.Assoc
use remedik.Base.Assoc.{string_eq}
use remedik.Alert.{Labels, label}
use Targets.{Target}

-- `action.Params.Get`.
unfoldable pub get_param : Labels → String → String → String
get_param p key fallback = elim (Assoc.get p key) [
  | none ↦ fallback
  | some v ↦ if str_eq v "" then fallback else v
]

-- `time.ParseDuration` of the standard library is the parameter `parse`.
unfoldable pub get_duration : (String → Result ℤ) → Labels → String → ℤ → Result ℤ
get_duration parse p key fallback =
    let raw = get_param p key "" in
    if str_eq raw "" then ok fallback else elim (parse raw) [
      | err e ↦ err (record {
        text_of =
            str "parameter " ∷ str key ∷ str ": " ∷ e.text_of
            ++ str " (want a Go duration such as \"90s\" or \"2m\")" ∷ [];
        kind = e.kind;
      })
      | ok d ↦
          if le_ℤ d (pos 0)
          then err (
              errorf (
                str "parameter "
                ∷ str key
                ∷ str ": "
                ∷ str raw
                ∷ str " is not a positive duration"
                ∷ []))
          else ok d
    ]

-- `action.Result`.
pub record Report : Type 0 where
  pub summary : Text
  pub kubectl : Text
  pub outputs : Labels

pub record Request : Type 0 where
  pub target : Target
  pub params : Labels
  pub labels : Labels
  pub remediation : String
  pub strategy : String
  pub namespace : String
  pub dry_run : Bool

-- A verifier is given the time that it may take.
pub record Action (W : Type 0) : Type 0 where
  pub name : String
  pub resolve : Labels → Labels → Result Target
  pub plan : Request → W → (Report × Option Error) × W
  pub execute : Request → W → (Report × Option Error) × W
  pub verifier : Option (ℤ → Request → Report → W → (Report × Option Error) × W)

abbrev pub verify_timeout_param : String
verify_timeout_param = "verifyTimeout"

abbrev pub default_verify_timeout : ℤ
default_verify_timeout = pos (60 * second)

abbrev pub max_verify_timeout : ℤ
max_verify_timeout = pos (10 * minute)

cap_timeout : ℤ → Result ℤ
cap_timeout d =
    if lt_ℤ max_verify_timeout d
    then err (
        errorf (
          str "parameter "
          ∷ str verify_timeout_param
          ∷ str ": "
          ∷ duration d
          ∷ str " exceeds the maximum of "
          ∷ duration max_verify_timeout
          ∷ []))
    else ok d

unfoldable pub verify_timeout : (String → Result ℤ) → Labels → Result ℤ
unfolding get_duration get_param cap_timeout
verify_timeout parse params =
    elim (get_duration parse params verify_timeout_param default_verify_timeout) [
      | err e ↦ err e
      | ok d ↦ cap_timeout d
    ]

-- The registry, by name.
abbrev pub Registry : Type 0 → Type 0
Registry W = List (String × Action W)

join_names : List String → Text
join_names [] = []
join_names (n ∷ []) = str n ∷ []
join_names (n ∷ m ∷ ns) = str n ∷ str ", " ∷ join_names (m ∷ ns)

module _ {W : Type 0} where
  unfoldable pub names : Registry W → List String
  names r = sort_strings (map (λ e. e.0) r)

  unfoldable pub available : Registry W → Text
  unfolding names join_names
  available [] = str "no actions are enabled in this build" ∷ []
  available (a ∷ r) = str "enabled actions: " ∷ join_names (names (a ∷ r))

  -- `NewRegistry` refuses an empty name and a name that is taken.
  register : List (Action W) → Registry W → Result (Registry W)
  register [] r = ok r
  register (a ∷ rest) r =
      let taken = is_some (Assoc.get r a.name) in
      let more = register rest (Assoc.put r a.name a) in
      if str_eq a.name ""
      then err (errorf (str "action has an empty name" ∷ []))
      else if taken
      then err (errorf (str "duplicate action " ∷ str a.name ∷ []))
      else more

  unfoldable pub new_registry : List (Action W) → Result (Registry W)
  unfolding register
  new_registry actions = register actions []

  pub unknown : Registry W → String → Error
  unfolding available
  unknown r name = record {
    text_of = str "unknown action " ∷ str name ∷ str " (" ∷ available r ++ str ")" ∷ [];
    kind = unknown_action;
  }

  unfoldable pub get_action : Registry W → String → Result (Action W)
  unfolding unknown
  get_action r name = elim (Assoc.get r name) [ none ↦ err (unknown r name) | some a ↦ ok a ]

  unfoldable pub has_action : Registry W → String → Bool
  has_action r name = is_some (Assoc.get r name)

  unfoldable pub validate_from : Registry W → ℕ → List String → Option Error
  unfolding unknown has_action
  validate_from r i [] = none
  validate_from r i (n ∷ ns) =
      let rest = validate_from r (i + 1) ns in
      if has_action r n
      then rest
      else some (wrapf (str "step " ∷ num (pos (i + 1)) ∷ []) (unknown r n))

  unfoldable pub validate_names : Registry W → List String → Option Error
  unfolding validate_from
  validate_names r ns = validate_from r 0 ns
