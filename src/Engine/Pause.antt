-- ===== src/Engine/Pause.antt =====
-- internal/engine/pause.go: the switch that holds remediation back. The ticker around a poll and the
-- log lines are left out; the atomics of the switch are one value, written by one poller.
pub mod Polls
use text.Mathlib.Text.{◌==◌ as str_eq}
use remedik.Base.{
  String, Bool, true, false, not, Option, none, some, List, [], ◌∷◌, Error, ErrorKind, not_found,
  unknown_action, other_error, Result, ok, err, if◌then◌else◌, trim, to_lower,
}
use remedik.Alert.{Labels, label}

abbrev pub pause_key : String
pause_key = "paused"

abbrev pub pause_reason_key : String
pause_reason_key = "reason"

pub record Pause : Type 0 where
  pub paused : Bool
  pub reason : Option String

-- The accessors, of a switch that may be nil.
unfoldable pub is_paused : Option Pause → Bool
is_paused none = false
is_paused (some p) = p.paused

unfoldable pub pause_reason : Option Pause → String
pause_reason none = ""
pause_reason (some p) = elim p.reason [ none ↦ "" | some r ↦ r ]

-- The switch, and whether it changed.
unfoldable pub set : Pause → Bool → String → Pause × Bool
set p paused reason =
    (record { paused = paused; reason = some reason }, if p.paused then not paused else paused)

-- `strconv.ParseBool`.
unfoldable pub parse_bool : String → Option Bool
parse_bool s =
    if str_eq s "1"
    then some true
    else if str_eq s "t"
    then some true
    else if str_eq s "T"
    then some true
    else if str_eq s "TRUE"
    then some true
    else if str_eq s "true"
    then some true
    else if str_eq s "True"
    then some true
    else if str_eq s "0"
    then some false
    else if str_eq s "f"
    then some false
    else if str_eq s "F"
    then some false
    else if str_eq s "FALSE"
    then some false
    else if str_eq s "false"
    then some false
    else if str_eq s "False"
    then some false
    else none

unfoldable pub parse_paused : String → Bool
unfolding parse_bool
parse_paused value =
    let low = to_lower (trim value) in
    if str_eq low "yes"
    then true
    else if str_eq low "on"
    then true
    else elim (parse_bool (trim value)) [ none ↦ false | some b ↦ b ]

unfoldable pub is_not_found : Error → Bool
is_not_found e = elim e.kind [ not_found ↦ true | _ ↦ false ]

-- A poll, from what the reader answered: the data of the ConfigMap. The switch after it, and whether it
-- changed.
unfoldable pub poll : Result Labels → Pause → Pause × Bool
unfolding set parse_paused is_not_found
poll (err e) p = if is_not_found e then set p false "" else (p, false)
poll (ok data_of) p =
    set p (parse_paused (label data_of pause_key)) (trim (label data_of pause_reason_key))
