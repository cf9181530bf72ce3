-- ===== src/Alert.antt =====
-- internal/alert/alert.go: the normalized alert.
pub mod Fingerprint
pub mod Parse
use remedik.Base.{String, Bool, true, false, none, some, List, ℤ}
use remedik.Base.Assoc
use remedik.Base.Assoc.{string_eq}

pub data Status : Type 0 where
  firing resolved : Status

-- A Go map of strings.
abbrev pub Labels : Type 0
Labels = List (String × String)

-- `m[key]`, which is "" for a missing key.
abbrev pub label : Labels → String → String
label m key = elim (Assoc.get m key) [ none ↦ "" | some v ↦ v ]

pub record Alert : Type 0 where
  pub fingerprint : String
  pub status : Status
  pub labels : Labels
  pub annotations : Labels
  pub starts_at : ℤ
  pub ends_at : ℤ
  pub generator_url : String

abbrev pub label_alert_name : String
label_alert_name = "alertname"

unfoldable pub name : Alert → String
name a = label a.labels label_alert_name

abbrev pub firing_status : Status → Bool
firing_status firing = true
firing_status resolved = false

unfoldable pub is_firing : Alert → Bool
is_firing a = firing_status a.status
