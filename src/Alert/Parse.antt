-- ===== src/Alert/Parse.antt =====
-- internal/alert/parse.go and `validateStatus` of internal/alert/alert.go: a webhook delivery. The JSON
-- decoder is the standard library's; what it answers is an argument.
pub mod Accepts
use Prim.Native.String.{◌++◌ as append}
use text.Mathlib.Text.{◌==◌ as str_eq}
use remedik.Base.{
  ℕ, suc, String, Bool, true, false, ◌||◌, List, [], ◌∷◌, str, num, Text, Error, errorf, wrapf,
  Result, ok, err, ℤ, pos, trim, to_lower, if◌then◌else◌,
}
use remedik.Base.Assoc
use remedik.Base.Assoc.{string_eq}
use remedik.Alert.{Alert, Status, firing, resolved, Labels, name}
use remedik.Alert.Fingerprint.{derive_fingerprint}

abbrev pub supported_webhook_version : String
supported_webhook_version = "4"

pub record WebhookItem : Type 0 where
  pub status : String
  pub labels : Labels
  pub annotations : Labels
  pub starts_at : ℤ
  pub ends_at : ℤ
  pub generator_url : String
  pub fingerprint : String

pub record WebhookPayload : Type 0 where
  pub version : String
  pub truncated_alerts : ℤ
  pub alerts : List WebhookItem

pub record ParseResult : Type 0 where
  pub alerts : List Alert
  pub truncated_alerts : ℤ

-- What the decoder answers; `too_large` is an error that wraps an `http.MaxBytesError`.
pub data Decoding : Type 0 where
  decoded : WebhookPayload → Decoding
  end_of_input : Decoding
  too_large malformed : Error → Decoding

-- What `ParseWebhook` answers; a refusal tells whether the body was too large.
pub data Parsing : Type 0 where
  parsed : ParseResult → Parsing
  refused : Bool → Error → Parsing

-- `%q` adds quotes and escapes; only the quotes are kept.
quoted : String → String
quoted s = append "\"" (append s "\"")

unfoldable pub validate_status : String → Result Status
unfolding quoted
validate_status s =
    let value = to_lower (trim s) in
    if str_eq value "firing"
    then ok firing
    else if str_eq value "resolved"
    then ok resolved
    else if str_eq value ""
    then err (errorf (str "status is empty, want \"firing\" or \"resolved\"" ∷ []))
    else err (
        errorf
          (str "unknown status " ∷ str (quoted s) ∷ str ", want \"firing\" or \"resolved\"" ∷ []))

-- Whether `len` of a map is 0.
unfoldable pub is_empty : Labels → Bool
is_empty [] = true
is_empty (l ∷ ls) = false

-- A copy of a map has the same entries.
copy_from : Labels → Labels → Labels
copy_from out [] = out
copy_from out ((k, v) ∷ labels) = copy_from (Assoc.put out k v) labels

copy_map : Labels → Labels
unfolding copy_from
copy_map labels = copy_from [] labels

fingerprint_of : WebhookItem → String
fingerprint_of it =
    if str_eq it.fingerprint "" then derive_fingerprint it.labels else it.fingerprint

alert_of : WebhookItem → Status → Alert
unfolding fingerprint_of copy_map
alert_of it status = record {
  fingerprint = fingerprint_of it;
  status = status;
  labels = copy_map it.labels;
  annotations = copy_map it.annotations;
  starts_at = it.starts_at;
  ends_at = it.ends_at;
  generator_url = it.generator_url;
}

unfoldable pub normalize : WebhookItem → Result Alert
unfolding alert_of
normalize it = elim (validate_status it.status) [
  | err e ↦ err e
  | ok status ↦
      if is_empty it.labels
      then err (errorf (str "alert has no labels" ∷ []))
      else ok (alert_of it status)
]

-- The loop over the entries, from index `i`.
unfoldable pub normalize_from : ℕ → List WebhookItem → Result (List Alert)
normalize_from i [] = ok []
normalize_from i (it ∷ items) =
    let others = normalize_from (suc i) items in
    elim (normalize it) [
      | err e ↦ err (wrapf (str "alert[" ∷ num (pos i) ∷ str "]" ∷ []) e)
      | ok a ↦ elim others [ err e ↦ err e | ok alerts ↦ ok (a ∷ alerts) ]
    ]

unfoldable pub unsupported : String → Bool
unsupported version =
    if str_eq version ""
    then false
    else if str_eq version supported_webhook_version
    then false
    else true

unfoldable pub parse_payload : WebhookPayload → Parsing
unfolding unsupported normalize_from quoted
parse_payload payload =
    if unsupported payload.version
    then refused false (
        errorf (
          str "unsupported webhook payload version "
          ∷ str (quoted payload.version)
          ∷ str ", want \"4\""
          ∷ []))
    else elim (normalize_from 0 payload.alerts) [
      | err e ↦ refused false e
      | ok alerts ↦ parsed (record { alerts = alerts; truncated_alerts = payload.truncated_alerts })
    ]

unfoldable pub parse_webhook : Decoding → Parsing
unfolding parse_payload
parse_webhook (decoded payload) = parse_payload payload
parse_webhook end_of_input = refused false (errorf (str "empty payload" ∷ []))
parse_webhook (too_large e) = refused true (wrapf (str "decode webhook payload" ∷ []) e)
parse_webhook (malformed e) = refused false (wrapf (str "decode webhook payload" ∷ []) e)
