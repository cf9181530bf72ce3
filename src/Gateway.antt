-- ===== src/Gateway.antt =====
-- internal/gateway/gateway.go: the receiver of webhooks. Logging, headers other than the two that are
-- read or set on a refusal, and the serialization of a body are left out. The JSON decoder, under the
-- limit on the body, is part of a request; the sink is a function on the state `S` behind it.
pub mod Admits
use Prim.Native.Char.{Char, code}
use text.Mathlib.Text.{◌==◌ as str_eq}
use remedik.Base.{
  ℕ, String, Bool, true, false, not, ◌&&◌, Option, none, some, List, [], ◌∷◌, str, num, Text, Error,
  errorf, Result, ok, err, ℤ, pos, le_ℤ, lt_ℤ, trim, lower_char, ◌==◌, if◌then◌else◌, length,
}
use remedik.Alert.{Alert}
use remedik.Alert.Parse.{Decoding, Parsing, parsed, refused, ParseResult, parse_webhook}

abbrev pub default_path : String
default_path = "/webhooks/alertmanager"

abbrev pub default_max_body_bytes : ℤ
default_max_body_bytes = pos 1048576

pub record Config (S : Type 0) : Type 0 where
  pub sink : Option (List Alert → S → S)
  pub path : String
  pub token : String
  pub max_body_bytes : ℤ
  pub accepting : Option (S → Bool)

pub record Handler (S : Type 0) : Type 0 where
  pub sink : List Alert → S → S
  pub path : String
  pub token : String
  pub max_body_bytes : ℤ
  pub accepting : Option (S → Bool)

pub record Request : Type 0 where
  pub path : String
  pub method : String
  pub authorization : String
  -- What the decoder answers under a limit on the bytes that are read.
  pub body : ℤ → Decoding

pub data IngestReason : Type 0 where
  not_leader body_too_large malformed_payload : IngestReason

-- The calls of the recorder, and the reading of the body.
pub data Effect : Type 0 where
  unauthorized body_read : Effect
  ingest_error : IngestReason → Effect
  alerts_truncated : ℤ → Effect
  alerts_received : ℕ → Effect

pub data Reply : Type 0 where
  received : ℕ → Reply
  failure : Text → Reply
  not_found_page : Reply

pub record Response : Type 0 where
  pub status : ℕ
  pub header : Option (String × String)
  pub body : Reply

-- `strings.EqualFold` of the beginning with a prefix; what follows it.
unfoldable pub strip_fold : String → String → Option String
unfolding lower_char
strip_fold String.[] s = some s
strip_fold (String.◌∷◌ c p) String.[] = none
strip_fold (String.◌∷◌ c p) (String.◌∷◌ d s) =
    let rest = strip_fold p s in if code (lower_char c) == code (lower_char d) then rest else none

-- What follows the scheme is the token, but for space around it.
unfoldable pub is_token : String → Option String → Bool
is_token token found = elim found [
  | none ↦ false
  | some rest ↦ if str_eq rest "" then false else str_eq (trim rest) token
]

unfoldable pub presents : String → String → Bool
unfolding is_token
presents token header = is_token token (strip_fold "Bearer " header)

module _ {S : Type 0} where
  unfoldable pub new : Config S → Result (Handler S)
  new cfg = elim cfg.sink [
    | none ↦ err (errorf (str "gateway: Sink is required" ∷ []))
    | some sink ↦ ok (record {
      sink = sink;
      path = if str_eq cfg.path "" then default_path else cfg.path;
      token = cfg.token;
      max_body_bytes =
          if le_ℤ cfg.max_body_bytes (pos 0) then default_max_body_bytes else cfg.max_body_bytes;
      accepting = cfg.accepting;
    })
  ]

  unfoldable pub authorized : Handler S → Request → Bool
  unfolding presents
  authorized h r = if str_eq h.token "" then true else presents h.token r.authorization

  unfoldable pub is_accepting : Handler S → S → Bool
  is_accepting h s = elim h.accepting [ none ↦ true | some ask ↦ ask s ]

  refuse : ℕ → Option (String × String) → Text → List Effect → S → (Response × List Effect) × S
  refuse status header message effects s =
      ((record { status = status; header = header; body = failure message }, effects), s)

  -- From the answer of the parser on.
  unfoldable pub take_parsed : Handler S → Parsing → S → (Response × List Effect) × S
  unfolding refuse
  take_parsed h (refused too_large e) s =
      if too_large
      then refuse 413 none (str "payload exceeds " ∷ num h.max_body_bytes ∷ str " bytes" ∷ [])
          (body_read ∷ ingest_error body_too_large ∷ []) s
      else refuse 400 none e.text_of (body_read ∷ ingest_error malformed_payload ∷ []) s
  take_parsed h (parsed result) s =
      let n = length result.alerts in
      let accepted = alerts_received n ∷ [] in
      let truncated =
        if lt_ℤ (pos 0) result.truncated_alerts
        then alerts_truncated result.truncated_alerts ∷ accepted
        else accepted in
      (
        (record { status = 200; header = none; body = received n }, body_read ∷ truncated),
        h.sink result.alerts s,
      )

  -- The response, what the recorder was told, and the state behind the sink.
  unfoldable pub serve : Handler S → Request → S → (Response × List Effect) × S
  unfolding authorized is_accepting refuse take_parsed
  serve h r s =
      if not (str_eq r.path h.path)
      then ((record { status = 404; header = none; body = not_found_page }, []), s)
      else if not (str_eq r.method "POST")
      then refuse 405 (some ("Allow", "POST")) (str "only POST is supported" ∷ []) [] s
      else if not (authorized h r)
      then refuse 401 (some ("WWW-Authenticate", "Bearer realm=\"remedik\""))
          (str "missing or invalid bearer token" ∷ []) (unauthorized ∷ []) s
      else if not (is_accepting h s)
      then refuse 503 (some ("Retry-After", "5"))
          (str "this replica is not the leader; retry and the service will route to the one that is"
            ∷ [])
          (ingest_error not_leader ∷ []) s
      else take_parsed h (parse_webhook (r.body h.max_body_bytes)) s
