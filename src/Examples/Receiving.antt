-- ===== src/Examples/Receiving.antt =====
-- The theorems on deliveries over HTTP, on the overrides and on the pause switch, on concrete data.
use remedik.Base.{
  ℕ, ◌≡◌, refl, inl, String, true, false, none, some, List, [], ◌∷◌, ◌++◌, pos, all, map, trim, cut,
  ok, err, errorf, sort_strings, lt_str,
}
use remedik.Base.Assoc
use remedik.Base.Assoc.{Eq, string_eq}
use remedik.Alert.{Labels}
use remedik.Alert.Fingerprint.{written, pair_bytes, sorted_keys}
use remedik.Alert.Fingerprint.Encoding.{written_injective}
use remedik.Alert.Parse.{WebhookItem, WebhookPayload, decoded, parse_payload}
use remedik.Alert.Parse.Accepts.{ReadsPayload, parse_payload-Reads}
use remedik.Gateway.{Handler, Request, serve}
use remedik.Gateway.Admits.{Outcome, serve-Outcome}
use remedik.Engine.Effects.{Env}
use remedik.Engine.Sink.Consume.{consume}
use remedik.Engine.Posture.{Mode, live, dry, is_dry, new_posture, dry_run_for}
use remedik.Engine.Posture.Overrides.{parse_mode, split_pair, add_pair, parse_posture}
use remedik.Engine.Posture.Overrides.Parses.{Says, parse_posture-honours}
use remedik.Engine.Pause.{is_paused, pause_reason, is_not_found}
use remedik.Engine.Pause.Polls.{polled, is_unreadable, says_paused, says_reason, polled-last}
use remedik.Examples.Cluster.{fresh}
use remedik.Examples.Delivering.{sink}

abbrev entry : WebhookItem
entry = record {
  status = " Firing";
  labels = ("alertname", "WebDown") ∷ [];
  annotations = [];
  starts_at = pos 5;
  ends_at = pos 0;
  generator_url = "";
  fingerprint = "";
}

abbrev payload : WebhookPayload
payload = record { version = "4"; truncated_alerts = pos 0; alerts = entry ∷ [] }

parse_payload-Reads_example : ReadsPayload payload (parse_payload payload)
parse_payload-Reads_example = parse_payload-Reads payload

abbrev pair_labels : Labels
pair_labels = ("job", "web") ∷ ("team", "shop") ∷ []

abbrev shuffled_labels : Labels
shuffled_labels = ("team", "shop") ∷ ("job", "web") ∷ []

written_injective_example :
    map (pair_bytes pair_labels) (sorted_keys pair_labels)
    ≡ map (pair_bytes shuffled_labels) (sorted_keys shuffled_labels)
unfolding written sorted_keys sort_strings pair_bytes Assoc.get lt_str
written_injective_example = written_injective pair_labels shuffled_labels refl

abbrev handler : Handler (Env ℕ)
handler = record {
  sink = λ alerts e. (consume (sink false) alerts e).1;
  path = "/webhooks/alertmanager";
  token = "secret";
  max_body_bytes = pos 1048576;
  accepting = none;
}

abbrev request : String → Request
request authorization = record {
  path = "/webhooks/alertmanager";
  method = "POST";
  authorization = authorization;
  body = λ limit. decoded payload;
}

serve-Outcome_example :
    Outcome handler (request "Bearer secret") fresh (serve handler (request "Bearer secret") fresh)
serve-Outcome_example = serve-Outcome handler (request "Bearer secret") fresh

abbrev pairs : List String
pairs = "shop = live" ∷ "bank=dryRun" ∷ []

abbrev overrides : List (String × Mode)
overrides = ("shop", live) ∷ ("bank", dry) ∷ []

parse_posture-honours_example :
    (namespace : String) × ((mode : Mode) × (Says "shop = live" namespace mode
        × (dry_run_for (new_posture true overrides) namespace ≡ is_dry mode)))
unfolding parse_posture add_pair split_pair cut trim parse_mode Assoc.get Assoc.put
parse_posture-honours_example =
    parse_posture-honours pairs overrides true "shop = live" refl (inl refl)

polled-last_example :
    let now = some (
      polled
        ([] ++ ok (("paused", "yes") ∷ []) ∷ err (errorf []) ∷ [])
        (record { paused = false; reason = none })) in
    (is_paused now ≡ says_paused (ok (("paused", "yes") ∷ [])))
    × (pause_reason now ≡ says_reason (ok (("paused", "yes") ∷ [])))
unfolding is_unreadable is_not_found all
polled-last_example =
    polled-last [] (err (errorf []) ∷ []) (ok (("paused", "yes") ∷ []))
      (record { paused = false; reason = none }) refl refl
