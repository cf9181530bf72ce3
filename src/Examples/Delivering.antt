-- ===== src/Examples/Delivering.antt =====
-- The theorems on deliveries, on a small sink.
use remedik.Base.{
  ℕ, ◌≡◌, refl, Bool, true, false, none, some, [], ◌∷◌, pos, minute, ◌*◌, count, inl, ◌⊎◌, ok,
}
use remedik.Alert.{is_firing}
use remedik.Matching.{select}
use remedik.Api.{Strategy, auto, every_channel}
use remedik.Engine.Posture.{live}
use remedik.Engine.Sink.{Sink, rules, by_name}
use remedik.Engine.Sink.Consume.{consume, consume_one}
use remedik.Engine.Sink.Consume.Starts.{Idle, Chosen, consume_one-starts}
use remedik.Engine.Sink.Consume.Pauses.{goes_live, consume-Held}
use remedik.Examples.Cluster.{actions, restart, small_client, fresh}
use remedik.Examples.Choosing.{web_down}

abbrev pub strategy : Strategy
strategy = record {
  name = "restart-web";
  enabled = none;
  match = ("alertname", "WebDown") ∷ [];
  mode = auto;
  approval_timeout = none;
  guards = record {
    cooldown = some (pos (10 * minute));
    max_per_hour = pos 5;
    blast_radius = none;
    give_up_after = none;
  };
  steps = restart ∷ [];
  retries = 1;
  failure_steps = [];
  escalation_mode = every_channel;
}

abbrev pub sink : Bool → Sink ℕ
sink paused = record {
  client = record small_client { strategies = λ w. (ok (strategy ∷ []), w) };
  registry = actions;
  workloads = none;
  namespace = "remedik";
  posture = record { default_mode = live; overrides = [] };
  has_events = true;
  paused = paused;
  pause_reason = "a change is being rolled out";
}

consume-Held_example :
    count goes_live (consume (sink true) (web_down ∷ web_down ∷ []) fresh).1.trace
    ≡ count goes_live fresh.trace
consume-Held_example = consume-Held (sink true) (web_down ∷ web_down ∷ []) fresh (inl refl)

consume_one-starts_example :
    let rs = rules (strategy ∷ []) in
    let m = by_name (strategy ∷ []) [] in
    let e = (consume_one (sink false) web_down rs m fresh).1 in
    Idle fresh e
    ⊎ ((is_firing web_down ≡ true) × Chosen (sink false) web_down m (select web_down rs) fresh e)
consume_one-starts_example =
    consume_one-starts (sink false) web_down (rules (strategy ∷ [])) (by_name (strategy ∷ []) [])
      fresh
