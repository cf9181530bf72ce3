-- ===== src/Examples/Cluster.antt =====
-- A cluster of the smallest kind, for the examples: every write is accepted and echoed, and there are
-- an action that succeeds and one that fails.
use remedik.Base.{
  ℕ, suc, String, Bool, true, false, ◌≡◌, sym, ap, Option, none, some, List, [], ◌∷◌, str, Error,
  errorf, Result, ok, err, ℤ, pos,
}
use remedik.Action.{Action, Registry, Report}
use remedik.Api.{
  unset_state, no_reason, Step, ExecutionMode, first_success, RemediationStatus, Remediation,
}
use remedik.Guards.Memory.{new_memory_history}
use remedik.Engine.Effects.{Env}
use remedik.Engine.Steps.{StepRunner}
use remedik.Engine.Reconciler.{Client, Reconciler, Echoes}

abbrev pub said : String → Report
said s = record { summary = str s ∷ []; kubectl = []; outputs = [] }

-- The cluster counts what was executed.
abbrev pub acting : String → Option Error → Action ℕ
acting name failure = record {
  name = name;
  resolve = λ labels params. ok (record { kind = "Deployment"; namespace = "shop"; name = "web" });
  plan = λ request w. ((said "would act", none), w);
  execute = λ request w. ((said "acted", failure), suc w);
  verifier = none;
}

abbrev pub restart : Step
restart = record { action = "restart"; params = [] }

abbrev pub broken : Step
broken = record { action = "broken"; params = [] }

abbrev pub actions : Registry ℕ
actions =
    ("restart", acting "restart" none)
    ∷ ("broken", acting "broken" (some (errorf (str "refused" ∷ []))))
    ∷ []

abbrev pub no_parser : String → Result ℤ
no_parser s = err (errorf (str "no duration" ∷ []))

abbrev pub small_client : Client ℕ
small_client = record {
  get = λ name w. (err (errorf []), w);
  list = λ namespace labels w. (ok [], w);
  strategies = λ w. (ok [], w);
  create = λ rem w. (none, w);
  update_status = λ rem w. (ok rem, w);
  delete = λ rem w. (none, w);
}

pub small_client-Echoes : Echoes small_client
small_client-Echoes rem rem' w same =
    let e : rem ≡ rem' = cc same in
    (sym (ap (λ q. q.name) e), sym (ap (λ q. q.spec) e), sym (ap (λ q. q.status) e))

abbrev pub reconciler : Reconciler ℕ
reconciler = record {
  client = small_client;
  registry = actions;
  history_limit = pos 3;
  has_events = false;
  has_mapper = false;
  parse_duration = no_parser;
  render = λ t. "";
}

abbrev pub runner : Bool → StepRunner ℕ
runner dry = record {
  registry = actions;
  remediation = "shop-1";
  strategy = "restart-web";
  namespace = "remedik";
  dry_run = dry;
  publishes = true;
  parse_duration = no_parser;
}

abbrev pub fresh : Env ℕ
fresh = record {
  world = 0;
  clock = λ n. pos n;
  readings = 0;
  history = new_memory_history (pos 0);
  trace = [];
}

abbrev pub unstarted : RemediationStatus
unstarted = record {
  state = unset_state;
  attempt = 0;
  steps = [];
  reason = no_reason;
  message = [];
  started_at = none;
  completed_at = none;
  escalation = none;
}

abbrev pub remediation : ExecutionMode → List Step → ℕ → Remediation
remediation mode steps retries = record {
  name = "shop-1";
  generate_name = "shop-";
  namespace = "remedik";
  labels = [];
  annotations = [];
  creation = pos 0;
  resource_version = 1;
  spec = record {
    strategy_name = "restart-web";
    target = "deployment/shop/web";
    alert = record { fingerprint = "f"; name = "WebDown"; labels = []; starts_at = none };
    steps = steps;
    retries = retries;
    escalation_steps = [];
    escalation_mode = first_success;
    mode = mode;
    approval_deadline = some (pos 100);
    approval = none;
    dry_run = false;
  };
  status = unstarted;
}
