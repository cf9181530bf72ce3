-- ===== src/Engine/Sink.antt =====
-- internal/engine/sink.go: from alerts to records. Logging and the debug line on strategies that did
-- not match are left out. The pause does not change while one delivery is consumed.
pub mod Consume
use text.Mathlib.Text.{◌==◌ as str_eq}
use remedik.Base.{
  ℕ, String, Bool, true, false, not, ◌&&◌, ◌||◌, Option, none, some, List, [], ◌∷◌, map, Text, str,
  Error, errorf, wrapf, Result, ok, err, ℤ, pos, lt_ℤ, add, neg, before, if◌then◌else◌, any,
}
use Prim.Native.String.{◌++◌}
use remedik.Base.Assoc
use remedik.Base.Assoc.{string_eq}
use remedik.Alert.{Alert, Labels, is_firing, name}
use remedik.Matching.{Rule, select}
use remedik.Guards.{
  Config, GiveUp, Decision, GuardName, give_up_guard, cooldown_guard, max_per_hour_guard,
  blast_radius_guard, evaluate,
}
use remedik.Guards.Memory.{as_history, record_start}
use remedik.Guards.BlastRadius.{BlastRadius, Reader, evaluate_blast_radius}
use remedik.Action.{Action, Registry, get_action}
use remedik.Action.Targets.{Target, is_zero, to_string}
use remedik.Api.{
  unset_state, no_reason, Step, ExecutionMode, unset_mode, auto, approval, manual, EscalationMode,
  unset_escalation, first_success, every_channel, RemediationSpec, RemediationStatus, Remediation,
  GuardsSpec, Strategy, is_enabled, default_approval_timeout, label_strategy, label_fingerprint,
  label_gave_up, label_paused, annotation_gave_up_reason, annotation_pause_reason,
}
use remedik.Engine.Effects.{
  Env, M, pure, ◌>>=◌, ◌>>◌, now, log, call, remember, created, counted_unmatched, counted_manual,
  counted_start, announced_manual, counted_rejection, announced_rejection,
}
use remedik.Engine.Reconciler.{Client}
use remedik.Engine.Posture.{Posture, dry_run_for}

pub record Sink (W : Type 0) : Type 0 where
  pub client : Client W
  pub registry : Registry W
  -- What the reader would answer in the cluster as it is.
  pub workloads : Option (W → Reader)
  pub namespace : String
  pub posture : Posture
  pub has_events : Bool
  pub paused : Bool
  pub pause_reason : String

pub target_string : Target → String
target_string t = if is_zero t then "" else to_string t

unfoldable pub guard_config : Strategy → Config
guard_config s = record {
  cooldown = elim s.guards.cooldown [ none ↦ pos 0 | some d ↦ d ];
  max_per_hour = s.guards.max_per_hour;
  give_up_after = elim s.guards.give_up_after [
    | none ↦ record { count = pos 0; within = pos 0 }
    | some g ↦ record { count = g.count; within = g.within }
  ];
}

pub blast_radius_config : Strategy → BlastRadius
blast_radius_config s = elim s.guards.blast_radius [
  | none ↦ record { min_available = pos 0; max_unavailable_percent = pos 0 }
  | some b ↦ record {
    min_available = b.min_available;
    max_unavailable_percent = b.max_unavailable_percent;
  }
]

-- A mode that is not set is `auto`.
execution_mode : ExecutionMode → ExecutionMode
execution_mode approval = approval
execution_mode manual = manual
execution_mode auto = auto
execution_mode unset_mode = auto

escalation_mode_of : EscalationMode → EscalationMode
escalation_mode_of first_success = first_success
escalation_mode_of every_channel = every_channel
escalation_mode_of unset_escalation = every_channel

timeout_of : Option ℤ → ℤ
timeout_of none = default_approval_timeout
timeout_of (some d) = if lt_ℤ (pos 0) d then d else default_approval_timeout

approval_deadline : Strategy → ℤ → ℤ
unfolding timeout_of
approval_deadline s t = add t (timeout_of s.approval_timeout)

pub is_manual : ExecutionMode → Bool
is_manual manual = true
is_manual _ = false

needs_approval : ExecutionMode → Bool
needs_approval approval = true
needs_approval _ = false

rule_of : Strategy → Rule
rule_of s = record { name = s.name; enabled = is_enabled s; match = s.match }

pub rules : List Strategy → List Rule
unfolding rule_of
rules = map rule_of

-- The map by name: of two strategies with one name the later one stays.
pub by_name : List Strategy → List (String × Strategy) → List (String × Strategy)
by_name [] m = m
by_name (s ∷ ss) m = by_name ss (Assoc.put m s.name s)

fresh_status : RemediationStatus
fresh_status = record {
  state = unset_state;
  attempt = 0;
  steps = [];
  reason = no_reason;
  message = [];
  started_at = none;
  completed_at = none;
  escalation = none;
}

resolve_first : {W : Type 0} → Registry W → Alert → String → List Step → Result Target
resolve_first registry a strategy [] =
    err (errorf (str "strategy \"" ∷ str strategy ∷ str "\" has no steps" ∷ []))
resolve_first registry a strategy (first ∷ steps) = elim (get_action registry first.action) [
  | err e ↦ err e
  | ok act ↦ act.resolve a.labels first.params
]

no_target : Target
no_target = record { kind = ""; namespace = ""; name = "" }

-- The target that the guards are asked about; one that does not resolve is empty.
pub target_of : {W : Type 0} → Registry W → Alert → Strategy → Target
unfolding resolve_first no_target
target_of registry a s = elim (resolve_first registry a s.name s.steps) [
  | err e ↦ no_target
  | ok t ↦ t
]

module _ {W : Type 0} where
  -- The record of an execution, but for the deadline of its approval.
  pub record_of : Sink W → Alert → Strategy → Target → Option ℤ → Remediation
  unfolding fresh_status target_string escalation_mode_of execution_mode
  record_of k a s t deadline =
      let base = (label_strategy, s.name) ∷ (label_fingerprint, a.fingerprint) ∷ [] in
      record {
        name = "";
        generate_name = s.name ++ "-";
        namespace = k.namespace;
        labels = if k.paused then Assoc.put base label_paused "true" else base;
        annotations =
            if k.paused && not (str_eq k.pause_reason "")
            then (annotation_pause_reason, str k.pause_reason ∷ []) ∷ []
            else [];
        creation = pos 0;
        resource_version = 0;
        spec = record {
          strategy_name = s.name;
          target = target_string t;
          alert = record {
            fingerprint = a.fingerprint;
            name = name a;
            labels = a.labels;
            starts_at = some a.starts_at;
          };
          steps = s.steps;
          retries = s.retries;
          escalation_steps = s.failure_steps;
          escalation_mode = escalation_mode_of s.escalation_mode;
          mode = execution_mode s.mode;
          approval_deadline = deadline;
          approval = none;
          dry_run = dry_run_for k.posture t.namespace || k.paused;
        };
        status = fresh_status;
      }

  -- The record that says that remedik has stopped: no steps, no retries, never a dry run.
  pub give_up_record : Sink W → Alert → Strategy → Target → Text → Remediation
  unfolding fresh_status target_string escalation_mode_of execution_mode
  give_up_record k a s t why = record {
    name = "";
    generate_name = s.name ++ "-gaveup-";
    namespace = k.namespace;
    labels =
        (label_strategy, s.name)
        ∷ (label_fingerprint, a.fingerprint)
        ∷ (label_gave_up, "true")
        ∷ [];
    annotations = (annotation_gave_up_reason, why) ∷ [];
    creation = pos 0;
    resource_version = 0;
    spec = record {
      strategy_name = s.name;
      target = target_string t;
      alert = record {
        fingerprint = a.fingerprint;
        name = name a;
        labels = a.labels;
        starts_at = some a.starts_at;
      };
      steps = [];
      retries = 0;
      escalation_steps = s.failure_steps;
      escalation_mode = escalation_mode_of s.escalation_mode;
      mode = execution_mode s.mode;
      approval_deadline = none;
      approval = none;
      dry_run = false;
    };
    status = fresh_status;
  }
