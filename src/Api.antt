-- ===== src/Api.antt =====
-- api/v1alpha1: the two custom resources. Conditions and the observed status of a strategy, which
-- the remediation path does not read, are left out. A text field that the engine composes is a
-- `Text`; "" stands for an unset mode, state, reason or decision as a constructor of its own.
use remedik.Base.{ℕ, String, Bool, true, false, Option, none, some, List, Text, ℤ, pos, minute, ◌*◌}
use remedik.Alert.{Labels}

pub data State : Type 0 where
  unset_state pending running succeeded failed simulated awaiting_approval : State

unfoldable pub is_terminal : State → Bool
is_terminal succeeded = true
is_terminal failed = true
is_terminal simulated = true
is_terminal _ = false

pub data Reason : Type 0 where
  no_reason interrupted step_failed gave_up approval_timeout denied unknown_action_reason : Reason

pub data StepPhase : Type 0 where
  step_running step_succeeded step_failure step_skipped step_simulated : StepPhase

pub data ExecutionMode : Type 0 where
  unset_mode auto approval manual : ExecutionMode

pub data EscalationMode : Type 0 where
  unset_escalation every_channel first_success : EscalationMode

pub data ApprovalDecision : Type 0 where
  approve deny undecided : ApprovalDecision

pub record Step : Type 0 where
  pub action : String
  pub params : Labels

pub record StepStatus : Type 0 where
  pub index : ℕ
  pub action : String
  pub target : String
  pub phase : StepPhase
  pub plan : Text
  pub kubectl : Text
  pub outputs : Labels
  pub verified : Text
  pub message : Text
  pub started_at : Option ℤ
  pub completed_at : Option ℤ

pub record EscalationStatus : Type 0 where
  pub phase : StepPhase
  pub steps : List StepStatus
  pub message : Text
  pub completed_at : Option ℤ

pub record Approval : Type 0 where
  pub decision : ApprovalDecision
  pub by : String
  pub note : String

pub record AlertRef : Type 0 where
  pub fingerprint : String
  pub name : String
  pub labels : Labels
  pub starts_at : Option ℤ

pub record RemediationSpec : Type 0 where
  pub strategy_name : String
  pub target : String
  pub alert : AlertRef
  pub steps : List Step
  pub retries : ℕ
  pub escalation_steps : List Step
  pub escalation_mode : EscalationMode
  pub mode : ExecutionMode
  pub approval_deadline : Option ℤ
  pub approval : Option Approval
  pub dry_run : Bool

pub record RemediationStatus : Type 0 where
  pub state : State
  pub attempt : ℕ
  pub steps : List StepStatus
  pub reason : Reason
  pub message : Text
  pub started_at : Option ℤ
  pub completed_at : Option ℤ
  pub escalation : Option EscalationStatus

-- Annotations hold texts that the engine composes.
pub record Remediation : Type 0 where
  pub name : String
  pub generate_name : String
  pub namespace : String
  pub labels : Labels
  pub annotations : List (String × Text)
  pub creation : ℤ
  pub resource_version : ℕ
  pub spec : RemediationSpec
  pub status : RemediationStatus

abbrev pub label_strategy : String
label_strategy = "remedik.dev/strategy"

abbrev pub label_fingerprint : String
label_fingerprint = "remedik.dev/fingerprint"

abbrev pub label_gave_up : String
label_gave_up = "remedik.dev/gave-up"

abbrev pub label_paused : String
label_paused = "remedik.dev/paused"

abbrev pub annotation_gave_up_reason : String
annotation_gave_up_reason = "remedik.dev/gave-up-reason"

abbrev pub annotation_pause_reason : String
annotation_pause_reason = "remedik.dev/pause-reason"

pub record GiveUpAfter : Type 0 where
  pub count : ℤ
  pub within : ℤ

pub record BlastRadiusSpec : Type 0 where
  pub min_available : ℤ
  pub max_unavailable_percent : ℤ

pub record GuardsSpec : Type 0 where
  pub cooldown : Option ℤ
  pub max_per_hour : ℤ
  pub blast_radius : Option BlastRadiusSpec
  pub give_up_after : Option GiveUpAfter

pub record Strategy : Type 0 where
  pub name : String
  pub enabled : Option Bool
  pub match : Labels
  pub mode : ExecutionMode
  pub approval_timeout : Option ℤ
  pub guards : GuardsSpec
  pub steps : List Step
  pub retries : ℕ
  pub failure_steps : List Step
  pub escalation_mode : EscalationMode

unfoldable pub is_enabled : Strategy → Bool
is_enabled s = elim s.enabled [ none ↦ true | some b ↦ b ]

abbrev pub default_approval_timeout : ℤ
default_approval_timeout = pos (15 * minute)
