-- ===== src/Engine/Escalation.antt =====
-- internal/engine/escalation.go: what runs when a remediation has failed for good.
pub mod Channels
pub mod Writes
use remedik.Base.{
  ℕ, suc, String, Bool, true, false, ◌&&◌, Option, none, some, List, [], ◌∷◌, Text, str, num, Error,
  ℤ, pos, length, if◌then◌else◌,
}
use remedik.Base.Assoc
use remedik.Base.Assoc.{string_eq}
use remedik.Alert.{Labels}
use remedik.Api.{
  Step, StepStatus, StepPhase, step_succeeded, step_failure, step_skipped, EscalationMode,
  first_success, unset_escalation, every_channel, EscalationStatus, Remediation, Reason, no_reason,
  interrupted, step_failed, gave_up, approval_timeout, denied, unknown_action_reason,
}
use remedik.Engine.Effects.{Env, M, pure, ◌>>=◌, ◌>>◌, now, log, counted_escalation}
use remedik.Engine.Steps.{StepRunner, run_step, blank}
use remedik.Engine.Reconciler.{Reconciler}

pub record ChannelResult : Type 0 where
  pub steps : List StepStatus
  pub delivered : Bool
  pub last_error : Option Error

pub is_first_success : EscalationMode → Bool
is_first_success first_success = true
is_first_success every_channel = false
is_first_success unset_escalation = false

already_reached : ℕ → Step → StepStatus
unfolding blank
already_reached i step = record (blank i step step_skipped) {
  message = str "an earlier channel already reached somebody" ∷ [];
}

-- An error leaves `delivered` as it is, a success sets it.
delivered_by : Bool → Option Error → Bool
delivered_by delivered none = true
delivered_by delivered (some e) = delivered

last_error_of : Option Error → Option Error → Option Error
last_error_of last none = last
last_error_of last (some e) = some e

-- `strconv.FormatInt` and the message, as label values, are rendered by the standard library.
reason_name : Reason → String
reason_name no_reason = ""
reason_name interrupted = "Interrupted"
reason_name step_failed = "StepFailed"
reason_name gave_up = "GaveUp"
reason_name approval_timeout = "ApprovalTimeout"
reason_name denied = "Denied"
reason_name unknown_action_reason = "UnknownAction"

bool_name : Bool → String
bool_name true = "true"
bool_name false = "false"

escalation_labels : (Text → String) → Remediation → ℕ → Reason → Text → Labels
unfolding reason_name bool_name
escalation_labels render rem attempts why message =
    let base = rem.spec.alert.labels in
    let a = Assoc.put base "remedik_remediation" rem.name in
    let b = Assoc.put a "remedik_strategy" rem.spec.strategy_name in
    let c = Assoc.put b "remedik_target" rem.spec.target in
    let d = Assoc.put c "remedik_reason" (reason_name why) in
    let f = Assoc.put d "remedik_message" (render message) in
    let g = Assoc.put f "remedik_attempts" (render (num (pos attempts) ∷ [])) in
    Assoc.put g "remedik_dry_run" (bool_name rem.spec.dry_run)

error_text : Option Error → Text
error_text none = []
error_text (some e) = e.text_of

escalation_status : ChannelResult → ℤ → EscalationStatus
unfolding error_text
escalation_status c completed = record {
  phase = if c.delivered then step_succeeded else step_failure;
  steps = c.steps;
  message = if c.delivered then [] else error_text c.last_error;
  completed_at = some completed;
}

module _ {W : Type 0} where
  -- The loop of `runChannels`, from what was delivered and went wrong so far.
  channels_from :
      StepRunner W
      → Labels
      → EscalationMode
      → ℕ
      → Bool
      → Option Error
      → List Step
      → M W ChannelResult
  unfolding is_first_success already_reached delivered_by last_error_of
  channels_from r labels mode i delivered last [] =
      pure (record { steps = []; delivered = delivered; last_error = last })
  channels_from r labels mode i delivered last (step ∷ plan) =
      elim (delivered && is_first_success mode) [
        | true ↦ (do
          rest ← channels_from r labels mode (suc i) delivered last plan
          pure (record rest { steps = already_reached i step ∷ rest.steps }))
        | false ↦ (do
          done ← run_step r i labels step
          rest ←
              channels_from r labels mode (suc i) (delivered_by delivered done.1)
                (last_error_of last done.1) plan
          pure (record rest { steps = done.0 ∷ rest.steps }))
      ]

  pub run_channels : StepRunner W → Labels → List Step → EscalationMode → M W ChannelResult
  unfolding channels_from
  run_channels r labels plan mode = channels_from r labels mode 0 false none plan

  -- Never a dry run, whatever the remediation was.
  unfoldable pub escalation_runner : Reconciler W → Remediation → StepRunner W
  escalation_runner r rem = record {
    registry = r.registry;
    remediation = rem.name;
    strategy = rem.spec.strategy_name;
    namespace = rem.namespace;
    dry_run = false;
    publishes = r.has_events && r.has_mapper;
    parse_duration = r.parse_duration;
  }

  escalate_with :
      Reconciler W → Remediation → ℕ → Reason → Text → List Step → M W (Option EscalationStatus)
  unfolding run_channels escalation_runner escalation_status escalation_labels now log
  escalate_with r rem attempts why message [] = pure none
  escalate_with r rem attempts why message (step ∷ plan) = do
    done ←
        run_channels (escalation_runner r rem) (escalation_labels r.render rem attempts why message)
          (step ∷ plan) rem.spec.escalation_mode
    completed ← now
    let status = escalation_status done completed
    log (counted_escalation status.phase)
    pure (some status)

  unfoldable pub escalate :
      Reconciler W → Remediation → ℕ → Reason → Text → M W (Option EscalationStatus)
  unfolding escalate_with
  escalate r rem attempts why message =
      escalate_with r rem attempts why message rem.spec.escalation_steps
