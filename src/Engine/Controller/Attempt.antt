-- ===== src/Engine/Controller/Attempt.antt =====
-- internal/engine/controller.go: `runAttempt`, every step once and what follows. Attempts and
-- retries are numbers far below 2^31 (the CRD caps the retries at 10).
pub mod Decides
use remedik.Base.{
  ℕ, ◌+◌, String, Bool, true, false, ◌&&◌, Option, none, some, List, [], ◌∷◌, str, Error, wrapf,
  Result, ok, err, ℤ, pos, leb, if◌then◌else◌,
}
use remedik.Api.{State, pending, running, failed, Reason, no_reason, Remediation, RemediationStatus}
use remedik.Engine.Effects.{Env, M, pure, ◌>>=◌, ◌>>◌, now}
use remedik.Engine.Steps.{StepRunner, RunResult, run, terminal_state}
use remedik.Engine.Reconciler.{Reconciler, update}
use remedik.Engine.Escalation.{escalate}
use remedik.Engine.Backoff.{backoff}
use remedik.Engine.Controller.Finish.{Verdict, done, requeue, finish}

or_started : Option ℤ → ℤ → Option ℤ
or_started none t = some t
or_started (some s) t = some s

-- The record as it is written before anything runs.
unfoldable pub marked_running : Remediation → ℤ → Remediation
unfolding or_started
marked_running rem started = record rem {
  status = record rem.status {
    state = running;
    attempt = rem.status.attempt + 1;
    steps = [];
    started_at = or_started rem.status.started_at started;
  };
}

unfoldable pub with_steps : Remediation → RunResult → Remediation
with_steps rem result = record rem { status = record rem.status { steps = result.steps } }

unfoldable pub set_to_retry : Remediation → Reason → Error → Remediation
set_to_retry rem why e = record rem {
  status = record rem.status { state = pending; reason = why; message = e.text_of };
}

module _ {W : Type 0} where
  -- The plan runs under the posture that the record holds.
  unfoldable pub attempt_runner : Reconciler W → Remediation → StepRunner W
  attempt_runner r rem = record {
    registry = r.registry;
    remediation = rem.name;
    strategy = rem.spec.strategy_name;
    namespace = rem.namespace;
    dry_run = rem.spec.dry_run;
    publishes = r.has_events && r.has_mapper;
    parse_duration = r.parse_duration;
  }

  after_retry : ℤ → Result Remediation → M W Verdict
  after_retry wait (err e) = pure (done (some (wrapf (str "record failed attempt" ∷ []) e)))
  after_retry wait (ok rem) = pure (requeue wait)

  retry : Reconciler W → Remediation → Reason → Error → ℤ → M W Verdict
  unfolding after_retry
  retry r rem why e wait = do written ← update r (set_to_retry rem why e); after_retry wait written

  -- The retries are spent: escalate, then write the terminal state with the outcome of the page.
  fail_for_good : Reconciler W → Remediation → ℕ → Reason → Error → M W Verdict
  fail_for_good r rem attempt why e = do
    page ← escalate r rem attempt why e.text_of
    ended ←
        finish r (record rem { status = record rem.status { escalation = page } }) failed why
          e.text_of
    pure (done ended)

  conclude : Reconciler W → Remediation → ℕ → RunResult → Option Error → M W Verdict
  unfolding retry fail_for_good
  conclude r rem attempt result none = do
    ended ← finish r rem (terminal_state rem.spec.dry_run none) no_reason []
    pure (done ended)
  conclude r rem attempt result (some e) =
      if leb attempt rem.spec.retries
      then retry r rem result.reason e (pos (backoff (attempt + 1)))
      else fail_for_good r rem attempt result.reason e

  after_mark : Reconciler W → ℕ → Result Remediation → M W Verdict
  unfolding attempt_runner with_steps conclude
  after_mark r attempt (err e) = pure (done (some (wrapf (str "mark remediation running" ∷ []) e)))
  after_mark r attempt (ok rem) = do
    result ← run (attempt_runner r rem) rem.spec.alert.labels rem.spec.steps
    conclude r (with_steps rem result) attempt result result.error

  unfoldable pub run_attempt : Reconciler W → Remediation → M W Verdict
  unfolding now after_mark
  run_attempt r rem = do
    started ← now
    marked ← update r (marked_running rem started)
    after_mark r (rem.status.attempt + 1) marked
