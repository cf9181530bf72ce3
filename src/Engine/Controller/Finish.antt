-- ===== src/Engine/Controller/Finish.antt =====
-- internal/engine/controller.go: `finish`, which writes a terminal state, and what a pass returns.
pub mod Writes
use remedik.Base.{
  ℕ, String, Bool, true, false, not, ◌&&◌, Option, none, some, List, [], ◌∷◌, Text, str, Error,
  wrapf, Result, ok, err, ℤ, pos, if◌then◌else◌,
}
use text.Mathlib.Text.{◌==◌ as str_eq}
use remedik.Api.{
  State, Reason, no_reason, interrupted, step_failed, gave_up, approval_timeout, denied,
  unknown_action_reason, Remediation,
}
use remedik.Guards.Memory.{MemoryHistory, record_completion}
use remedik.Engine.Effects.{Env, M, pure, ◌>>=◌, ◌>>◌, now, log, remember, counted_finish}
use remedik.Engine.Reconciler.{Reconciler, update}
use remedik.Engine.Controller.Prune.{prune}

-- `ctrl.Result` with the error: when to look again, if at all.
pub record Verdict : Type 0 where
  pub requeue_after : ℤ
  pub error : Option Error

abbrev pub done : Option Error → Verdict
done e = record { requeue_after = pos 0; error = e }

abbrev pub requeue : ℤ → Verdict
requeue wait = record { requeue_after = wait; error = none }

is_gave_up : Reason → Bool
is_gave_up gave_up = true
is_gave_up _ = false

-- A completion is remembered for a target, but not where remedik only gave up on it.
remember_completion : Remediation → Reason → ℤ → MemoryHistory → MemoryHistory
unfolding is_gave_up
remember_completion rem why completed h =
    if not (str_eq rem.spec.target "") && not (is_gave_up why)
    then record_completion h rem.spec.strategy_name rem.spec.target completed
    else h

unfoldable pub ended : Remediation → State → Reason → Text → ℤ → Remediation
ended rem state why message completed = record rem {
  status = record rem.status {
    state = state;
    reason = why;
    message = message;
    completed_at = some completed;
  };
}

module _ {W : Type 0} where
  after_write : Reconciler W → State → Reason → ℤ → Result Remediation → M W (Option Error)
  unfolding remember remember_completion log
  after_write r state why completed (err e) =
      pure (some (wrapf (str "record terminal state" ∷ []) e))
  after_write r state why completed (ok rem) = do
    remember (remember_completion rem why completed)
    log (counted_finish state)
    pruned ← prune r rem.namespace rem.spec.strategy_name rem.name
    pure none

  unfoldable pub finish : Reconciler W → Remediation → State → Reason → Text → M W (Option Error)
  unfolding now after_write
  finish r rem state why message = do
    completed ← now
    written ← update r (ended rem state why message completed)
    after_write r state why completed written
