-- ===== src/Engine/Loader.antt =====
-- internal/engine/history.go: the guard history is rebuilt from the records in the cluster. The counts
-- for the log line are left out.
pub mod Replays
pub mod Decides
use text.Mathlib.Text.{◌==◌ as str_eq}
use remedik.Base.{
  Bool, true, false, not, Option, none, some, List, [], ◌∷◌, String, str, Error, wrapf, Result, ok,
  err, ℤ, is_zero_time, if◌then◌else◌,
}
use remedik.Alert.{label}
use remedik.Api.{Remediation, is_terminal, label_gave_up}
use remedik.Guards.Memory.{MemoryHistory, record_start, record_completion, prune}
use remedik.Engine.Effects.{Env, M, pure, ◌>>=◌, ◌>>◌, now, call, remember}
use remedik.Engine.Reconciler.{Client}

-- The `HistoryLoader`; the history that it fills is that of the environment.
pub record Loader (W : Type 0) : Type 0 where
  pub client : Client W
  pub namespace : String

-- The creation stands in where the execution never began.
unfoldable pub started_at : Remediation → Option ℤ
started_at rem = elim rem.status.started_at [
  | some t ↦ some t
  | none ↦ if is_zero_time rem.creation then none else some rem.creation
]

-- The instant of a completion that is replayed.
unfoldable pub completed_on_target : Remediation → Option ℤ
completed_on_target rem =
    if is_terminal rem.status.state
    then (if str_eq rem.spec.target "" then none else rem.status.completed_at)
    else none

replay_start : Remediation → MemoryHistory → MemoryHistory
replay_start rem h = elim (started_at rem) [
  | none ↦ h
  | some t ↦ record_start h rem.spec.strategy_name t
]

replay_completion : Remediation → MemoryHistory → MemoryHistory
replay_completion rem h = elim (completed_on_target rem) [
  | none ↦ h
  | some t ↦ record_completion h rem.spec.strategy_name rem.spec.target t
]

-- One round of the loop; a give-up record executed nothing.
replay_record : MemoryHistory → Remediation → MemoryHistory
unfolding replay_start replay_completion
replay_record h rem =
    if str_eq (label rem.labels label_gave_up) "true"
    then h
    else replay_completion rem (replay_start rem h)

pub replay_records : MemoryHistory → List Remediation → MemoryHistory
unfolding replay_record
replay_records h [] = h
replay_records h (rem ∷ items) = replay_records (replay_record h rem) items

module _ {W : Type 0} where
  load_listed : Result (List Remediation) → M W (Option Error)
  unfolding remember replay_records now
  load_listed (err e) = pure (some (wrapf (str "list remediations" ∷ []) e))
  load_listed (ok items) = do
    remember (λ h. replay_records h items)
    t ← now
    remember (λ h. prune h t)
    pure none

  unfoldable pub load : Loader W → M W (Option Error)
  unfolding call load_listed
  load l = do listed ← call (l.client.list l.namespace []); load_listed listed
