-- ===== src/Engine/Effects.antt =====
-- What the engine acts on: a cluster `W`, a clock, the guard history, and a trace of the calls that
-- it makes, newest first. A function that reads the clock or calls out is a state transformer.
use remedik.Base.{ℕ, suc, String, Bool, true, false, Option, List, [], ◌∷◌, ℤ}
use remedik.Guards.{GuardName}
use remedik.Guards.Memory.{MemoryHistory}
use remedik.Action.Targets.{Target}
use remedik.Api.{State, StepPhase, RemediationStatus, Remediation}

pub data Call : Type 0 where
  planned executed verified : String → Target → Call
  announced_start announced_success announced_failure : String → Target → Call
  -- The last field tells whether the write was accepted.
  wrote_status : String → RemediationStatus → Bool → Call
  -- So does that of a creation.
  created : Remediation → Bool → Call
  deleted : String → Call
  announced_decision : String → Bool → Call
  counted_finish : State → Call
  counted_escalation : StepPhase → Call
  counted_unmatched : Call
  -- How many records a sweep deleted, and how many the guards held back.
  counted_swept : ℕ → ℕ → Call
  counted_manual counted_start announced_manual : String → Call
  counted_rejection announced_rejection : String → Option GuardName → Call

-- `clock n` is the n-th reading of the clock.
pub record Env (W : Type 0) : Type 0 where
  pub world : W
  pub clock : ℕ → ℤ
  pub readings : ℕ
  pub history : MemoryHistory
  pub trace : List Call

abbrev pub M : Type 0 → Type 0 → Type 0
M W A = Env W → A × Env W

-- The statuses that were written, newest first, each with whether it was accepted.
unfoldable pub writes : List Call → List (RemediationStatus × Bool)
writes [] = []
writes (wrote_status name status taken ∷ calls) = (status, taken) ∷ writes calls
writes (c ∷ calls) = writes calls

-- A call that runs a step, or tells of one.
abbrev pub works : Call → Bool
works (planned a t) = true
works (executed a t) = true
works (verified a t) = true
works (announced_start a t) = true
works (announced_success a t) = true
works (announced_failure a t) = true
works _ = false

module _ {W : Type 0} where
  abbrev pub pure : {A : Type 0} → A → M W A
  pure a e = (a, e)

  infixl 5 ◌>>=◌ ◌>>◌
  abbrev pub ◌>>=◌ : {A B : Type 0} → M W A → (A → M W B) → M W B
  ◌>>=◌ m f e = f (m e).0 (m e).1

  abbrev pub ◌>>◌ : {B : Type 0} → M W (Unit {0}) → M W B → M W B
  ◌>>◌ m k e = k (m e).1

  unfoldable pub now : M W ℤ
  now e = (e.clock e.readings, record e { readings = suc e.readings })

  unfoldable pub log : Call → M W (Unit {0})
  log c e = (tt, record e { trace = c ∷ e.trace })

  -- A call of code that may change the cluster.
  unfoldable pub call : {A : Type 0} → (W → A × W) → M W A
  call f e = let r = f e.world in (r.0, record e { world = r.1 })

  unfoldable pub remember : (MemoryHistory → MemoryHistory) → M W (Unit {0})
  remember f e = (tt, record e { history = f e.history })
