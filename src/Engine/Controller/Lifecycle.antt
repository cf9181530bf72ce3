-- ===== src/Engine/Controller/Lifecycle.antt =====
-- internal/engine/controller.go and approval.go: the statuses that a remediation passes through, as a
-- relation from the status that holds to the one that is written.
use remedik.Base.{
  ◌+◌, ◌≤◌, ◌<◌, ◌⊎◌, ◌≡◌, refl, Bool, true, false, List, [], ◌∷◌, is_some, all, arith,
}
use remedik.Api.{
  State, unset_state, pending, running, succeeded, failed, simulated, awaiting_approval,
  is_terminal, Reason, no_reason, interrupted, gave_up, approval_timeout, denied, approval,
  RemediationSpec, RemediationStatus, StepStatus, step_running,
}
use remedik.Engine.Steps.Outcome.{StopsAtFailure}

-- Neither over nor running: a pass may run the plan.
abbrev pub is_open : State → Bool
is_open unset_state = true
is_open pending = true
is_open awaiting_approval = true
is_open _ = false

abbrev pub has_ended : StepStatus → Bool
has_ended s = elim s.phase [ step_running ↦ false | _ ↦ true ]

-- What a failure for a reason says of the status `s` that held before it.
abbrev pub FailsFor : RemediationSpec → RemediationStatus → RemediationStatus → Reason → Type 0
FailsFor spec s s' no_reason = ⊥
FailsFor spec s s' interrupted = (s.state ≡ running) × (all has_ended s'.steps ≡ true)
FailsFor spec s s' gave_up = is_open s.state ≡ true
FailsFor spec s s' approval_timeout = (is_open s.state ≡ true) × (spec.mode ≡ approval)
FailsFor spec s s' denied = (is_open s.state ≡ true) × (spec.mode ≡ approval)
FailsFor spec s s' _ =
    (s.state ≡ running)
    × (spec.retries < s.attempt)
    × StopsAtFailure spec.dry_run 0 spec.steps s'.steps true

-- The plan ran from its first step to its last, none failed, and the time of the end is known.
abbrev pub Passed : RemediationSpec → RemediationStatus → RemediationStatus → Bool → Type 0
Passed spec s s' dry =
    (s.state ≡ running)
    × (spec.dry_run ≡ dry)
    × StopsAtFailure dry 0 spec.steps s'.steps false
    × (is_some s'.completed_at ≡ true)

abbrev pub Enters : RemediationSpec → RemediationStatus → RemediationStatus → State → Type 0
Enters spec s s' unset_state = ⊥
Enters spec s s' running = (is_open s.state ≡ true) × (s'.attempt ≡ s.attempt + 1) × (s'.steps ≡ [])
Enters spec s s' pending =
    (s.state ≡ running)
    × (s'.attempt ≡ s.attempt)
    × (s.attempt ≤ spec.retries)
    × StopsAtFailure spec.dry_run 0 spec.steps s'.steps true
Enters spec s s' awaiting_approval =
    (is_open s.state ≡ true) × (s'.attempt ≡ s.attempt) × (spec.mode ≡ approval)
Enters spec s s' succeeded = (s'.attempt ≡ s.attempt) × Passed spec s s' false
Enters spec s s' simulated = (s'.attempt ≡ s.attempt) × Passed spec s s' true
Enters spec s s' failed =
    (s'.attempt ≡ s.attempt) × FailsFor spec s s' s'.reason × (is_some s'.completed_at ≡ true)

-- The status `s'` may be written where `s` holds.
abbrev pub Follows : RemediationSpec → RemediationStatus → RemediationStatus → Type 0
Follows spec s s' = Enters spec s s' s'.state

-- The status that holds after the writes, newest first, where `s` held before them: a refused
-- write changes nothing.
abbrev pub current : RemediationStatus → List (RemediationStatus × Bool) → RemediationStatus
current s [] = s
current s ((s', true) ∷ ws) = s'
current s ((s', false) ∷ ws) = current s ws

abbrev pub Legal : RemediationSpec → RemediationStatus → List (RemediationStatus × Bool) → Type 0
Legal spec s [] = Unit {0}
Legal spec s ((s', taken) ∷ ws) = Follows spec (current s ws) s' × Legal spec s ws

-- The statuses that a record may have after some writes that were accepted.
pub data Reaches (spec : RemediationSpec) (s : RemediationStatus) : RemediationStatus → Type 0 where
  start : Reaches spec s s
  next : {s' s'' : RemediationStatus} → Reaches spec s s' → Follows spec s' s'' → Reaches spec s s''

pub Legal-Reaches :
    (spec : RemediationSpec) (s : RemediationStatus) (ws : List (RemediationStatus × Bool))
    → Legal spec s ws
    → Reaches spec s (current s ws)
Legal-Reaches spec s [] l = start
Legal-Reaches spec s ((s', true) ∷ ws) (f, l) = next (Legal-Reaches spec s ws l) f
Legal-Reaches spec s ((s', false) ∷ ws) (f, l) = Legal-Reaches spec s ws l

-- The attempts that a status may count: another one may start only while retries are left.
abbrev pub AttemptsFit : RemediationSpec → RemediationStatus → Type 0
AttemptsFit spec s =
    ((is_open s.state ≡ false) ⊎ (s.attempt ≤ spec.retries)) × (s.attempt ≤ spec.retries + 1)

-- `attempt` as the state that was entered bounds it.
attempts_after :
    (spec : RemediationSpec) (s s' : RemediationStatus) (state : State)
    → s'.state ≡ state
    → AttemptsFit spec s
    → Enters spec s s' state
    → AttemptsFit spec s'
attempts_after spec s s' unset_state st fit f = absurd f
attempts_after spec s s' pending st fit f = ground arith
attempts_after spec s s' running st fit f = ground arith
attempts_after spec s s' succeeded st fit f = ground arith
attempts_after spec s s' failed st fit f = ground arith
attempts_after spec s s' simulated st fit f = ground arith
attempts_after spec s s' awaiting_approval st fit f = ground arith

-- Over any sequence of passes an attempt count never exceeds the retries by more than one, and a
-- record that may still start an attempt has not used up its retries.
pub Reaches-AttemptsFit :
    (spec : RemediationSpec) (s s' : RemediationStatus)
    → Reaches spec s s'
    → AttemptsFit spec s
    → AttemptsFit spec s'
Reaches-AttemptsFit spec s s' start fit = fit
Reaches-AttemptsFit spec s s'' (next {s'} path f) fit =
    attempts_after spec s' s'' s''.state refl (Reaches-AttemptsFit spec s s' path fit) f

-- A terminal status is final.
pub terminal-final :
    (spec : RemediationSpec) (s s' : RemediationStatus) (state : State)
    → is_terminal s.state ≡ true
    → Enters spec s s' state
    → ⊥
unfolding is_terminal
terminal-final spec s s' state over f = ground arith
