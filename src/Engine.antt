-- ===== src/Engine.antt =====
-- internal/engine: from a matched alert to an audited remediation.
pub mod Effects
pub mod Backoff
pub mod Steps
pub mod Reconciler
pub mod Escalation
pub mod Controller
pub mod Posture
pub mod Pause
pub mod Sink
pub mod Loader
pub mod Sweeper
pub mod Restart
pub mod Workload
pub mod Readiness
pub mod Snapshot
