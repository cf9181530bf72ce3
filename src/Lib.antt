-- ===== src/Lib.antt =====
-- A model of remedik, the operator that turns alerts into remediations, and of what makes its core
-- correct. The program's parts, each with the file that models it:
--
-- - api/v1alpha1 (the custom resources): Api. A record to a Go struct, a data type to a string enum;
--   the empty string of an enum is a constructor of its own. Conditions and the observed status of a
--   strategy are left out.
-- - internal/alert/alert.go: Alert. Labels are an association list; `label` reads a missing key as "".
--   Alert/Fingerprint is `DeriveFingerprint`, on the bytes that are hashed; Alert/Parse is
--   internal/alert/parse.go, from what the JSON decoder answers.
-- - internal/gateway: Gateway. `serve` is `ServeHTTP`: the response, the calls of the recorder and the state
--   behind the sink.
-- - internal/matching/matching.go: Matching. `matches`, `candidates`, `select` and `why_not` are
--   `Matches`, `Candidates`, `Select` and `WhyNot`; proofs in Matching/Best and Matching/Explain.
-- - internal/guards/guards.go: Guards, over the read model `History`; proofs in Guards/Limits and, with
--   the history below, in Guards/Logged.
--   internal/guards/memory.go: Guards/Memory, whose children hold binary search, sorting, the view of
--   one map as a bag of entries, and Guards/Memory/Log, the log that it is compared with.
--   internal/guards/blastradius.go: Guards/BlastRadius, over a workload reader.
-- - internal/action/action.go: Action (parameters, the contract of a verb, the registry) and
--   Action/Targets. An action is a record of functions over a cluster `W`, so that each call may change
--   the cluster.
--   internal/action/workload/scale.go: Action/Scale (the client and the checks), Action/Scale/Count
--   (`targetCount`), Action/Scale/Deployments and Action/Scale/Autoscalers.
--   internal/action/workload/rollback.go: Action/Rollback, up to the choice of the revision.
--   internal/action/workload/restart.go: Action/Restart, the workload meant and the wait for a rollout.
-- - internal/engine: Engine. Engine/Effects is what it acts on: a cluster, a clock whose n-th reading is
--   `clock n`, the guard history and a trace of the calls, threaded by do blocks. Engine/Steps is
--   steps.go (`run_step`, `run`), Engine/Backoff backoff.go, Engine/Escalation escalation.go.
--   Engine/Reconciler holds the fields of `RemediationReconciler` and its status writes, with the
--   Kubernetes client as a record of functions; Engine/Controller is `Reconcile`, and its children are
--   `runAttempt` (Attempt), `finish` (Finish), `prune` (Prune) and approval.go (Approvals).
--   Engine/Controller/Lifecycle is the state machine of a record, as a relation between statuses, and
--   Engine/Controller/Gate is about what runs before somebody approves.
-- - internal/engine/sink.go: Engine/Sink (what it is made of and the records that it makes) and
--   Engine/Sink/Consume (`consumeOne`, `recordGiveUp`, `Consume`). internal/engine/posture.go:
--   Engine/Posture (`DryRunFor`) and Engine/Posture/Overrides (parsing and listing).
--   internal/engine/pause.go: Engine/Pause. internal/engine/workload.go: Engine/Workload, the reader that the
--   blastRadius guard asks. internal/engine/strategy.go: Engine/Readiness. internal/engine/snapshot.go:
--   Engine/Snapshot.
-- - internal/engine/history.go: Engine/Loader; its proofs compare the rebuilt history with counts over the
--   records. internal/engine/sweeper.go: Engine/Sweeper (`candidates`, `guardFloor`, `Sweep`); proofs in its
--   children. Engine/Restart puts the two together: a sweep, then a restart.
-- - Base holds what the parts share: Boolean tests, lists, integers, the order of strings, texts and
--   errors, association lists. Examples applies the theorems to concrete data.
--
-- The sink turns each firing alert into at most one record, if a strategy is selected and every guard
-- allows it. A pass reads a record through the client, writes `Running`, runs the plan step by step, and
-- writes the outcome; where the retries are spent it runs the escalation first and then writes `Failed`.
-- A finished record is remembered in the guard history, which the time guards ask before another record
-- is made.
--
-- How the model stands to the code:
--
-- - Instants and durations are integers of nanoseconds; a difference of instants saturates as
--   `time.Time.Sub` does. Attempts, retries and indices are natural numbers: the resource
--   definition caps the retries at ten and the plan at a fixed length, far below 2^31. The wait of
--   Engine/Backoff stays at most ten minutes, below 2^63 nanoseconds.
-- - A composed message is a list of pieces (`Text`), not its rendering; an error is its text with the
--   kind that `errors.Is` asks for. The escapes of `%q` are left out. Where a rendered string is needed, rendering is a field of the
--   reconciler, as are `time.ParseDuration` and the client.
-- - Every loop is structural on a list or on a number of rounds, so there is no fuel; only the binary
--   search of Guards/Memory/Search recurses on a bound, the length that it searches.
-- - The order in which Go visits the map of the sweep's groups, which the language leaves open, is that
--   of the first record of each strategy. The floor of a sweep wraps in 64 bits as the code's sum does.
-- - `sort` and `SliceStable` are insertion sorts. Strings are ordered by code points, and `strings.ToLower`
--   is the one on ASCII letters and the two other characters whose lower case is one.
-- - The only hypothesis on code that is not here is `Echoes`: a status write that the API server accepts
--   answers with the object as it is written. (The API server cuts the instants to seconds, which no
--   conclusion speaks of.) That plans of actions only read is assumed in Engine/Steps/Trace where it says so.
-- - The counts of a workload's status are not negative, as the API has it, so their difference stays in 32
--   bits. A pause holds still while the sink consumes one delivery, and a target that comes back with an
--   error is dropped, as no action returns one.
--
-- Not modelled: logging, metric values, contexts and deadlines, locks (each method of the history holds
-- its lock whole), tickers, Kubernetes events beyond the fact that they are published; the decoding of JSON, the writing of responses, the
-- dashboard, the actions but for scaling, the choice of a rollback and the wait for a restart, and generated code.
pub mod Base
pub mod Alert
pub mod Gateway
pub mod Matching
pub mod Action
pub mod Guards
pub mod Api
pub mod Engine
pub mod Examples
