-- ===== src/Engine/Loader/Replays.antt =====
-- internal/engine/history.go: the rebuilt history against the records.
use text.Mathlib.Text.{◌==◌ as str_eq}
use remedik.Base.{
  ◌+◌, ◌≡◌, refl, ap, ◌∙◌, Bool, false, not, ◌&&◌, none, some, List, [], ◌∷◌, String, arith, ℤ, neg,
  add, count, if◌then◌else◌,
}
use remedik.Base.Assoc.{string_eq, pair_eq}
use remedik.Alert.{label}
use remedik.Api.{Remediation, label_gave_up}
use remedik.Guards.Memory.{MemoryHistory, prune}
use remedik.Guards.Memory.Slices.{is_from}
use remedik.Guards.Memory.Holds.{tally, tally-keep}
use remedik.Guards.Memory.Log.{Event, Log, start, completion, pruning, replay, tell, note, note_all}
use remedik.Engine.Loader.{started_at, completed_on_target, replay_record, replay_records}

-- The events that a record stands for.
start_of : Remediation → List Event → List Event
start_of rem es = elim (started_at rem) [ none ↦ es | some t ↦ start rem.spec.strategy_name t ∷ es ]

completion_of : Remediation → List Event → List Event
completion_of rem es = elim (completed_on_target rem) [
  | none ↦ es
  | some t ↦ completion rem.spec.strategy_name rem.spec.target t ∷ es
]

events_of : Remediation → List Event → List Event
unfolding start_of completion_of
events_of rem es =
    if str_eq (label rem.labels label_gave_up) "true"
    then es
    else start_of rem (completion_of rem es)

-- What a restart at `t` replays.
pub restart : List Remediation → ℤ → List Event
unfolding events_of
restart [] t = pruning t ∷ []
restart (rem ∷ items) t = events_of rem (restart items t)

replay-events_of :
    (rem : Remediation) (es : List Event) (h : MemoryHistory)
    → replay h (events_of rem es) ≡ replay (replay_record h rem) es
unfolding events_of replay_record replay tell
replay-events_of rem es h = ground arith

pub replay-restart :
    (items : List Remediation) (t : ℤ) (h : MemoryHistory)
    → replay h (restart items t) ≡ prune (replay_records h items) t
unfolding restart replay tell replay_records
replay-restart [] t h = refl
replay-restart (rem ∷ items) t h =
    replay-events_of rem (restart items t) h ∙ replay-restart items t (replay_record h rem)

-- A record counts as a start of the strategy that passes the test.
unfoldable pub starts_as : (ℤ → Bool) → String → Remediation → Bool
starts_as p strategy rem =
    not (str_eq (label rem.labels label_gave_up) "true") && elim (started_at rem) [
      | none ↦ false
      | some t ↦ str_eq rem.spec.strategy_name strategy && p t
    ]

unfoldable pub completes_as : (ℤ → Bool) → String × String → Remediation → Bool
completes_as p k rem =
    not (str_eq (label rem.labels label_gave_up) "true") && elim (completed_on_target rem) [
      | none ↦ false
      | some t ↦ pair_eq.beq (rem.spec.strategy_name, rem.spec.target) k && p t
    ]

-- A test, for the instants that a pruning keeps.
abbrev pub since_and : ℤ → (ℤ → Bool) → ℤ → Bool
since_and cutoff p t = is_from cutoff t && p t

-- What one record adds to the log.
note_start : Remediation → Log → Log
note_start rem l = elim (started_at rem) [
  | none ↦ l
  | some t ↦ record l { started = (rem.spec.strategy_name, t) ∷ l.started }
]

note_completion : Remediation → Log → Log
note_completion rem l = elim (completed_on_target rem) [
  | none ↦ l
  | some t ↦ record l { completed = ((rem.spec.strategy_name, rem.spec.target), t) ∷ l.completed }
]

note_record : Remediation → Log → Log
unfolding note_start note_completion
note_record rem l =
    if str_eq (label rem.labels label_gave_up) "true"
    then l
    else note_completion rem (note_start rem l)

note_all-events_of :
    (r : ℤ) (rem : Remediation) (es : List Event) (l : Log)
    → note_all r l (events_of rem es) ≡ note_all r (note_record rem l) es
unfolding events_of note_record note_all note
note_all-events_of r rem es l = ground arith

tally-note_record_starts :
    (q : ℤ → Bool) (k : String) (rem : Remediation) (l : Log)
    → tally q k (note_record rem l).started
      ≡ tally q k l.started + (if starts_as q k rem then 1 else 0)
unfolding note_record tally starts_as
tally-note_record_starts q k rem l = ground arith

note_start-completed : (rem : Remediation) (l : Log) → (note_start rem l).completed ≡ l.completed
unfolding note_start
note_start-completed rem l = ground arith

-- A completion that the loader replays, and that passes the test.
ends_as : (ℤ → Bool) → String × String → Remediation → Bool
ends_as q k rem = elim (completed_on_target rem) [
  | none ↦ false
  | some t ↦ pair_eq.beq (rem.spec.strategy_name, rem.spec.target) k && q t
]

tally-note_completion :
    (q : ℤ → Bool) (k : String × String) (rem : Remediation) (l : Log)
    → tally q k (note_completion rem l).completed
      ≡ tally q k l.completed + (if ends_as q k rem then 1 else 0)
unfolding note_completion tally ends_as
tally-note_completion q k rem l = ground arith

tally-note_record_completions :
    (q : ℤ → Bool) (k : String × String) (rem : Remediation) (l : Log)
    → tally q k (note_record rem l).completed
      ≡ tally q k l.completed + (if completes_as q k rem then 1 else 0)
unfolding note_record completes_as ends_as
tally-note_record_completions q k rem l = ground (
  arith,
  tally-note_completion q k rem (note_start rem l),
  ap (tally q k) (note_start-completed rem l),
)

pub tally-starts :
    (r : ℤ) (p : ℤ → Bool) (k : String) (items : List Remediation) (t : ℤ) (l : Log)
    → let q = since_and (add t (neg r)) p in
      tally p k (note_all r l (restart items t)).started
      ≡ tally q k l.started + count (starts_as q k) items
unfolding restart note_all note count
tally-starts r p k [] t l = ground (arith, tally-keep p (add t (neg r)) k l.started)
tally-starts r p k (rem ∷ items) t l =
    let q = since_and (add t (neg r)) p in
    ground (
      arith,
      ap (λ x. tally p k x.started) (note_all-events_of r rem (restart items t) l),
      tally-starts r p k items t (note_record rem l),
      tally-note_record_starts q k rem l,
    )

pub tally-completions :
    (r : ℤ) (p : ℤ → Bool) (k : String × String) (items : List Remediation) (t : ℤ) (l : Log)
    → let q = since_and (add t (neg r)) p in
      tally p k (note_all r l (restart items t)).completed
      ≡ tally q k l.completed + count (completes_as q k) items
unfolding restart note_all note count
tally-completions r p k [] t l = ground (arith, tally-keep p (add t (neg r)) k l.completed)
tally-completions r p k (rem ∷ items) t l =
    let q = since_and (add t (neg r)) p in
    ground (
      arith,
      ap (λ x. tally p k x.completed) (note_all-events_of r rem (restart items t) l),
      tally-completions r p k items t (note_record rem l),
      tally-note_record_completions q k rem l,
    )
