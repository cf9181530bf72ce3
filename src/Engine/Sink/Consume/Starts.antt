-- ===== src/Engine/Sink/Consume/Starts.antt =====
-- internal/engine/sink.go: which alerts start an execution.
use text.Mathlib.Text.{◌==◌ as str_eq}
use Prim.Native.Nat.{pred}
use remedik.Base.{
  suc, ◌≡◌, refl, sym, String, Bool, true, false, not, ◌&&◌, Option, none, some, List, [], ◌∷◌,
  arith, Error, ℤ, count, ap, str, wrapf, ◌⊎◌, inl, inr, Text, Bool-cases, subst,
}
use remedik.Base.Assoc
use remedik.Base.Assoc.{string_eq}
use remedik.Alert.{Alert, is_firing, label}
use remedik.Matching.{Rule, select}
use remedik.Guards.{Decision, evaluate}
use remedik.Guards.Memory.{record_start, as_history}
use remedik.Guards.BlastRadius.{evaluate_blast_radius}
use remedik.Action.Targets.{Target}
use remedik.Api.{Strategy, Remediation, label_gave_up}
use remedik.Engine.Effects.{Env, Call, created, counted_rejection, now, log, call, remember}
use remedik.Engine.Sink.{
  Sink, record_of, give_up_record, execution_mode, needs_approval, target_of, target_string,
  guard_config, blast_radius_config, approval_deadline, is_manual,
}
use remedik.Engine.Sink.Consume.{
  submit, create_with, create, start, after_create, refuse, tell_rejection, record_give_up,
  gave_up_recently, gave_up_in, give_up_once, decide, consider, guarded, tell_manual, with_strategy,
  with_rule, consume_one,
}

-- A request to create the record of an execution, and whether it was accepted.
abbrev pub is_start : Call → Bool
is_start (created rem taken) = not (str_eq (label rem.labels label_gave_up) "true")
is_start _ = false

abbrev pub is_started : Call → Bool
is_started (created rem taken) = not (str_eq (label rem.labels label_gave_up) "true") && taken
is_started _ = false

-- The strategy may run on the alert's target, by every guard, as the history and the cluster are.
abbrev pub Permitted : {W : Type 0} → Sink W → Alert → Env W → Strategy → Type 0
Permitted k a e s =
    let target = target_string (target_of k.registry a s) in
    (is_manual s.mode ≡ false)
    × ((evaluate (guard_config s) (some (as_history e.history)) s.name target
          (e.clock e.readings)).is_allowed
        ≡ true)
    × ((evaluate_blast_radius (blast_radius_config s)
          (elim k.workloads [ none ↦ none | some read ↦ some (read e.world) ]) target).is_allowed
        ≡ true)

-- Nothing was started and nothing is remembered.
abbrev pub Idle : {W : Type 0} → Env W → Env W → Type 0
Idle e e' =
    (count is_start e'.trace ≡ count is_start e.trace)
    × (count is_started e'.trace ≡ count is_started e.trace)
    × (e'.history ≡ e.history)

-- One record was asked for; if it was accepted the history has one start more, now.
abbrev pub Started : {W : Type 0} → Strategy → Env W → Env W → Type 0
Started s e e' =
    (count is_start e'.trace ≡ suc (count is_start e.trace))
    × (((count is_started e'.trace ≡ count is_started e.trace) × (e'.history ≡ e.history))
        ⊎ ((count is_started e'.trace ≡ suc (count is_started e.trace))
            × (e'.history ≡ record_start e.history s.name (e'.clock (pred e'.readings)))))

module _ {W : Type 0} (k : Sink W) (a : Alert) where
  give_up-Idle :
      (s : Strategy) (t : Target) (why : Text) (e : Env W) → Idle e (record_give_up k a s t why e).1
  unfolding record_give_up gave_up_recently gave_up_in give_up_once submit give_up_record log call
      now count Assoc.get
  give_up-Idle s t why e = (ground arith, ground arith, ground arith)

  refuse-Idle :
      (s : Strategy) (t : Target) (d : Decision) (e : Env W) → Idle e (refuse k a s t d e).1
  unfolding refuse tell_rejection log count
  refuse-Idle s t d e =
      let told = (tell_rejection k s d (log (counted_rejection s.name d.guard) e).1).1 in
      let (i, j, h) = give_up-Idle s t d.reason told in
      (ground (arith, i), ground (arith, j), ground (arith, h))

  -- What `start` leaves, from the answer to the request and the clock.
  after_create-Started :
      (s : Strategy) (rem : Remediation) (answer : Option Error) (what : Text) (e e' : Env W)
      → is_start (created rem true) ≡ true
      → e'.trace ≡ created rem (elim answer [ none ↦ true | some x ↦ false ]) ∷ e.trace
      → e'.history ≡ e.history
      → Started s e
          (after_create s.name (elim answer [ none ↦ none | some x ↦ some (wrapf what x) ]) e').1
  unfolding after_create now remember log count
  after_create-Started s rem none what e e' new tr hi =
      (ground arith, inr (ground arith, ap (λ h. record_start h s.name (e'.clock e'.readings)) hi))
  after_create-Started s rem (some x) what e e' new tr hi = (ground arith, inl (ground arith, hi))

  new_start :
      (s : Strategy) (t : Target) (deadline : Option ℤ)
      → is_start (created (record_of k a s t deadline) true) ≡ true
  unfolding record_of Assoc.get Assoc.put
  new_start s t deadline = elim (Bool-cases k.paused) [
    | inl on ↦ rw (on, record_of) refl
    | inr off ↦ rw (off, record_of) refl
  ]

  start_with :
      (s : Strategy) (t : Target) (b : Bool) (e : Env W)
      → let made = create_with k a s t b e in Started s e (after_create s.name made.0 made.1).1
  unfolding create_with submit log call now
  start_with s t false e =
      let rem = record_of k a s t none in
      after_create-Started s rem (k.client.create rem e.world).0 (str "create remediation" ∷ []) e _
        (new_start s t none) refl refl
  start_with s t true e =
      let deadline = some (approval_deadline s (e.clock e.readings)) in
      let rem = record_of k a s t deadline in
      after_create-Started s rem (k.client.create rem e.world).0 (str "create remediation" ∷ []) e _
        (new_start s t deadline) refl refl

  start-Started : (s : Strategy) (t : Target) (e : Env W) → Started s e (start k a s t e).1
  unfolding start create
  start-Started s t e = start_with s t (needs_approval (execution_mode s.mode)) e

  -- What comes of one alert that a strategy was chosen for.
  abbrev Considered : Strategy → Env W → Env W → Type 0
  Considered s e e' = Idle e e' ⊎ (Permitted k a e s × Started s e e')

  tell_manual-Idle : (s : Strategy) (e : Env W) → Idle e (tell_manual k s e).1
  unfolding tell_manual log count
  tell_manual-Idle s e = (ground arith, ground arith, ground arith)

  -- Both guards, from the one decision that they make together.
  guarded-Permitted :
      (s : Strategy) (e : Env W)
      → is_manual s.mode ≡ false
      → (guarded k s (target_of k.registry a s) (e.clock e.readings) (now e).1).is_allowed ≡ true
      → Permitted k a e s
  unfolding guarded now
  guarded-Permitted s e m h = (m, ground arith, ground arith)

  decide-Considered :
      (s : Strategy) (t : Target) (d : Decision) (e : Env W)
      → (d.is_allowed ≡ true → Permitted k a e s)
      → Considered s e (decide k a s t d (now e).1).1
  unfolding decide now
  decide-Considered s t d e permits = elim (Bool-cases d.is_allowed) [
    | inl go ↦ rw (go, decide) (inr (permits go, start-Started s t (now e).1))
    | inr stop ↦ rw (stop, decide) (inl (refuse-Idle s t d (now e).1))
  ]

  consider_automatic :
      (s : Strategy) (e : Env W)
      → is_manual s.mode ≡ false
      → let t = target_of k.registry a s in
        consider k a s e ≡ decide k a s t (guarded k s t (now e).0 (now e).1) (now e).1
  unfolding consider
  consider_automatic s e h = rw (h, consider) refl

  consider-Considered : (s : Strategy) (e : Env W) → Considered s e (consider k a s e).1
  unfolding consider
  consider-Considered s e =
      let t = target_of k.registry a s in
      elim (Bool-cases (is_manual s.mode)) [
        | inl hand ↦ inl (ground (arith, tell_manual-Idle s e))
        | inr free ↦
            subst (λ q. Considered s e q.1) (sym (consider_automatic s e free))
              (decide-Considered s t (guarded k s t (now e).0 (now e).1) e
                (guarded-Permitted s e free))
      ]

  abbrev pub ChosenBy : Option Strategy → Env W → Env W → Type 0
  ChosenBy none e e' = ⊥
  ChosenBy (some s) e e' = Permitted k a e s × Started s e e'

  -- The strategy of the chosen rule, and what it lets happen.
  abbrev pub Chosen : List (String × Strategy) → Option Rule → Env W → Env W → Type 0
  Chosen m none e e' = ⊥
  Chosen m (some r) e e' = ChosenBy (Assoc.get m r.name) e e'

  with_rule-Chosen :
      (m : List (String × Strategy)) (o : Option Rule) (e : Env W)
      → Idle e (with_rule k a m o e).1 ⊎ Chosen m o e (with_rule k a m o e).1
  unfolding with_rule with_strategy log count
  with_rule-Chosen m none e = inl (refl, refl, refl)
  with_rule-Chosen m (some r) e = found (Assoc.get m r.name)
    where
      found :
          (o : Option Strategy)
          → Idle e (with_strategy k a o e).1 ⊎ ChosenBy o e (with_strategy k a o e).1
      found none = inl (refl, refl, refl)
      found (some s) = consider-Considered s e

  -- An alert either starts nothing and leaves the guard history as it is; or it is firing, the
  -- strategy of the rule that is selected for it is not manual, the time guards and the blastRadius
  -- guard both allow it, and exactly one record is asked for, whose acceptance, and only that, adds
  -- one start of the strategy to the history.
  pub consume_one-starts :
      (rs : List Rule) (m : List (String × Strategy)) (e : Env W)
      → let e' = (consume_one k a rs m e).1 in
        Idle e e' ⊎ ((is_firing a ≡ true) × Chosen m (select a rs) e e')
  unfolding consume_one
  consume_one-starts rs m e = elim (Bool-cases (is_firing a)) [
    | inr off ↦ rw (off, consume_one) (inl (refl, refl, refl))
    | inl on ↦ elim (with_rule-Chosen m (select a rs) e) [
      | inl idle ↦ rw (on, consume_one) (inl idle)
      | inr chosen ↦ rw (on, consume_one) (inr (refl, chosen))
    ]
  ]
