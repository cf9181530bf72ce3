-- ===== src/Engine/Sink/Consume.antt =====
-- internal/engine/sink.go: the handling of one alert and of a delivery.
pub mod Starts
pub mod Pauses
use text.Mathlib.Text.{◌==◌ as str_eq}
use remedik.Base.{
  ℕ, String, Bool, true, false, not, ◌&&◌, ◌||◌, Option, none, some, List, [], ◌∷◌, map, Text, str,
  Error, errorf, wrapf, Result, ok, err, ℤ, pos, lt_ℤ, add, neg, before, if◌then◌else◌, any,
}
use Prim.Native.String.{◌++◌}
use remedik.Base.Assoc
use remedik.Base.Assoc.{string_eq}
use remedik.Alert.{Alert, Labels, is_firing, name}
use remedik.Matching.{Rule, select}
use remedik.Guards.{
  Config, GiveUp, Decision, GuardName, give_up_guard, cooldown_guard, max_per_hour_guard,
  blast_radius_guard, evaluate,
}
use remedik.Guards.Memory.{as_history, record_start}
use remedik.Guards.BlastRadius.{BlastRadius, Reader, evaluate_blast_radius}
use remedik.Action.{Action, Registry, get_action}
use remedik.Action.Targets.{Target, is_zero, to_string}
use remedik.Api.{
  unset_state, no_reason, Step, ExecutionMode, unset_mode, auto, approval, manual, EscalationMode,
  unset_escalation, first_success, every_channel, RemediationSpec, RemediationStatus, Remediation,
  GuardsSpec, Strategy, is_enabled, default_approval_timeout, label_strategy, label_fingerprint,
  label_gave_up, label_paused, annotation_gave_up_reason, annotation_pause_reason,
}
use remedik.Engine.Effects.{
  Env, M, pure, ◌>>=◌, ◌>>◌, now, log, call, remember, created, counted_unmatched, counted_manual,
  counted_start, announced_manual, counted_rejection, announced_rejection,
}
use remedik.Engine.Reconciler.{Client}
use remedik.Engine.Posture.{Posture, dry_run_for}
use remedik.Engine.Sink.{
  Sink, record_of, give_up_record, target_string, guard_config, blast_radius_config, execution_mode,
  escalation_mode_of, timeout_of, approval_deadline, is_manual, needs_approval, rule_of, rules,
  by_name, fresh_status, resolve_first, no_target, target_of,
}

window_of : Strategy → ℤ
window_of s = elim s.guards.give_up_after [ none ↦ pos 0 | some g ↦ g.within ]

-- A record of the target that is not older than the window.
is_recent : String → ℤ → Remediation → Bool
is_recent target cutoff rem = str_eq rem.spec.target target && not (before rem.creation cutoff)

is_give_up : Option GuardName → Bool
is_give_up none = false
is_give_up (some guard) = elim guard [ give_up_guard ↦ true | _ ↦ false ]

module _ {W : Type 0} where
  submit : Sink W → Text → Remediation → M W (Option Error)
  unfolding call log
  submit k what rem = do
    answer ← call (k.client.create rem)
    log (created rem (elim answer [ none ↦ true | some e ↦ false ]))
    pure (elim answer [ none ↦ none | some e ↦ some (wrapf what e) ])

  create_with : Sink W → Alert → Strategy → Target → Bool → M W (Option Error)
  unfolding now submit record_of approval_deadline
  create_with k a s t false = submit k (str "create remediation" ∷ []) (record_of k a s t none)
  create_with k a s t true = do
    created_at ← now
    submit k (str "create remediation" ∷ [])
        (record_of k a s t (some (approval_deadline s created_at)))

  pub create : Sink W → Alert → Strategy → Target → M W (Option Error)
  unfolding create_with needs_approval execution_mode
  create k a s t = create_with k a s t (needs_approval (execution_mode s.mode))

  gave_up_in : String → ℤ → Result (List Remediation) → M W (Result Bool)
  unfolding now is_recent
  gave_up_in target window (err e) = pure (err e)
  gave_up_in target window (ok items) = do
    t ← now
    pure (ok (any (is_recent target (add t (neg window))) items))

  gave_up_recently : Sink W → String → String → ℤ → M W (Result Bool)
  unfolding call gave_up_in
  gave_up_recently k strategy target window = do
    listed ←
        call (k.client.list k.namespace ((label_strategy, strategy) ∷ (label_gave_up, "true") ∷ []))
    gave_up_in target window listed

  give_up_once : Sink W → Alert → Strategy → Target → Text → Result Bool → M W (Option Error)
  unfolding submit give_up_record
  give_up_once k a s t why (err e) =
      pure (some (wrapf (str "look for an existing give-up record" ∷ []) e))
  give_up_once k a s t why (ok true) = pure none
  give_up_once k a s t why (ok false) =
      submit k (str "create give-up record" ∷ []) (give_up_record k a s t why)

  record_give_up : Sink W → Alert → Strategy → Target → Text → M W (Option Error)
  unfolding gave_up_recently give_up_once target_string window_of
  record_give_up k a s t why = do
    already ← gave_up_recently k s.name (target_string t) (window_of s)
    give_up_once k a s t why already

  after_create : String → Option Error → M W (Option Error)
  unfolding now log remember
  after_create strategy (some e) = pure (some e)
  after_create strategy none = do
    started ← now
    remember (λ h. record_start h strategy started)
    log (counted_start strategy)
    pure none

  start : Sink W → Alert → Strategy → Target → M W (Option Error)
  unfolding create after_create
  start k a s t = do failure ← create k a s t; after_create s.name failure

  tell_rejection : Sink W → Strategy → Decision → M W (Unit {0})
  unfolding log
  tell_rejection k s d = if k.has_events then log (announced_rejection s.name d.guard) else pure tt

  refuse : Sink W → Alert → Strategy → Target → Decision → M W (Option Error)
  unfolding log tell_rejection is_give_up record_give_up
  refuse k a s t d = do
    log (counted_rejection s.name d.guard)
    tell_rejection k s d
    if is_give_up d.guard then record_give_up k a s t d.reason else pure none

  -- The time guards first; the blastRadius guard looks at the cluster only if they allow.
  pub guarded : Sink W → Strategy → Target → ℤ → Env W → Decision
  unfolding guard_config blast_radius_config target_string
  guarded k s t at e =
      let by_time =
        evaluate (guard_config s) (some (as_history e.history)) s.name (target_string t) at in
      if by_time.is_allowed
      then evaluate_blast_radius (blast_radius_config s)
          (elim k.workloads [ none ↦ none | some read ↦ some (read e.world) ]) (target_string t)
      else by_time

  decide : Sink W → Alert → Strategy → Target → Decision → M W (Option Error)
  unfolding start refuse
  decide k a s t d = if d.is_allowed then start k a s t else refuse k a s t d

  tell_manual : Sink W → Strategy → M W (Option Error)
  unfolding log
  tell_manual k s = do
    log (counted_manual s.name)
    (if k.has_events then log (announced_manual s.name) else pure tt)
    pure none

  consider : Sink W → Alert → Strategy → M W (Option Error)
  unfolding tell_manual decide guarded now target_of is_manual
  consider k a s e =
      if is_manual s.mode
      then tell_manual k s e
      else let (at, e') = now e in
        let t = target_of k.registry a s in decide k a s t (guarded k s t at e') e'

  -- The map by name was made from the list of the rules; for a name that is no key of it the code
  -- would use a nil pointer, which stands as an error here.
  with_strategy : Sink W → Alert → Option Strategy → M W (Option Error)
  unfolding consider
  with_strategy k a none = pure (some (errorf (str "nil strategy" ∷ [])))
  with_strategy k a (some s) = consider k a s

  with_rule : Sink W → Alert → List (String × Strategy) → Option Rule → M W (Option Error)
  unfolding log with_strategy
  with_rule k a m none = do log counted_unmatched; pure none
  with_rule k a m (some r) = with_strategy k a (Assoc.get m r.name)

  pub consume_one : Sink W → Alert → List Rule → List (String × Strategy) → M W (Option Error)
  unfolding with_rule
  consume_one k a rs m = if is_firing a then with_rule k a m (select a rs) else pure none

  consume_all : Sink W → List Alert → List Rule → List (String × Strategy) → M W (Unit {0})
  unfolding consume_one
  consume_all k [] rs m = pure tt
  consume_all k (a ∷ alerts) rs m = do failure ← consume_one k a rs m; consume_all k alerts rs m

  consume_listed : Sink W → List Alert → Result (List Strategy) → M W (Unit {0})
  unfolding consume_all rules by_name
  consume_listed k alerts (err e) = pure tt
  consume_listed k alerts (ok ss) = consume_all k alerts (rules ss) (by_name ss [])

  -- The strategies are read once for the whole delivery; an alert that fails does not stop the next.
  pub consume : Sink W → List Alert → M W (Unit {0})
  unfolding call consume_listed
  consume k alerts = do listed ← call k.client.strategies; consume_listed k alerts listed
