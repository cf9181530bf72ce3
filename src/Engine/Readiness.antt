-- ===== src/Engine/Readiness.antt =====
-- internal/engine/strategy.go: the status of a strategy. `meta.SetStatusCondition` and the semantic
-- equality of statuses, which are the API machinery's, are fields of the reconciler. The registration
-- with the manager is left out.
pub mod Usable
use text.Mathlib.Text.{◌==◌ as str_eq}
use remedik.Base.{
  ℕ, String, Bool, true, false, Option, none, some, List, [], ◌∷◌, ◌++◌, map, Text, str, Error,
  ErrorKind, not_found, unknown_action, other_error, wrapf, Result, ok, err, ℤ, pos, after, length,
  if◌then◌else◌,
}
use remedik.Alert.{Labels, label}
use remedik.Action.{Registry, validate_names}
use remedik.Api.{Remediation, Strategy, Step, label_strategy}
use remedik.Engine.Effects.{M, pure, ◌>>=◌, ◌>>◌, call}

pub data ConditionReason : Type 0 where
  usable_reason unknown_action_found : ConditionReason

-- A condition of the type `Ready`.
pub record Condition : Type 0 where
  pub is_true : Bool
  pub reason : ConditionReason
  pub message : Text
  pub observed_generation : ℤ

pub record StrategyStatus : Type 0 where
  pub observed_generation : ℤ
  pub execution_count : ℕ
  pub last_execution_time : Option ℤ
  pub conditions : List Condition

pub record StrategyObject : Type 0 where
  pub spec : Strategy
  pub generation : ℤ
  pub status : StrategyStatus

pub record StrategyReconciler (W : Type 0) : Type 0 where
  pub get : String → W → Result StrategyObject × W
  pub list : String → Labels → W → Result (List Remediation) × W
  pub update_status : StrategyObject → W → Option Error × W
  pub set_condition : List Condition → Condition → List Condition
  pub same_status : StrategyStatus → StrategyStatus → Bool
  pub registry : Registry W
  pub namespace : String

unfoldable pub action_names : List Step → List String
action_names steps = map (λ s. s.action) steps

unfoldable pub not_ready : ℤ → Text → Condition
not_ready generation message = record {
  is_true = false;
  reason = unknown_action_found;
  message = message;
  observed_generation = generation;
}

unfoldable pub ready : ℤ → Condition
ready generation = record {
  is_true = true;
  reason = usable_reason;
  message = str "every action this strategy names is enabled in this build" ∷ [];
  observed_generation = generation;
}

-- The check of the plan, then that of the escalation.
unfoldable pub verdict : ℤ → Option Error → Option Error → Condition
unfolding not_ready ready
verdict generation (some e) escalation = not_ready generation e.text_of
verdict generation none (some e) = not_ready generation (str "onFailure " ∷ e.text_of)
verdict generation none none = ready generation

newest_from : Option ℤ → List Remediation → Option ℤ
newest_from newest [] = newest
newest_from newest (r ∷ records) =
    newest_from
      (elim newest [
        | none ↦ some r.creation
        | some t ↦ if after r.creation t then some r.creation else some t
      ])
      records

unfoldable pub newest_record : List Remediation → Option ℤ
unfolding newest_from
newest_record records = newest_from none records

-- The watched record's strategy, by its label.
pub strategy_of_record : Labels → List String
strategy_of_record labels =
    let name = label labels label_strategy in if str_eq name "" then [] else name ∷ []

is_not_found : Error → Bool
is_not_found e = elim e.kind [ not_found ↦ true | _ ↦ false ]

module _ {W : Type 0} where
  unfoldable pub readiness : Registry W → ℤ → Strategy → Condition
  unfolding verdict action_names
  readiness registry generation s =
      verdict generation (validate_names registry (action_names s.steps))
        (validate_names registry (action_names s.failure_steps))

  describe : StrategyReconciler W → StrategyObject → List Remediation → StrategyObject
  unfolding newest_record readiness
  describe r s records = record s {
    status = record {
      observed_generation = s.generation;
      execution_count = length records;
      last_execution_time = newest_record records;
      conditions = r.set_condition s.status.conditions (readiness r.registry s.generation s.spec);
    };
  }

  write_status : StrategyReconciler W → StrategyObject → M W (Option Error)
  unfolding call
  write_status r s = do
    answer ← call (r.update_status s)
    pure (elim answer [
      | none ↦ none
      | some e ↦ some (wrapf (str "update the status of " ∷ str s.spec.name ∷ []) e)
    ])

  described : StrategyReconciler W → StrategyObject → Result (List Remediation) → M W (Option Error)
  unfolding describe write_status
  described r s (err e) = pure (some (wrapf (str "list the records of " ∷ str s.spec.name ∷ []) e))
  described r s (ok records) =
      let after_pass = describe r s records in
      if r.same_status s.status after_pass.status then pure none else write_status r after_pass

  with_strategy : StrategyReconciler W → Result StrategyObject → M W (Option Error)
  unfolding call described is_not_found
  with_strategy r (err e) = pure (if is_not_found e then none else some e)
  with_strategy r (ok s) = do
    records ← call (r.list r.namespace ((label_strategy, s.spec.name) ∷ []))
    described r s records

  pub reconcile_strategy : StrategyReconciler W → String → M W (Option Error)
  unfolding call with_strategy
  reconcile_strategy r name = do found ← call (r.get name); with_strategy r found
