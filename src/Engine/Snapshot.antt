-- ===== src/Engine/Snapshot.antt =====
-- internal/engine/snapshot.go: what the cluster looks like now, as counts.
use remedik.Base.{
  ℕ, suc, ◌+◌, ◌≡◌, Bool, true, false, List, [], ◌∷◌, str, wrapf, Result, ok, err, if◌then◌else◌,
  length, arith,
}
use remedik.Api.{
  Remediation, Strategy, State, unset_state, pending, running, succeeded, failed, simulated,
  awaiting_approval, is_enabled,
}

pub record Snapshot : Type 0 where
  pub strategies_enabled : ℕ
  pub strategies_disabled : ℕ
  pub records_by_state : State → ℕ

same_state : State → State → Bool
same_state unset_state unset_state = true
same_state pending pending = true
same_state running running = true
same_state succeeded succeeded = true
same_state failed failed = true
same_state simulated simulated = true
same_state awaiting_approval awaiting_approval = true
same_state _ _ = false

-- A record that no pass has reached is pending to everyone who reads it.
shown_state : State → State
shown_state unset_state = pending
shown_state s = s

count_strategies : Snapshot → List Strategy → Snapshot
count_strategies s [] = s
count_strategies s (x ∷ xs) =
    count_strategies
      (if is_enabled x
        then record s { strategies_enabled = suc s.strategies_enabled }
        else record s { strategies_disabled = suc s.strategies_disabled })
      xs

-- `m[state]++`.
count_record : (State → ℕ) → State → State → ℕ
unfolding same_state
count_record counts state k = if same_state state k then suc (counts k) else counts k

count_records : Snapshot → List Remediation → Snapshot
unfolding count_record shown_state
count_records s [] = s
count_records s (r ∷ rs) =
    count_records
      (record s { records_by_state = count_record s.records_by_state (shown_state r.status.state) })
      rs

abbrev nothing_counted : Snapshot
nothing_counted = record {
  strategies_enabled = 0;
  strategies_disabled = 0;
  records_by_state = λ k. 0;
}

-- `Snapshot`, from what the two lists answered.
pub snapshot : Result (List Strategy) → Result (List Remediation) → Result Snapshot
unfolding count_strategies count_records
snapshot (err e) records = err (wrapf (str "list strategies" ∷ []) e)
snapshot (ok strategies) (err e) = err (wrapf (str "list remediations" ∷ []) e)
snapshot (ok strategies) (ok records) =
    ok (count_records (count_strategies nothing_counted strategies) records)

-- Every listed strategy is counted once.
count_strategies-length :
    (s : Snapshot) (xs : List Strategy)
    → (count_strategies s xs).strategies_enabled + (count_strategies s xs).strategies_disabled
      ≡ s.strategies_enabled + s.strategies_disabled + length xs
unfolding count_strategies
count_strategies-length s [] = omega arith
count_strategies-length s (x ∷ xs) = ground (
  arith,
  count_strategies-length (record s { strategies_enabled = suc s.strategies_enabled }) xs,
  count_strategies-length (record s { strategies_disabled = suc s.strategies_disabled }) xs,
)
