-- ===== src/Engine/Controller/Prune.antt =====
-- internal/engine/controller.go: `prune`, which keeps the newest terminal records of a strategy.
pub mod Keeps
pub mod Splits
pub mod Writes
use remedik.Base.{
  ℕ, suc, ◌+◌, ◌-◌, String, Bool, true, false, not, ◌&&◌, Option, none, some, List, [], ◌∷◌, Text,
  str, Error, wrapf, ErrorKind, not_found, unknown_action, other_error, Result, ok, err, ℤ, pos,
  pos_part, le_ℤ, eq_ℤ, after, leb, if◌then◌else◌, length, drop, keep, lt_str,
}
use text.Mathlib.Text.{◌==◌ as str_eq}
use remedik.Api.{Remediation, is_terminal, label_strategy}
use remedik.Engine.Effects.{Env, M, pure, ◌>>=◌, ◌>>◌, log, call, deleted}
use remedik.Engine.Reconciler.{Reconciler}

abbrev default_history_limit : ℕ
default_history_limit = 200

is_not_found : Error → Bool
is_not_found e = elim e.kind [ not_found ↦ true | _ ↦ false ]

-- Newest first; the name breaks ties.
unfoldable pub newer : Remediation → Remediation → Bool
newer i j = if eq_ℤ i.creation j.creation then lt_str j.name i.name else after i.creation j.creation

unfoldable pub insert_by_age : Remediation → List Remediation → List Remediation
unfolding newer
insert_by_age r [] = r ∷ []
insert_by_age r (s ∷ ss) = if newer r s then r ∷ s ∷ ss else s ∷ insert_by_age r ss

unfoldable pub newest_first : List Remediation → List Remediation
unfolding insert_by_age
newest_first [] = []
newest_first (r ∷ rs) = insert_by_age r (newest_first rs)

unfoldable pub limit_of : ℤ → ℕ
limit_of l = if le_ℤ l (pos 0) then default_history_limit else pos_part l

-- Terminal, and not the record that has just finished.
unfoldable pub is_candidate : String → Remediation → Bool
is_candidate kept r = is_terminal r.status.state && not (str_eq r.name kept)

-- The records that go, oldest last.
unfoldable pub doomed : ℤ → String → List Remediation → List Remediation
unfolding limit_of is_candidate newest_first
doomed history_limit kept items =
    let limit = limit_of history_limit in
    let terminal = keep (is_candidate kept) items in
    if leb (length terminal + 1) limit then [] else drop (limit - 1) (newest_first terminal)

module _ {W : Type 0} where
  -- One deletion; a record that is gone already is no error.
  delete_one : Reconciler W → Remediation → M W (Option Error)
  unfolding call log is_not_found
  delete_one r old = do
    answer ← call (r.client.delete old)
    log (deleted old.name)
    pure (elim answer [
      | none ↦ none
      | some e ↦ if is_not_found e then none else some (wrapf (str "delete " ∷ str old.name ∷ []) e)
    ])

  delete_all : Reconciler W → List Remediation → M W (Option Error)
  unfolding delete_one
  delete_all r [] e = (none, e)
  delete_all r (old ∷ rest) e =
      let tried = delete_one r old e in
      let others = delete_all r rest tried.1 in
      elim tried.0 [ none ↦ others | some x ↦ (some x, tried.1) ]

  prune_listed : Reconciler W → String → Result (List Remediation) → M W (Option Error)
  unfolding delete_all doomed
  prune_listed r kept (err e) = pure (some e)
  prune_listed r kept (ok items) = delete_all r (doomed r.history_limit kept items)

  pub prune : Reconciler W → String → String → String → M W (Option Error)
  unfolding call prune_listed
  prune r namespace strategy kept = do
    listed ← call (r.client.list namespace ((label_strategy, strategy) ∷ []))
    prune_listed r kept listed
