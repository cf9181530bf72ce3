-- ===== src/Engine/Controller/Prune/Keeps.antt =====
-- internal/engine/controller.go: what `prune` keeps.
use text.Mathlib.Text.{◌==◌ as str_eq}
use remedik.Base.{
  ℕ, zero, suc, ◌-◌, ◌≤◌, ◌≡◌, refl, ◌∙◌, ap, Bool, true, false, List, [], ◌∷◌, arith, String, ℤ,
  pos, negsuc, length, drop, keep, Member, inl, inr,
}
use remedik.Api.{Remediation, is_terminal}
use remedik.Engine.Controller.Prune.{insert_by_age, newest_first, limit_of, is_candidate, doomed}

length-insert_by_age :
    (r : Remediation) (ss : List Remediation) → length (insert_by_age r ss) ≡ suc (length ss)
unfolding insert_by_age
length-insert_by_age r [] = refl
length-insert_by_age r (s ∷ ss) = ground (arith, length-insert_by_age r ss)

pub length-newest_first : (rs : List Remediation) → length (newest_first rs) ≡ length rs
unfolding newest_first
length-newest_first [] = refl
length-newest_first (r ∷ rs) =
    length-insert_by_age r (newest_first rs) ∙ ap suc (length-newest_first rs)

pub length-drop : (n : ℕ) (rs : List Remediation) → length (drop n rs) ≡ length rs - n
length-drop zero rs = omega arith
length-drop (suc n) [] = omega arith
length-drop (suc n) (r ∷ rs) = omega (arith, length-drop n rs)

Member-insert_by_age :
    (q r : Remediation) (ss : List Remediation) → Member q (insert_by_age r ss) → Member q (r ∷ ss)
unfolding insert_by_age
Member-insert_by_age q r [] m = m
Member-insert_by_age q r (s ∷ ss) m = ground (arith, Member-insert_by_age q r ss)

Member-newest_first :
    (q : Remediation) (rs : List Remediation) → Member q (newest_first rs) → Member q rs
unfolding newest_first
Member-newest_first q [] m = m
Member-newest_first q (r ∷ rs) m = elim (Member-insert_by_age q r (newest_first rs) m) [
  | inl p ↦ inl p
  | inr old ↦ inr (Member-newest_first q rs old)
]

Member-drop : (q : Remediation) (n : ℕ) (rs : List Remediation) → Member q (drop n rs) → Member q rs
Member-drop q zero rs m = m
Member-drop q (suc n) [] m = m
Member-drop q (suc n) (r ∷ rs) m = inr (Member-drop q n rs m)

Member-keep :
    (p : Remediation → Bool) (q : Remediation) (rs : List Remediation)
    → Member q (keep p rs)
    → Member q rs × (p q ≡ true)
unfolding keep
Member-keep p q [] m = absurd m
Member-keep p q (r ∷ rs) m = ground (arith, Member-keep p q rs)

old_of_doomed :
    (history_limit : ℤ) (kept : String) (items : List Remediation) (q : Remediation)
    → Member q (doomed history_limit kept items)
    → Member q (keep (is_candidate kept) items)
unfolding doomed
old_of_doomed history_limit kept items q m =
    let terminal = keep (is_candidate kept) items in
    ground (
      arith,
      Member-newest_first q terminal,
      Member-drop q (limit_of history_limit - 1) (newest_first terminal),
    )

pub limit_of-positive : (l : ℤ) → 1 ≤ limit_of l
unfolding limit_of
limit_of-positive (pos n) = ground arith
limit_of-positive (negsuc n) = ground arith

-- Only terminal records of the list are deleted, and never the one that has just finished.
pub doomed_terminal :
    (history_limit : ℤ) (kept : String) (items : List Remediation) (q : Remediation)
    → Member q (doomed history_limit kept items)
    → Member q items × (is_terminal q.status.state ≡ true) × (str_eq q.name kept ≡ false)
unfolding doomed is_candidate
doomed_terminal history_limit kept items q m =
    let old : Member q (keep (is_candidate kept) items) =
      old_of_doomed history_limit kept items q m in
    let (there, fits) = Member-keep (is_candidate kept) q items old in
    (there, ground arith, ground arith)
