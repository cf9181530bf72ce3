-- ===== src/Engine/Controller/Prune/Splits.antt =====
-- internal/engine/controller.go: which of the terminal records `prune` picks for deletion.
use remedik.Base.{
  ℕ, zero, suc, ◌+◌, ◌-◌, ◌≤◌, ◌≡◌, refl, sym, subst, ◌∙◌, Bool, true, false, List, [], ◌∷◌, arith,
  String, ℤ, ◌<ℤ◌, length, drop, keep, count, inl, inr, ◌⊎◌, Bool-cases,
}
use remedik.Base.Lists.{take}
use remedik.Base.Order.{lt_str, lt_str-negatively_transitive, lt_str-asymmetric}
use remedik.Api.{Remediation}
use remedik.Engine.Controller.Prune.{
  newer, insert_by_age, newest_first, limit_of, is_candidate, doomed,
}
use remedik.Engine.Controller.Prune.Keeps.{length-newest_first, length-drop, limit_of-positive}

-- The one was created before the other, or at the same instant under a name that is not greater.
abbrev pub NoNewer : Remediation → Remediation → Type 0
NoNewer old new =
    (old.creation <ℤ new.creation)
    ⊎ ((old.creation ≡ new.creation) × (lt_str new.name old.name ≡ false))

NoNewer-of : (a b : Remediation) → newer a b ≡ false → NoNewer a b
unfolding newer
NoNewer-of a b h = ground arith

NoNewer-after : (a b : Remediation) → newer a b ≡ true → NoNewer b a
unfolding newer
NoNewer-after a b h = ground (arith, lt_str-asymmetric b.name a.name)

NoNewer-trans : (a b c : Remediation) → NoNewer a b → NoNewer b c → NoNewer a c
NoNewer-trans a b c (inl x) (inl y) = inl (omega arith)
NoNewer-trans a b c (inl x) (inr y) = inl (subst (λ t. a.creation <ℤ t) y.0 x)
NoNewer-trans a b c (inr x) (inl y) = inl (subst (λ t. t <ℤ c.creation) (sym x.0) y)
NoNewer-trans a b c (inr x) (inr y) =
    inr (x.0 ∙ y.0, lt_str-negatively_transitive a.name b.name c.name x.1 y.1)

-- None of the records is newer than the first one.
abbrev pub IsNewest : Remediation → List Remediation → Type 0
IsNewest r [] = Unit {0}
IsNewest r (s ∷ ss) = NoNewer s r × IsNewest r ss

-- No record of the second list is newer than one of the first.
abbrev pub AllNewest : List Remediation → List Remediation → Type 0
AllNewest [] ss = Unit {0}
AllNewest (r ∷ rs) ss = IsNewest r ss × AllNewest rs ss

abbrev Falling : List Remediation → Type 0
Falling [] = Unit {0}
Falling (r ∷ rs) = IsNewest r rs × Falling rs

IsNewest-trans :
    (a b : Remediation) (rs : List Remediation) → NoNewer b a → IsNewest b rs → IsNewest a rs
IsNewest-trans a b [] h k = tt
IsNewest-trans a b (r ∷ rs) h k = (NoNewer-trans r b a k.0 h, IsNewest-trans a b rs h k.1)

IsNewest-insert_by_age :
    (a r : Remediation) (ss : List Remediation)
    → NoNewer r a
    → IsNewest a ss
    → IsNewest a (insert_by_age r ss)
unfolding insert_by_age
IsNewest-insert_by_age a r [] h k = (h, tt)
IsNewest-insert_by_age a r (s ∷ ss) h k = elim (Bool-cases (newer r s)) [
  | inl new ↦ rw (new) (h, k)
  | inr old ↦ rw (old) (k.0, IsNewest-insert_by_age a r ss h k.1)
]

insert_by_age-Falling :
    (r : Remediation) (ss : List Remediation) → Falling ss → Falling (insert_by_age r ss)
unfolding insert_by_age
insert_by_age-Falling r [] f = (tt, tt)
insert_by_age-Falling r (s ∷ ss) f = elim (Bool-cases (newer r s)) [
  | inl new ↦
      let before = NoNewer-after r s new in rw (new) ((before, IsNewest-trans r s ss before f.0), f)
  | inr old ↦
      rw (old)
        (IsNewest-insert_by_age s r ss (NoNewer-of r s old) f.0, insert_by_age-Falling r ss f.1)
]

newest_first-Falling : (rs : List Remediation) → Falling (newest_first rs)
unfolding newest_first
newest_first-Falling [] = tt
newest_first-Falling (r ∷ rs) = insert_by_age-Falling r (newest_first rs) (newest_first-Falling rs)

IsNewest-drop :
    (r : Remediation) (n : ℕ) (ss : List Remediation) → IsNewest r ss → IsNewest r (drop n ss)
IsNewest-drop r zero ss h = h
IsNewest-drop r (suc n) [] h = h
IsNewest-drop r (suc n) (s ∷ ss) h = IsNewest-drop r n ss h.1

take-AllNewest : (n : ℕ) (rs : List Remediation) → Falling rs → AllNewest (take n rs) (drop n rs)
take-AllNewest zero rs f = tt
take-AllNewest (suc n) [] f = tt
take-AllNewest (suc n) (r ∷ rs) f = (IsNewest-drop r n rs f.0, take-AllNewest n rs f.1)

count-insert_by_age :
    (p : Remediation → Bool) (r : Remediation) (ss : List Remediation)
    → count p (insert_by_age r ss) ≡ count p (r ∷ ss)
unfolding insert_by_age count
count-insert_by_age p r [] = refl
count-insert_by_age p r (s ∷ ss) = ground (arith, count-insert_by_age p r ss)

count-newest_first :
    (p : Remediation → Bool) (rs : List Remediation) → count p (newest_first rs) ≡ count p rs
unfolding newest_first count
count-newest_first p [] = refl
count-newest_first p (r ∷ rs) =
    ground (arith, count-newest_first p rs, count-insert_by_age p r (newest_first rs))

count-take-drop :
    (p : Remediation → Bool) (n : ℕ) (rs : List Remediation)
    → count p (take n rs) + count p (drop n rs) ≡ count p rs
unfolding count
count-take-drop p zero rs = omega arith
count-take-drop p (suc n) [] = refl
count-take-drop p (suc n) (r ∷ rs) = ground (arith, count-take-drop p n rs)

drop_all : (n : ℕ) (rs : List Remediation) → length rs ≤ n → drop n rs ≡ []
drop_all zero [] h = refl
drop_all zero (r ∷ rs) h = absurd (omega (arith, h))
drop_all (suc n) [] h = refl
drop_all (suc n) (r ∷ rs) h = drop_all n rs (omega (arith, h))

-- The test before the loop saves only work.
doomed-drop :
    (history_limit : ℤ) (kept : String) (items : List Remediation)
    → doomed history_limit kept items
      ≡ drop (limit_of history_limit - 1) (newest_first (keep (is_candidate kept) items))
unfolding doomed
doomed-drop history_limit kept items =
    let terminal = keep (is_candidate kept) items in
    ground (
      arith,
      drop_all (limit_of history_limit - 1) (newest_first terminal),
      length-newest_first terminal,
    )

-- The candidates are the spared ones and those that go, as many of these as are beyond the limit; no
-- record that goes is newer than one that is spared.
abbrev pub Splits : ℕ → List Remediation → List Remediation → List Remediation → Type 0
Splits limit candidates spared gone =
    ((p : Remediation → Bool) → count p spared + count p gone ≡ count p candidates)
    × (length gone ≡ length candidates + 1 - limit)
    × AllNewest spared gone

-- The terminal records of the list other than the kept one fall in two parts: those that are spared,
-- and those that are picked for deletion. Of these there are as many as, with the kept record, are
-- beyond the limit, and none where all are within it; and each was created before every spared record,
-- or at the same instant under a name that is not greater.
pub doomed-Splits :
    (history_limit : ℤ) (kept : String) (items : List Remediation)
    → (spared : List Remediation) × Splits
        (limit_of history_limit)
        (keep (is_candidate kept) items)
        spared
        (doomed history_limit kept items)
doomed-Splits history_limit kept items =
    let terminal = keep (is_candidate kept) items in
    let sorted = newest_first terminal in
    let n = limit_of history_limit - 1 in
    subst
      (λ gone. (spared : List Remediation) × Splits (limit_of history_limit) terminal spared gone)
      (sym (doomed-drop history_limit kept items))
      (
        take n sorted,
        (
          λ p. count-take-drop p n sorted ∙ count-newest_first p terminal,
          omega (
            arith,
            length-drop n sorted,
            length-newest_first terminal,
            limit_of-positive history_limit,
          ),
          take-AllNewest n sorted (newest_first-Falling terminal),
        ),
      )
