-- ===== src/Guards/Memory/Slices.antt =====
-- One slice of the in-memory history: appending, searching and pruning it.
use remedik.Base.{
  ℕ, zero, suc, ◌+◌, ◌-◌, ◌≡◌, refl, ◌∙◌, Bool, true, false, not, ◌&&◌, Option, none, some, List,
  [], ◌∷◌, ◌++◌, arith, ℤ, pos, before, length, count, keep, if◌then◌else◌, length-append,
  count-append, Bool-cases, inl, inr, drop, ltb, ◌==◌,
}
use remedik.Guards.Memory.{append_time, first_from, prune_times}
use remedik.Guards.Memory.Sorted.{
  sort, sort-IsSorted, IsSorted, count-sort, append-IsSorted, LastUpTo-get_or, is_before,
  search-count, drop-count, AllFrom,
}

sort_unless-IsSorted :
    (b : Bool) (ts : List ℤ) → (b ≡ false → IsSorted ts) → IsSorted (if b then sort ts else ts)
sort_unless-IsSorted true ts h = sort-IsSorted ts
sort_unless-IsSorted false ts h = h refl

-- Appending keeps a slice sorted, and adds the one instant.
pub append_time-IsSorted : (ts : List ℤ) (t : ℤ) → IsSorted ts → IsSorted (append_time ts t)
unfolding append_time
append_time-IsSorted [] t s = (tt, tt)
append_time-IsSorted (u ∷ us) t s = sort_unless-IsSorted _ (u ∷ us ++ t ∷ []) λ e.
    append-IsSorted (u ∷ us) t s
      (LastUpTo-get_or (u ∷ us) t (pos 0) (ground (arith, length-append us (t ∷ []))))

pub count-append_time :
    (p : ℤ → Bool) (ts : List ℤ) (t : ℤ) → count p (append_time ts t) ≡ count p (t ∷ ts)
unfolding append_time count
count-append_time p ts t = ground (arith, count-sort p (ts ++ t ∷ []), count-append p ts (t ∷ []))

abbrev pub is_from : ℤ → ℤ → Bool
is_from since t = not (before t since)

count_split :
    (since : ℤ) (ts : List ℤ) → count (is_from since) ts + count (is_before since) ts ≡ length ts
unfolding count
count_split since [] = refl
count_split since (t ∷ ts) = ground (arith, count_split since ts)

-- Behind the index that the search finds stand the instants from `since` on.
pub first_from-count :
    (ts : List ℤ) (since : ℤ)
    → IsSorted ts
    → length ts - first_from ts since ≡ count (is_from since) ts
unfolding first_from
first_from-count ts since s = omega (arith, search-count ts since (pos 0) s, count_split since ts)

unfoldable pub or_empty : Option (List ℤ) → List ℤ
or_empty none = []
or_empty (some ts) = ts

drop_all {ℓ} : {A : Type ℓ} (xs : List A) → drop (length xs) xs ≡ []
drop_all [] = refl
drop_all (x ∷ xs) = drop_all xs

prune_at :
    (n : ℕ) (ts : List ℤ)
    → or_empty (if n == length ts then none else if ltb 0 n then some (drop n ts) else some ts)
      ≡ drop n ts
unfolding or_empty
prune_at zero [] = refl
prune_at zero (t ∷ ts) = ground arith
prune_at (suc n) ts = ground (arith, drop_all ts)

-- Pruning a slice keeps the instants from the cutoff on.
pub prune_times-keep :
    (cutoff : ℤ) (ts : List ℤ)
    → IsSorted ts
    → or_empty (prune_times cutoff ts) ≡ keep (is_from cutoff) ts
unfolding prune_times first_from
prune_times-keep cutoff ts s =
    rw (search-count ts cutoff (pos 0) s)
      (prune_at (count (is_before cutoff) ts) ts ∙ drop-count ts cutoff s)

keep-AllFrom : (u cutoff : ℤ) (ts : List ℤ) → AllFrom u ts → AllFrom u (keep (is_from cutoff) ts)
unfolding keep
keep-AllFrom u cutoff [] a = tt
keep-AllFrom u cutoff (t ∷ ts) a = ground (arith, keep-AllFrom u cutoff ts a.1)

pub keep-IsSorted : (cutoff : ℤ) (ts : List ℤ) → IsSorted ts → IsSorted (keep (is_from cutoff) ts)
unfolding keep
keep-IsSorted cutoff [] s = tt
keep-IsSorted cutoff (t ∷ ts) s = elim (Bool-cases (before t cutoff)) [
  | inl e ↦ rw e (keep-IsSorted cutoff ts s.1)
  | inr e ↦ rw e (keep-AllFrom t cutoff ts s.0, keep-IsSorted cutoff ts s.1)
]

pub count-keep : (p q : ℤ → Bool) (ts : List ℤ) → count p (keep q ts) ≡ count (λ t. q t && p t) ts
unfolding count keep
count-keep p q [] = refl
count-keep p q (t ∷ ts) = ground (arith, count-keep p q ts)
