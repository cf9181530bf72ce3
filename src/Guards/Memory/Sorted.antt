-- ===== src/Guards/Memory/Sorted.antt =====
-- Ascending lists of instants: what `sort.Slice` makes of a slice, and what a search finds in one.
use remedik.Base.{
  ℕ, zero, suc, ◌-◌, ◌<◌, ◌≡◌, refl, Bool, false, not, List, [], ◌∷◌, ◌++◌, arith, ℤ, ◌≤ℤ◌, before,
  ltb, length, get_or, count, if◌then◌else◌, count-le-length, drop, keep,
}
use remedik.Guards.Memory.Search.{search, search_lem}

insert : ℤ → List ℤ → List ℤ
insert t [] = t ∷ []
insert t (u ∷ us) = if before t u then t ∷ u ∷ us else u ∷ insert t us

pub sort : List ℤ → List ℤ
sort [] = []
sort (t ∷ ts) = insert t (sort ts)

abbrev pub AllFrom : ℤ → List ℤ → Type 0
AllFrom t [] = Unit {0}
AllFrom t (u ∷ us) = (t ≤ℤ u) × AllFrom t us

abbrev pub IsSorted : List ℤ → Type 0
IsSorted [] = Unit {0}
IsSorted (t ∷ ts) = AllFrom t ts × IsSorted ts

AllFrom-mono : (t u : ℤ) (us : List ℤ) → t ≤ℤ u → AllFrom u us → AllFrom t us
AllFrom-mono t u [] h a = tt
AllFrom-mono t u (v ∷ us) h a = (omega arith, AllFrom-mono t u us h a.1)

insert-AllFrom : (u t : ℤ) (ts : List ℤ) → u ≤ℤ t → AllFrom u ts → AllFrom u (insert t ts)
unfolding insert
insert-AllFrom u t [] h a = (h, tt)
insert-AllFrom u t (v ∷ ts) h a = ground (arith, insert-AllFrom u t ts h a.1)

insert-IsSorted : (t : ℤ) (ts : List ℤ) → IsSorted ts → IsSorted (insert t ts)
unfolding insert
insert-IsSorted t [] s = (tt, tt)
insert-IsSorted t (u ∷ us) s =
    ground (arith, AllFrom-mono t u us, insert-AllFrom u t us, insert-IsSorted t us s.1)

pub sort-IsSorted : (ts : List ℤ) → IsSorted (sort ts)
unfolding sort
sort-IsSorted [] = tt
sort-IsSorted (t ∷ ts) = insert-IsSorted t (sort ts) (sort-IsSorted ts)

count-insert : (p : ℤ → Bool) (t : ℤ) (ts : List ℤ) → count p (insert t ts) ≡ count p (t ∷ ts)
unfolding insert count
count-insert p t [] = refl
count-insert p t (u ∷ us) = ground (arith, count-insert p t us)

pub count-sort : (p : ℤ → Bool) (ts : List ℤ) → count p (sort ts) ≡ count p ts
unfolding sort count
count-sort p [] = refl
count-sort p (t ∷ ts) = ground (arith, count-insert p t (sort ts), count-sort p ts)

-- The last entry is not after `t`.
abbrev pub LastUpTo : List ℤ → ℤ → Type 0
LastUpTo [] t = Unit {0}
LastUpTo (u ∷ []) t = u ≤ℤ t
LastUpTo (u ∷ v ∷ vs) t = LastUpTo (v ∷ vs) t

append-AllFrom : (u t : ℤ) (ts : List ℤ) → AllFrom u ts → u ≤ℤ t → AllFrom u (ts ++ t ∷ [])
append-AllFrom u t [] a h = (h, tt)
append-AllFrom u t (v ∷ ts) a h = (a.0, append-AllFrom u t ts a.1 h)

head_up_to : (u t : ℤ) (us : List ℤ) → AllFrom u us → LastUpTo (u ∷ us) t → IsSorted us → u ≤ℤ t
head_up_to u t [] a l s = l
head_up_to u t (v ∷ vs) a l s = let rest = head_up_to v t vs s.0 l s.1 in omega arith

pub append-IsSorted : (ts : List ℤ) (t : ℤ) → IsSorted ts → LastUpTo ts t → IsSorted (ts ++ t ∷ [])
append-IsSorted [] t s l = (tt, tt)
append-IsSorted (u ∷ []) t s l = ((l, tt), (tt, tt))
append-IsSorted (u ∷ v ∷ vs) t s l = (
  append-AllFrom u t (v ∷ vs) s.0 (head_up_to u t (v ∷ vs) s.0 l s.1),
  append-IsSorted (v ∷ vs) t s.1 l,
)

two_back : (n : ℕ) → suc (suc n) - 2 ≡ n
two_back n = omega arith

-- How the source finds the last entry of the old slice in the new one.
pub LastUpTo-get_or :
    (ts : List ℤ) (t d : ℤ)
    → before t (get_or (ts ++ t ∷ []) (length (ts ++ t ∷ []) - 2) d) ≡ false
    → LastUpTo ts t
LastUpTo-get_or [] t d h = tt
LastUpTo-get_or (u ∷ []) t d h = ground arith
LastUpTo-get_or (u ∷ v ∷ []) t d h = ground arith
LastUpTo-get_or (u ∷ v ∷ w ∷ vs) t d h =
    LastUpTo-get_or (v ∷ w ∷ vs) t d
      (rw (two_back (length (vs ++ t ∷ []))) (rw (two_back (suc (length (vs ++ t ∷ [])))) at h))

abbrev pub is_before : ℤ → ℤ → Bool
is_before since t = before t since

count-AllFrom :
    (t since : ℤ) (ts : List ℤ) → since ≤ℤ t → AllFrom t ts → count (is_before since) ts ≡ 0
unfolding count
count-AllFrom t since [] h a = refl
count-AllFrom t since (u ∷ us) h a = ground (arith, count-AllFrom t since us h a.1)

pub turns_at :
    (ts : List ℤ) (since d : ℤ) (k : ℕ)
    → IsSorted ts
    → k < length ts
    → before (get_or ts k d) since ≡ ltb k (count (is_before since) ts)
unfolding count
turns_at [] since d k s h = elim h [ ]
turns_at (t ∷ ts) since d zero s h = ground (arith, count-AllFrom t since ts)
turns_at (t ∷ ts) since d (suc k) s h =
    ground (arith, turns_at ts since d k s.1, count-AllFrom t since ts)

pub search-count :
    (ts : List ℤ) (since d : ℤ)
    → IsSorted ts
    → search (length ts) (λ k. not (before (get_or ts k d) since)) ≡ count (is_before since) ts
search-count ts since d s =
    search_lem _ (length ts) _ (λ k h l. ground (arith, turns_at ts since d k s h))
      (λ k h l. ground (arith, turns_at ts since d k s h)) (count-le-length (is_before since) ts)

keep-AllFrom :
    (t since : ℤ) (ts : List ℤ)
    → since ≤ℤ t
    → AllFrom t ts
    → keep (λ u. not (before u since)) ts ≡ ts
unfolding keep
keep-AllFrom t since [] h a = refl
keep-AllFrom t since (u ∷ us) h a = ground (arith, keep-AllFrom t since us h a.1)

-- What is left of a sorted list from its turning point on.
pub drop-count :
    (ts : List ℤ) (since : ℤ)
    → IsSorted ts
    → drop (count (is_before since) ts) ts ≡ keep (λ t. not (before t since)) ts
unfolding count keep
drop-count [] since s = refl
drop-count (t ∷ ts) since s =
    ground (arith, drop-count ts since s.1, count-AllFrom t since ts, keep-AllFrom t since ts)
