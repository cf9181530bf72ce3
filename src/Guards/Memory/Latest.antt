-- ===== src/Guards/Memory/Latest.antt =====
-- What `LastCompletion` reads off a sorted slice.
use remedik.Base.{
  ℕ, suc, ◌-◌, ◌<◌, ◌≡◌, refl, subst, sym, Bool, true, false, ◌==◌, Option, none, some, List, [],
  ◌∷◌, arith, ℤ, pos, ◌≤ℤ◌, eq_ℤ, lt_ℤ, count, length, get_or,
}
use remedik.Guards.Memory.{last_time}
use remedik.Guards.Memory.Sorted.{IsSorted, AllFrom}

-- The latest of a bag of instants, given by how many of them pass a test: one is at that instant,
-- and none is after it.
abbrev pub IsLatest : Option ℤ → ((ℤ → Bool) → ℕ) → Type 0
IsLatest none counts = counts (λ _. true) ≡ 0
IsLatest (some t) counts = (0 < counts (eq_ℤ t)) × (counts (lt_ℤ t) ≡ 0)

last_of : ℤ → List ℤ → ℤ
last_of t [] = t
last_of t (u ∷ us) = last_of u us

one_back : (n : ℕ) → suc n - 1 ≡ n
one_back n = omega arith

suc-eq-zero : (n : ℕ) → (suc n == 0) ≡ false
suc-eq-zero n = ground arith

get-last_of : (t d : ℤ) (us : List ℤ) → get_or (t ∷ us) (length us) d ≡ last_of t us
unfolding last_of
get-last_of t d [] = refl
get-last_of t d (u ∷ us) = get-last_of u d us

le-last_of : (t : ℤ) (us : List ℤ) → AllFrom t us → IsSorted us → t ≤ℤ last_of t us
unfolding last_of
le-last_of t [] a s = omega arith
le-last_of t (u ∷ us) a s = omega (arith, le-last_of u us s.0 s.1)

last_of-IsLatest :
    (t : ℤ) (us : List ℤ)
    → AllFrom t us
    → IsSorted us
    → IsLatest (some (last_of t us)) (λ p. count p (t ∷ us))
unfolding last_of count
last_of-IsLatest t [] a s = (ground arith, ground arith)
last_of-IsLatest t (u ∷ us) a s =
    let ih = last_of-IsLatest u us s.0 s.1 in
    (ground arith, ground (arith, le-last_of u us s.0 s.1))

last_time-last_of : (t : ℤ) (us : List ℤ) → last_time (t ∷ us) ≡ some (last_of t us)
unfolding last_time
last_time-last_of t us =
    rw (suc-eq-zero (length us), one_back (length us), get-last_of t (pos 0) us)

pub last_time-IsLatest : (ts : List ℤ) → IsSorted ts → IsLatest (last_time ts) (λ p. count p ts)
unfolding last_time count
last_time-IsLatest [] s = refl
last_time-IsLatest (t ∷ us) s =
    subst (λ o. IsLatest o (λ p. count p (t ∷ us))) (sym (last_time-last_of t us))
      (last_of-IsLatest t us s.0 s.1)
