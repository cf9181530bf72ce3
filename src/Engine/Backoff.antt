-- ===== src/Engine/Backoff.antt =====
-- internal/engine/backoff.go: how long a retry waits, in nanoseconds. An attempt is a number below
-- 2^31, and the wait stays below 2^63, so neither wraps.
use Prim.Native.Nat.{min}
use native.Mathlib.Nat.{pow-suc}
use remedik.Base.{
  ap, ◌∙◌, ℕ, zero, suc, ◌+◌, ◌-◌, ◌*◌, ◌^◌, ◌≤◌, ◌<◌, ◌≡◌, refl, arith, second, minute, leb,
  if◌then◌else◌, inl, inr, leb→le, Bool-cases, false,
}

abbrev pub base_backoff : ℕ
base_backoff = 30 * second

abbrev pub max_backoff : ℕ
max_backoff = 10 * minute

-- The loop over `attempt - 2` rounds, which returns early at the cap.
double_up : ℕ → ℕ → ℕ
double_up zero d = d
double_up (suc n) d =
    let rest = double_up n (d * 2) in if leb max_backoff (d * 2) then max_backoff else rest

pub backoff : ℕ → ℕ
unfolding double_up
backoff attempt = if leb attempt 1 then 0 else double_up (attempt - 2) base_backoff

two_less : (k : ℕ) → k + 2 - 2 ≡ k
two_less k = omega arith

later_attempt : (k : ℕ) → leb (k + 2) 1 ≡ false
later_attempt k = ground arith

pow-pos : (n : ℕ) → 1 ≤ 2 ^ n
pow-pos zero = omega arith
pow-pos (suc n) = omega (arith, pow-suc 2 n, pow-pos n)

capped_lem : (d n : ℕ) {t : ℕ} → max_backoff ≤ d → d * 2 ^ n ≡ t → max_backoff ≡ min t max_backoff
capped_lem d n h e = grind (arith, pow-pos n)

double_up-min : (n d : ℕ) → d < max_backoff → double_up n d ≡ min (d * 2 ^ n) max_backoff
unfolding double_up
double_up-min zero d h = omega arith
double_up-min (suc n) d h =
    let grown : d * 2 * 2 ^ n ≡ d * 2 ^ suc n =
      omega (arith, ap (λ (t : ℕ). d * t) (pow-suc 2 n)) in
    elim (Bool-cases (leb max_backoff (d * 2))) [
      | inl capped ↦ rw (capped, double_up) (capped_lem (d * 2) n (leb→le _ _ capped) grown)
      | inr free ↦
          rw (free, double_up)
            (double_up-min n (d * 2) (ground arith) ∙ ap (λ (t : ℕ). min t max_backoff) grown)
    ]

-- The first attempt does not wait; attempt k + 2 waits thirty seconds times two to the k, and ten
-- minutes where that is more.
pub backoff-doubles :
    (k : ℕ)
    → (backoff 0 ≡ 0) × (backoff 1 ≡ 0) × (backoff (k + 2) ≡ min (base_backoff * 2 ^ k) max_backoff)
unfolding backoff
backoff-doubles k =
    (refl, refl, rw (later_attempt k, two_less k) (double_up-min k base_backoff (omega arith)))
