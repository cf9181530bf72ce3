-- ===== src/Action/Scale/Bounds.antt =====
-- internal/action/workload/scale.go: the arithmetic of a relative change.
use Prim.Native.Nat.{min}
use remedik.Base.{
  ℕ, ◌+◌, ◌≤◌, ◌<◌, ◌≡◌, sym, ap, ◌∙◌, ◌-◌, ◌%◌, ◌⊎◌, inl, inr, ◌↔◌, ok, ℤ, pos, negsuc, ◌≤ℤ◌, ◌<ℤ◌,
  ◌+ℤ◌, arith,
}
use remedik.Action.Scale.Count.{max_int32, int32, signed32, capped, increased_by}

-- Whatever wraps, a relative change that is granted raises the count, and to no more than the ceiling.
capped-bounds :
    (current ceiling want least : ℤ)
    → capped current ceiling want ≡ ok least
    → (current <ℤ least) × (least ≤ℤ ceiling)
unfolding capped
capped-bounds current ceiling want least e = ground (arith, e)

sum_of : (a b : ℕ) → pos a +ℤ pos b ≡ pos (a + b)
unfolding ◌+ℤ◌
sum_of a b = ground arith

small_mod : (n : ℕ) → n < 4294967296 → n % 4294967296 ≡ n
small_mod n h = omega (arith, h)

int32-small : (n : ℕ) → n ≤ max_int32 → int32 (pos n) ≡ pos n
unfolding int32 signed32
int32-small n h = ground (arith, small_mod n, h)

int32-past : (n : ℕ) → max_int32 < n → n ≤ 4294967294 → int32 (pos n) ≡ negsuc (4294967295 - n)
unfolding int32 signed32
int32-past n h k = ground (arith, small_mod n, h, k)

sum_wraps : (a b : ℕ) → int32 (pos a +ℤ pos b) ≡ int32 (pos (a + b))
sum_wraps a b = ap int32 (sum_of a b)

le_cases : (a b : ℕ) → (a ≤ b) ⊎ (b < a)
le_cases a b = ground arith

capped-exact :
    (current ceiling n want : ℕ)
    → (capped (pos current) (pos ceiling) (pos n) ≡ ok (pos want))
      ↔ ((current < ceiling) × (current < n) × (want ≡ min ceiling n))
unfolding capped
capped-exact current ceiling n want = (λ e. ground (arith, e), λ h. ground (arith, h))

capped-past :
    (current ceiling n want : ℕ) → capped (pos current) (pos ceiling) (negsuc n) ≡ ok (pos want) → ⊥
unfolding capped
capped-past current ceiling n want e = ground (arith, e)

-- `increaseBy` is granted exactly where the sum is an int32 and the ceiling lies above the present count,
-- and then it is the sum, but at most the ceiling. So a sum past the largest int32 is refused although
-- there is headroom.
pub increased_by-exact :
    (current ceiling delta want : ℕ)
    → current ≤ max_int32
    → ceiling ≤ max_int32
    → delta ≤ max_int32
    → 0 < delta
    → (increased_by (pos current) (pos ceiling) (pos delta) ≡ ok (pos want)) ↔ (
        (current + delta ≤ max_int32)
        × (current < ceiling)
        × (want ≡ min ceiling (current + delta)))
unfolding increased_by
increased_by-exact current ceiling delta want c m d p =
    elim (le_cases (current + delta) max_int32) [
      | inl fits ↦
          let (to, from) = capped-exact current ceiling (current + delta) want in
          let same = sum_wraps current delta ∙ int32-small (current + delta) fits in
          (
            λ e.
                let h = to (ap (λ w. capped (pos current) (pos ceiling) w) (sym same) ∙ e) in
                (fits, h.0, h.2),
            λ h.
                ap (λ w. capped (pos current) (pos ceiling) w) same
                ∙ from (h.1, omega (arith, p), h.2),
          )
      | inr past ↦
          let same =
            sum_wraps current delta ∙ int32-past (current + delta) past (omega (arith, c, d)) in
          (
            λ e. absurd (
                capped-past current ceiling _ want
                  (ap (λ w. capped (pos current) (pos ceiling) w) (sym same) ∙ e)),
            λ h. absurd (omega (arith, h.0, past)),
          )
    ]
