-- ===== src/Guards/Memory/Search.antt =====
-- Go's `sort.Search`: the least index at which a test that turns true once passes, by bisection.
use remedik.Base.{
  ℕ, zero, suc, ◌+◌, ◌-◌, ◌/◌, ◌≤◌, ◌<◌, ◌≡◌, Bool, true, false, arith, ltb, ltb→lt, Bool-cases,
  inl, inr, if◌then◌else◌,
}

bisect : ℕ → (ℕ → Bool) → ℕ → ℕ → ℕ
bisect zero f i j = i
bisect (suc fuel) f i j = elim (ltb i j) [
  | false ↦ i
  | true ↦
      let h = (i + j) / 2 in
      let left = bisect fuel f i h in
      let right = bisect fuel f (h + 1) j in if f h then left else right
]

-- The interval shrinks at each round, so its length is fuel enough.
pub search : ℕ → (ℕ → Bool) → ℕ
search n f = bisect n f 0 n

-- `f` is false below `c` and true from `c` on, as far as `n`.
abbrev pub TurnsAt : ℕ → (ℕ → Bool) → ℕ → Type 0
TurnsAt n f c = (k : ℕ) → k < n → ltb k c ≡ true → f k ≡ false

abbrev pub StaysFrom : ℕ → (ℕ → Bool) → ℕ → Type 0
StaysFrom n f c = (k : ℕ) → k < n → ltb k c ≡ false → f k ≡ true

bisect_lem :
    (fuel : ℕ) (f : ℕ → Bool) (n c i j : ℕ)
    → TurnsAt n f c
    → StaysFrom n f c
    → i ≤ c
    → c ≤ j
    → j ≤ n
    → j - i ≤ fuel
    → bisect fuel f i j ≡ c
unfolding bisect
bisect_lem zero f n c i j low high a b d m = omega arith
bisect_lem (suc fuel) f n c i j low high a b d m = elim (Bool-cases (ltb i j)) [
  | inr stop ↦ ground arith
  | inl go ↦
      let h = (i + j) / 2 in
      let lt : i < j = ltb→lt i j go in
      elim (Bool-cases (ltb h c)) [
        | inl under ↦ ground (
          arith,
          low h (omega arith) under,
          bisect_lem fuel f n c (h + 1) j low high (omega (arith, ltb→lt h c under)) b d
              (omega arith),
        )
        | inr above ↦ ground (
          arith,
          high h (omega arith) above,
          bisect_lem fuel f n c i h low high a (ground arith) (omega arith) (omega arith),
        )
      ]
]

-- The search finds the turning point.
pub search_lem : (f : ℕ → Bool) (n c : ℕ) → TurnsAt n f c → StaysFrom n f c → c ≤ n → search n f ≡ c
unfolding search
search_lem f n c low high h =
    bisect_lem n f n c 0 n low high (omega arith) h (omega arith) (omega arith)
