-- ===== src/Alert/Fingerprint/Encoding.antt =====
-- internal/alert/alert.go: what two label sets write to the hash.
use remedik.Base.{
  ℕ, zero, suc, ◌+◌, ◌-◌, ◌*◌, ◌/◌, ◌%◌, ◌≤◌, ◌≡◌, ◌∙◌, refl, sym, ap, List, [], ◌∷◌, ◌++◌, map,
  ◌==◌, if◌then◌else◌, Bool-cases, inl, inr, length, length-append, drop, take, arith,
}
use remedik.Alert.{Labels}
use remedik.Alert.Fingerprint.{digits, decimal, field, encode, written, pair_bytes, sorted_keys}

-- Reads digits, from the value so far, and drops the colon after them.
read : ℕ → List ℕ → ℕ × List ℕ
read n [] = (n, [])
read n (b ∷ bs) = if b == 58 then (n, bs) else read (n * 10 + (b - 48)) bs

append_assoc : (xs ys zs : List ℕ) → (xs ++ ys) ++ zs ≡ xs ++ (ys ++ zs)
append_assoc [] ys zs = refl
append_assoc (x ∷ xs) ys zs = ap (λ q. x ∷ q) (append_assoc xs ys zs)

minus : (d : ℕ) → 48 + d - 48 ≡ d
minus d = omega arith

pair_path : {A B : Type 0} → {a b : A} → {c d : B} → a ≡ b → c ≡ d → Path (A × B) (a, c) (b, d)
pair_path e f = λ i. (e i, f i)

read_digit :
    (m d : ℕ) (rest : List ℕ) → suc d ≤ 10 → read m ((48 + d) ∷ rest) ≡ read (m * 10 + d) rest
unfolding read
read_digit m d rest h = ground (arith, minus d)

digit_step : (n : ℕ) → n / 10 * 10 + n % 10 ≡ n
digit_step n = omega arith

last_digit : (n : ℕ) → suc (n % 10) ≤ 10
last_digit n = omega arith

read-digits :
    (rounds n : ℕ) (rest : List ℕ) → suc n ≤ rounds → read 0 (digits rounds n ++ rest) ≡ read n rest
unfolding digits
read-digits zero n rest h = absurd (omega (arith, h))
read-digits (suc rounds) n rest h = elim (Bool-cases (n / 10 == 0)) [
  | inl none_before ↦ rw none_before (
      read_digit 0 (n % 10) rest (last_digit n)
      ∙ ap (λ m. read m rest) (ground (arith, none_before)))
  | inr some_before ↦
      rw (some_before, append_assoc (digits rounds (n / 10)) ((48 + n % 10) ∷ []) rest)
        (read-digits rounds (n / 10) ((48 + n % 10) ∷ rest) (ground (arith, some_before, h))
          ∙ read_digit (n / 10) (n % 10) rest (last_digit n)
          ∙ ap (λ m. read m rest) (digit_step n))
]

read-decimal : (n : ℕ) (rest : List ℕ) → read 0 (decimal n ++ 58 ∷ rest) ≡ (n, rest)
unfolding decimal read
read-decimal n rest = read-digits (suc n) n (58 ∷ rest) (omega arith)

take-length : (xs ys : List ℕ) → take (length xs) (xs ++ ys) ≡ xs
take-length [] ys = refl
take-length (x ∷ xs) ys = ap (λ q. x ∷ q) (take-length xs ys)

drop-length : (xs ys : List ℕ) → drop (length xs) (xs ++ ys) ≡ ys
drop-length [] ys = refl
drop-length (x ∷ xs) ys = drop-length xs ys

-- Reads a field, and what follows it.
read_field : List ℕ → List ℕ × List ℕ
read_field bs = let (n, rest) = read 0 bs in (take n rest, drop n rest)

read_field-field : (k rest : List ℕ) → read_field (field k ++ rest) ≡ (k, rest)
unfolding read_field field
read_field-field k rest =
    rw (append_assoc (decimal (length k)) (58 ∷ k) rest, read-decimal (length k) (k ++ rest))
      (pair_path (take-length k rest) (drop-length k rest))

field_split : (k j rest tail : List ℕ) → field k ++ rest ≡ field j ++ tail → (k ≡ j) × (rest ≡ tail)
field_split k j rest tail e =
    let same = sym (read_field-field k rest) ∙ ap read_field e ∙ read_field-field j tail in
    (ap (λ q. q.0) same, ap (λ q. q.1) same)

not_empty : (b : ℕ) (xs ys : List ℕ) → [] ≡ xs ++ b ∷ ys → ⊥
not_empty b xs ys e = omega (arith, ap length e, length-append xs (b ∷ ys))

encode_injective : (ps qs : List (List ℕ × List ℕ)) → encode ps ≡ encode qs → ps ≡ qs
unfolding encode
encode_injective [] [] e = refl
encode_injective [] ((j, w) ∷ qs) e = absurd (not_empty 61 (field j) (field w ++ 59 ∷ encode qs) e)
encode_injective ((k, v) ∷ ps) [] e =
    absurd (not_empty 61 (field k) (field v ++ 59 ∷ encode ps) (sym e))
encode_injective ((k, v) ∷ ps) ((j, w) ∷ qs) e =
    let (same_key, e₁) = field_split k j _ _ e in
    let (same_value, e₂) = field_split v w _ _ (ap (drop 1) e₁) in
    let rest = encode_injective ps qs (ap (drop 1) e₂) in λ i. (same_key i, same_value i) ∷ rest i

-- What is hashed tells label sets apart: two label sets that write the same bytes have the same names
-- and the same values under them, in the order of the names, as bytes. So {"ab":"c"} and {"a":"bc"}
-- are hashed from different bytes.
pub written_injective :
    (l m : Labels)
    → written l ≡ written m
    → map (pair_bytes l) (sorted_keys l) ≡ map (pair_bytes m) (sorted_keys m)
unfolding written
written_injective l m e =
    encode_injective (map (pair_bytes l) (sorted_keys l)) (map (pair_bytes m) (sorted_keys m)) e
