-- ===== src/Alert/Fingerprint.antt =====
-- internal/alert/alert.go: the fingerprint of a label set. A Go string is its bytes, those of the UTF-8
-- form; `hash/fnv` is the 64-bit FNV-1a.
pub mod Encoding
use Prim.Native.Char.{Char, code}
use Prim.Native.Nat.{bit_xor}
use text.Mathlib.Text.{◌==◌ as str_eq}
use remedik.Base.{
  ℕ, zero, suc, ◌+◌, ◌-◌, ◌*◌, ◌/◌, ◌%◌, ◌^◌, String, ◌≡◌, refl, Bool, true, false, List, [], ◌∷◌,
  ◌++◌, map, ltb, ◌==◌, if◌then◌else◌, length, sort_strings, cons-nonempty,
}
use remedik.Alert.{Labels, label}

-- The UTF-8 form of one code point.
rune_bytes : ℕ → List ℕ
rune_bytes c =
    if ltb c 128
    then (c ∷ [])
    else if ltb c 2048
    then (192 + c / 64) ∷ ((128 + c % 64) ∷ [])
    else if ltb c 65536
    then (224 + c / 4096) ∷ (128 + c / 64 % 64) ∷ ((128 + c % 64) ∷ [])
    else (240 + c / 262144) ∷ (128 + c / 4096 % 64) ∷ (128 + c / 64 % 64) ∷ ((128 + c % 64) ∷ [])

unfoldable pub bytes : String → List ℕ
unfolding rune_bytes
bytes String.[] = []
bytes (String.◌∷◌ c s) = rune_bytes (code c) ++ bytes s

-- `%d`; a number has no more digits than one and itself.
unfoldable pub digits : ℕ → ℕ → List ℕ
digits zero n = []
digits (suc rounds) n =
    let before = digits rounds (n / 10) in
    (if n / 10 == 0 then [] else before) ++ (48 + n % 10) ∷ []

unfoldable pub decimal : ℕ → List ℕ
unfolding digits
decimal n = digits (suc n) n

-- `%d:%s`.
unfoldable pub field : List ℕ → List ℕ
unfolding decimal
field bs = decimal (length bs) ++ 58 ∷ bs

-- What is written to the hash: "%d:%s=%d:%s;" for each pair.
unfoldable pub encode : List (List ℕ × List ℕ) → List ℕ
unfolding field
encode [] = []
encode ((k, v) ∷ pairs) = field k ++ (61 ∷ (field v ++ (59 ∷ encode pairs)))

keys : Labels → List String
keys [] = []
keys ((k, v) ∷ labels) = k ∷ keys labels

unfoldable pub sorted_keys : Labels → List String
unfolding keys
sorted_keys labels = sort_strings (keys labels)

unfoldable pub pair_bytes : Labels → String → List ℕ × List ℕ
pair_bytes labels k = (bytes k, bytes (label labels k))

fnv_offset : ℕ
fnv_offset = 14695981039346656037

fnv_prime : ℕ
fnv_prime = 1099511628211

-- `h.Write`, from the state `h`.
fnv_from : ℕ → List ℕ → ℕ
unfolding fnv_prime
fnv_from h [] = h
fnv_from h (b ∷ bs) = fnv_from (bit_xor h b * fnv_prime % 2 ^ 64) bs

unfoldable pub written : Labels → List ℕ
unfolding encode sorted_keys pair_bytes
written labels = encode (map (pair_bytes labels) (sorted_keys labels))

unfoldable pub sum64 : List ℕ → ℕ
unfolding fnv_from fnv_offset
sum64 bs = fnv_from fnv_offset bs

digit_in : Char → String → ℕ → Char
digit_in last String.[] d = last
digit_in last (String.◌∷◌ c s) zero = c
digit_in last (String.◌∷◌ c s) (suc d) = digit_in last s d

-- `%x`, padded to so many places.
hex : ℕ → ℕ → String
unfolding digit_in
hex zero n = ""
hex (suc places) n =
    String.◌∷◌ (digit_in "f" "0123456789abcde" (n / 16 ^ places % 16)) (hex places n)

pub derive_fingerprint : Labels → String
unfolding written sum64 hex
derive_fingerprint labels = hex 16 (sum64 (written labels))

pub derive_fingerprint-nonempty : (labels : Labels) → str_eq (derive_fingerprint labels) "" ≡ false
unfolding derive_fingerprint hex
derive_fingerprint-nonempty labels =
    let h = sum64 (written labels) in
    cons-nonempty (digit_in "f" "0123456789abcde" (h / 16 ^ 15 % 16)) (hex 15 h)
