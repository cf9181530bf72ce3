-- ===== src/Base/Strings.antt =====
-- The functions of Go's `strings` that several parts use.
use Prim.Native.Char.{Char, code}
use Prim.Native.String.{String}
use Prim.Native.Nat.{ℕ, zero, suc, ◌/◌, ◌%◌}
use text.Mathlib.Text.{◌==◌ as str_eq}
use text.Mathlib.TextEquality.{eq_iff}
use text.Mathlib.TextLemmas.{cons≢nil}
use mathlib.Core.Logic.{inl, inr}
use mathlib.Core.Path.{◌≡◌}
use mathlib.Core.Bool.{Bool, false, ◌&&◌, ◌||◌}
use mathlib.Core.Option.{Option, none, some}
use remedik.Base.Int.{ℤ, pos, negsuc}
use remedik.Base.Tests.{Bool-cases, leb, ◌==◌, if◌then◌else◌}

-- `strings.ToLower`, on the ASCII letters and on the two other characters, the dotted I and the Kelvin
-- sign, whose lower case is one.
unfoldable pub lower_in : String → String → Char → Char
lower_in (String.◌∷◌ u us) (String.◌∷◌ l ls) c = if code u == code c then l else lower_in us ls c
lower_in _ _ c = c

unfoldable pub lower_char : Char → Char
unfolding lower_in
lower_char c = lower_in "ABCDEFGHIJKLMNOPQRSTUVWXYZİK" "abcdefghijklmnopqrstuvwxyzik" c

unfoldable pub to_lower : String → String
unfolding lower_char
to_lower String.[] = String.[]
to_lower (String.◌∷◌ c s) = String.◌∷◌ (lower_char c) (to_lower s)

-- `unicode.IsSpace`.
unfoldable pub is_space : ℕ → Bool
is_space c =
    (leb 9 c && leb c 13)
    || ((leb 8192 c && leb c 8202)
        || (c == 32
            || (c == 133
                || (c == 160
                    || (c == 5760
                        || (c == 8232
                            || (c == 8233 || (c == 8239 || (c == 8287 || c == 12288)))))))))

trim_left : String → String
unfolding is_space
trim_left String.[] = ""
trim_left (String.◌∷◌ c s) =
    let rest = trim_left s in if is_space (code c) then rest else String.◌∷◌ c s

trim_right : String → String
unfolding is_space
trim_right String.[] = ""
trim_right (String.◌∷◌ c s) =
    let rest = trim_right s in if is_space (code c) && str_eq rest "" then "" else String.◌∷◌ c rest

-- `strings.TrimSpace`.
unfoldable pub trim : String → String
unfolding trim_left trim_right
trim s = trim_right (trim_left s)

add_before : Char → Option (String × String) → Option (String × String)
add_before c found = elim found [ none ↦ none | some (a, b) ↦ some (String.◌∷◌ c a, b) ]

-- `strings.Cut` at a character; `none` where it is not found.
unfoldable pub cut : ℕ → String → Option (String × String)
unfolding add_before
cut at_char String.[] = none
cut at_char (String.◌∷◌ c s) =
    if code c == at_char then some ("", s) else add_before c (cut at_char s)

pub cons-nonempty : (c : Char) (s : String) → str_eq (String.◌∷◌ c s) "" ≡ false
cons-nonempty c s = elim (Bool-cases (str_eq (String.◌∷◌ c s) "")) [
  | inl e ↦ absurd (cons≢nil ((eq_iff _ "").0 e))
  | inr e ↦ e
]

digit_at : Char → String → ℕ → Char
digit_at last String.[] d = last
digit_at last (String.◌∷◌ c s) zero = c
digit_at last (String.◌∷◌ c s) (suc d) = digit_at last s d

-- `%d` and `strconv.Itoa`; a number has no more digits than one and itself.
itoa_from : ℕ → ℕ → String → String
unfolding digit_at
itoa_from zero n tail = tail
itoa_from (suc rounds) n tail =
    let more = String.◌∷◌ (digit_at "9" "012345678" (n % 10)) tail in
    let before = itoa_from rounds (n / 10) more in if n / 10 == 0 then more else before

pub itoa : ℤ → String
unfolding itoa_from
itoa (pos n) = itoa_from (suc n) n ""
itoa (negsuc n) = String.◌∷◌ "-" (itoa_from (suc (suc n)) (suc n) "")
