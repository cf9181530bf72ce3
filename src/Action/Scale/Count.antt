-- ===== src/Action/Scale/Count.antt =====
-- internal/action/workload/scale.go: the number of replicas that a step asks for. An int32 is an integer,
-- and the sums and the product of two wrap.
use Prim.Native.Char.{code}
use text.Mathlib.Text.{◌==◌ as str_eq}
use remedik.Base.{
  ℕ, suc, ◌+◌, ◌-◌, ◌*◌, ◌/◌, ◌%◌, String, Bool, true, false, ◌&&◌, Option, none, some, [], ◌∷◌,
  str, num, errorf, wrapf, Result, ok, err, ℤ, pos, negsuc, le_ℤ, lt_ℤ, ◌+ℤ◌, neg, leb, ltb, ◌==◌,
  if◌then◌else◌,
}
use remedik.Alert.{Labels}
use remedik.Action.{get_param}

abbrev pub replicas_param : String
replicas_param = "replicas"

abbrev pub increase_by_param : String
increase_by_param = "increaseBy"

abbrev pub increase_percent_param : String
increase_percent_param = "increasePercent"

abbrev pub max_param : String
max_param = "max"

abbrev pub max_int32 : ℕ
max_int32 = 2147483647

-- A number as an int32: the last 32 bits, the upper half of them negative.
unfoldable pub signed32 : ℕ → ℤ
signed32 m = if leb m max_int32 then pos m else negsuc (4294967295 - m)

unfoldable pub int32 : ℤ → ℤ
unfolding signed32
int32 (pos n) = signed32 (n % 4294967296)
int32 (negsuc n) = signed32 (4294967295 - n % 4294967296)

-- Go's quotient goes towards 0.
hundredth : ℤ → ℤ
hundredth (pos n) = pos (n / 100)
hundredth (negsuc n) = neg (pos (suc n / 100))

-- The value of decimal digits, most significant first, from the value so far.
unfoldable pub digits_from : ℕ → String → Option ℕ
digits_from n String.[] = some n
digits_from n (String.◌∷◌ c s) =
    let rest = digits_from (n * 10 + (code c - 48)) s in
    if leb 48 (code c) && leb (code c) 57 then rest else none

unfoldable pub digits_of : String → Option ℕ
unfolding digits_from
digits_of s = if str_eq s "" then none else digits_from 0 s

unfoldable pub signed : ℕ → Bool → Option ℕ → Option ℤ
signed bound minus none = none
signed bound minus (some n) =
    let limit = if minus then bound else bound - 1 in
    if leb n limit then some (if minus then neg (pos n) else pos n) else none

-- `strconv.ParseInt` in base 10, with the bound of the width; `none` stands for its error.
unfoldable pub parse_int : ℕ → String → Option ℤ
unfolding digits_of signed
parse_int bound String.[] = none
parse_int bound (String.◌∷◌ c s) =
    if code c == 43
    then signed bound false (digits_of s)
    else if code c == 45
    then signed bound true (digits_of s)
    else signed bound false (digits_of (String.◌∷◌ c s))

pub parse_int32 : String → Option ℤ
unfolding parse_int
parse_int32 s = parse_int 2147483648 s

unfoldable pub parse_positive_int32 : String → String → Result ℤ
parse_positive_int32 raw param =
    if str_eq raw ""
    then err (errorf (str "the step sets no \"" ∷ str param ∷ str "\"" ∷ []))
    else elim (parse_int32 raw) [
      | none ↦ err (
          errorf (
            str "parameter \""
            ∷ str param
            ∷ str "\": \""
            ∷ str raw
            ∷ str "\" is not a whole number"
            ∷ []))
      | some n ↦
          if le_ℤ n (pos 0)
          then err (
              errorf (
                str "parameter \""
                ∷ str param
                ∷ str "\": "
                ∷ num n
                ∷ str " is not a positive number"
                ∷ []))
          else ok n
    ]

-- The end of a relative change: the ceiling, and what lies at or below the present count.
unfoldable pub capped : ℤ → ℤ → ℤ → Result ℤ
capped current ceiling want =
    let least = if lt_ℤ ceiling want then ceiling else want in
    if le_ℤ least current
    then err (
        errorf (
          str "the ceiling of "
          ∷ num ceiling
          ∷ str " is already reached at "
          ∷ num current
          ∷ str " replicas: raise \"max\" if there is more headroom to give"
          ∷ []))
    else ok least

unfoldable pub increased_by : ℤ → ℤ → ℤ → Result ℤ
unfolding int32 capped
increased_by current ceiling delta = capped current ceiling (int32 (current +ℤ delta))

times : ℤ → ℤ → ℤ
times (pos a) (pos b) = pos (a * b)
times (pos a) (negsuc b) = neg (pos (a * suc b))
times (negsuc a) (pos b) = neg (pos (suc a * b))
times (negsuc a) (negsuc b) = pos (suc a * suc b)

-- A share is rounded up; each operation wraps.
unfoldable pub increased_percent : ℤ → ℤ → ℤ → Result ℤ
unfolding int32 capped hundredth times
increased_percent current ceiling share =
    let scaled = int32 (int32 (times current share) +ℤ pos 99) in
    capped current ceiling (int32 (current +ℤ hundredth scaled))

given : String → ℕ
given v = if str_eq v "" then 0 else 1

-- A relative change, once its ceiling is read.
relative : ℤ → String → String → Result ℤ → Result ℤ
unfolding increased_by increased_percent
relative current by percent (err e) = err (wrapf (str "a relative change needs a ceiling" ∷ []) e)
relative current by percent (ok ceiling) =
    if str_eq by ""
    then elim (parse_positive_int32 percent increase_percent_param) [
      | err e ↦ err e
      | ok share ↦ increased_percent current ceiling share
    ]
    else elim (parse_positive_int32 by increase_by_param) [
      | err e ↦ err e
      | ok delta ↦ increased_by current ceiling delta
    ]

unfoldable pub target_count : Labels → ℤ → Result ℤ
unfolding given relative
target_count params current =
    let absolute = get_param params replicas_param "" in
    let by = get_param params increase_by_param "" in
    let percent = get_param params increase_percent_param "" in
    let set = given absolute + given by + given percent in
    if set == 0
    then err (
        errorf
          (str "the step must set one of \"replicas\", \"increaseBy\" or \"increasePercent\"" ∷ []))
    else if ltb 1 set
    then err (
        errorf (
          str
            "the step sets more than one of \"replicas\", \"increaseBy\" and \"increasePercent\"; they mean different things"
          ∷ []))
    else if str_eq absolute ""
    then relative current by percent
        (parse_positive_int32 (get_param params max_param "") max_param)
    else parse_positive_int32 absolute replicas_param
