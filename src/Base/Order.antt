-- ===== src/Base/Order.antt =====
-- The order of Go strings: bytewise, which for UTF-8 is by code points.
use Prim.Native.String.{String}
use Prim.Native.Char.{code}
use text.Mathlib.TextEquality.{Char-path}
use mathlib.Core.Path.{◌≡◌, refl, ap₂}
use mathlib.Core.Bool.{Bool, true, false}
use mathlib.Core.List.{List, [], ◌∷◌}
use native.Mathlib.Omega.{arith}
use remedik.Base.Tests.{ltb, ◌==◌, if◌then◌else◌}
use remedik.Base.Lists.{all}

unfoldable pub lt_str : String → String → Bool
lt_str String.[] String.[] = false
lt_str String.[] (String.◌∷◌ d t) = true
lt_str (String.◌∷◌ c s) String.[] = false
lt_str (String.◌∷◌ c s) (String.◌∷◌ d t) =
    if ltb (code c) (code d) then true else if code c == code d then lt_str s t else false

pub lt_str-negatively_transitive :
    (a b c : String) → lt_str b a ≡ false → lt_str c b ≡ false → lt_str c a ≡ false
unfolding lt_str
lt_str-negatively_transitive String.[] String.[] String.[] p q = refl
lt_str-negatively_transitive String.[] String.[] (String.◌∷◌ z c) p q = refl
lt_str-negatively_transitive String.[] (String.◌∷◌ y b) String.[] p q = refl
lt_str-negatively_transitive String.[] (String.◌∷◌ y b) (String.◌∷◌ z c) p q = refl
lt_str-negatively_transitive (String.◌∷◌ x a) String.[] String.[] p q = cc
lt_str-negatively_transitive (String.◌∷◌ x a) String.[] (String.◌∷◌ z c) p q = cc
lt_str-negatively_transitive (String.◌∷◌ x a) (String.◌∷◌ y b) String.[] p q = cc
lt_str-negatively_transitive (String.◌∷◌ x a) (String.◌∷◌ y b) (String.◌∷◌ z c) p q =
    ground (arith, lt_str-negatively_transitive a b c)

pub lt_str-asymmetric : (a b : String) → lt_str a b ≡ true → lt_str b a ≡ false
unfolding lt_str
lt_str-asymmetric String.[] String.[] p = refl
lt_str-asymmetric String.[] (String.◌∷◌ y b) p = refl
lt_str-asymmetric (String.◌∷◌ x a) String.[] p = cc
lt_str-asymmetric (String.◌∷◌ x a) (String.◌∷◌ y b) p = ground (arith, lt_str-asymmetric a b)

pub lt_str-connected : (a b : String) → lt_str a b ≡ false → lt_str b a ≡ false → a ≡ b
unfolding lt_str
lt_str-connected String.[] String.[] p q = refl
lt_str-connected String.[] (String.◌∷◌ y b) p q = cc
lt_str-connected (String.◌∷◌ x a) String.[] p q = cc
lt_str-connected (String.◌∷◌ x a) (String.◌∷◌ y b) p q =
    ap₂ String.◌∷◌ (Char-path x y (ground arith))
      (lt_str-connected a b (ground arith) (ground arith))

-- `sort.Strings`.
insert_str : String → List String → List String
insert_str s [] = s ∷ []
insert_str s (t ∷ ts) = if lt_str s t then s ∷ t ∷ ts else t ∷ insert_str s ts

unfoldable pub sort_strings : List String → List String
unfolding insert_str
sort_strings [] = []
sort_strings (s ∷ ss) = insert_str s (sort_strings ss)

all-insert_str :
    (p : String → Bool) (s : String) (ts : List String) → all p (insert_str s ts) ≡ all p (s ∷ ts)
unfolding insert_str all
all-insert_str p s [] = refl
all-insert_str p s (t ∷ ts) = ground (arith, all-insert_str p s ts)

pub all-sort_strings : (p : String → Bool) (ss : List String) → all p (sort_strings ss) ≡ all p ss
unfolding sort_strings all
all-sort_strings p [] = refl
all-sort_strings p (s ∷ ss) =
    ground (arith, all-insert_str p s (sort_strings ss), all-sort_strings p ss)
