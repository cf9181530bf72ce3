-- ===== src/Base/Messages.antt =====
-- Messages. A formatted text is the list of its pieces, with the values that the source hands to
-- `fmt.Sprintf`; how the standard library renders a duration or a number is left out.
use Prim.Native.String.{String}
use mathlib.Core.Bool.{Bool, true, false, ◌&&◌}
use mathlib.Core.List.{List, [], ◌∷◌, ◌++◌}
use text.Mathlib.Text.{◌==◌ as str_eq}
use remedik.Base.Int.{ℤ, eq_ℤ}

pub data Piece : Type 0 where
  str : String → Piece
  num : ℤ → Piece
  duration : ℤ → Piece

abbrev pub Text : Type 0
Text = List Piece

-- The text of a constant, the empty one included.
abbrev pub words : String → Text
words s = elim (str_eq s "") [ true ↦ [] | false ↦ str s ∷ [] ]

piece_eq : Piece → Piece → Bool
piece_eq (str a) (str b) = str_eq a b
piece_eq (num a) (num b) = eq_ℤ a b
piece_eq (duration a) (duration b) = eq_ℤ a b
piece_eq _ _ = false

unfoldable pub text_eq : Text → Text → Bool
unfolding piece_eq
text_eq [] [] = true
text_eq (p ∷ ps) (q ∷ qs) = piece_eq p q && text_eq ps qs
text_eq _ _ = false

-- What `errors.Is` and `apierrors.IsNotFound` can tell of an error.
pub data ErrorKind : Type 0 where
  unknown_action not_found other_error : ErrorKind

-- A Go `error`: its text, and the sentinel that it wraps.
pub record Error : Type 0 where
  pub text_of : Text
  pub kind : ErrorKind

abbrev pub errorf : Text → Error
errorf t = record { text_of = t; kind = other_error }

-- `fmt.Errorf("prefix: %w", err)`.
abbrev pub wrapf : Text → Error → Error
wrapf prefix e = record { text_of = prefix ++ str ": " ∷ e.text_of; kind = e.kind }

pub data Result {ℓ} (A : Type ℓ) : Type ℓ where
  ok : A → Result A
  err : Error → Result A
