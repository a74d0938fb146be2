-- ===== src/Prelude/Texts.antt =====
-- A Python `str` that the program takes apart is the list of its code points. `lower` and `strip`
-- act on the ASCII letters and the ASCII white space.
use Prim.Native.Char.{code}
use Prim.Native.Nat.{ℕ, ◌+◌}
use Prim.Native.String.{String}
use mathlib.Core.Path.{◌≡◌}
use mathlib.Core.Logic.{◌↔◌}
use mathlib.Core.Bool.{Bool, true, false, ◌&&◌, ◌||◌}
use mathlib.Core.List.{List, [], ◌∷◌, map}
use native.Mathlib.Omega.{arith}
use ai_inference_platform.Prelude.Tests.{leb, ◌==◌, if◌then◌else◌}

abbrev pub Text : Type 0
Text = List ℕ

-- The code points of a literal.
abbrev pub text : String → Text
text String.[] = []
text (String.◌∷◌ c s) = code c ∷ text s

unfoldable pub text_eq : Text → Text → Bool
text_eq [] [] = true
text_eq [] (d ∷ t) = false
text_eq (c ∷ s) [] = false
text_eq (c ∷ s) (d ∷ t) = c == d && text_eq s t

pub text_eq_iff : (s t : Text) → (text_eq s t ≡ true) ↔ (s ≡ t)
unfolding text_eq
text_eq_iff [] [] = ground arith
text_eq_iff [] (d ∷ t) = ground arith
text_eq_iff (c ∷ s) [] = ground arith
text_eq_iff (c ∷ s) (d ∷ t) = ground (arith, text_eq_iff s t)

-- `t.startswith(p)`
unfoldable pub starts_with : Text → Text → Bool
starts_with t [] = true
starts_with [] (d ∷ p) = false
starts_with (c ∷ t) (d ∷ p) = c == d && starts_with t p

unfoldable pub lower : Text → Text
lower = map (λ c. if leb b'A' c && leb c b'Z' then c + 32 else c)

-- the white space among the ASCII characters: \t \n \v \f \r, the separators 28 to 31, and the blank
abbrev pub is_space : ℕ → Bool
is_space c = (leb 9 c && leb c 13) || (leb 28 c && leb c 32)

-- `t.strip(chars)`, for the characters that pass a test: first on the left, then on the right.
unfoldable pub lstrip : (ℕ → Bool) → Text → Text
lstrip p [] = []
lstrip p (c ∷ t) = let rest = lstrip p t in if p c then rest else c ∷ t

abbrev pub cons_unless : Bool → ℕ → Text → Text
cons_unless true c [] = []
cons_unless false c [] = c ∷ []
cons_unless b c (d ∷ t) = c ∷ d ∷ t

unfoldable pub rstrip : (ℕ → Bool) → Text → Text
rstrip p [] = []
rstrip p (c ∷ t) = cons_unless (p c) c (rstrip p t)

unfoldable pub strip_of : (ℕ → Bool) → Text → Text
unfolding lstrip rstrip
strip_of p t = rstrip p (lstrip p t)

unfoldable pub strip : Text → Text
unfolding strip_of
strip t = strip_of is_space t
