-- ===== src/Prelude/Bytes.antt =====
-- Bytes and texts. A text is the list of its bytes, each below 256, as the sources walk them.
use Prim.Native.Nat.{ℕ, ◌<◌}
use Prim.Native.Char.{code}
use Prim.Native.String.{String}
use mathlib.Core.Path.{◌≡◌, refl}
use mathlib.Core.Bool.{Bool, true, false, ◌&&◌, ◌||◌}
use mathlib.Core.List.{List, [], ◌∷◌}
use native.Mathlib.Omega.{arith}
use mrs_uav_bluetooth.Prelude.Tests.{◌==◌, leb}

abbrev pub Text : Type 0
Text = List ℕ

abbrev pub IsByte : ℕ → Type 0
IsByte b = b < 256

-- The bytes of a literal in ASCII.
abbrev pub codes : String → Text
codes String.[] = []
codes (String.◌∷◌ c s) = code c ∷ codes s

abbrev pub text_eq : Text → Text → Bool
text_eq [] [] = true
text_eq [] (b ∷ t) = false
text_eq (a ∷ s) [] = false
text_eq (a ∷ s) (b ∷ t) = a == b && text_eq s t

pub text_eq→eq : (s t : Text) → text_eq s t ≡ true → s ≡ t
text_eq→eq [] [] h = refl
text_eq→eq [] (b ∷ t) h = ground arith
text_eq→eq (a ∷ s) [] h = ground arith
text_eq→eq (a ∷ s) (b ∷ t) h = ground (arith, text_eq→eq s t)

pub text_eq_refl : (s : Text) → text_eq s s ≡ true
text_eq_refl [] = refl
text_eq_refl (a ∷ s) = ground (arith, text_eq_refl s)

-- Classes of the C locale, over unsigned bytes.
abbrev pub is_digit : ℕ → Bool
is_digit c = leb b'0' c && leb c b'9'

abbrev pub is_upper : ℕ → Bool
is_upper c = leb b'A' c && leb c b'Z'

abbrev pub is_lower : ℕ → Bool
is_lower c = leb b'a' c && leb c b'z'

abbrev pub is_alnum : ℕ → Bool
is_alnum c = is_digit c || is_upper c || is_lower c
