-- ===== src/Bridge/Math/Operands.antt =====
-- The integer parser of src/bridge/math_expression.cpp reads numbers and names.
use mrs_uav_bluetooth.Bridge.Math.{
  is_blank, k_limit, whitespace, head_is, is_name_start, is_name_byte, name_of, behind_name,
  is_float_mark, literal, named_value, primary_by, parse, Parsed, parsed, exhausted, unary,
}
use mrs_uav_bluetooth.Prelude.{
  leb, ◌==◌, All, Text, is_digit, ℕ, zero, suc, ◌+◌, ◌-◌, ◌*◌, ◌≤◌, ◌<◌, ◌≡◌, refl, ◌≢◌, true,
  false, ◌||◌, Option, some, [], ◌∷◌, ◌++◌, arith,
}
use mrs_uav_bluetooth.Bridge.Math.Grammar.{IsFieldName}
use mrs_uav_bluetooth.Bridge.Math.Reads.{Reads, is_factor_end, EndsWith}
use mrs_uav_bluetooth.Prelude.Decimal.{decimal_from}
use mrs_uav_bluetooth.Prelude.Int.{ℤ, pos}

decimal_from-grows : (n : ℕ) (s : Text) → n ≤ decimal_from n s
decimal_from-grows n [] = omega arith
decimal_from-grows n (c ∷ cs) = omega (arith, decimal_from-grows (n * 10 + (c - b'0')) cs)

literal_end :
    (n : ℕ) (rest : Text) → EndsWith is_factor_end rest → literal n rest ≡ parsed (pos n) rest
literal_end n [] ends = refl
literal_end n (c ∷ cs) ends =
    let no_digit : is_digit c ≡ false = ground arith in
    let no_mark : is_float_mark c ≡ false = ground arith in rw (no_digit, no_mark) refl

literal-digits :
    (n : ℕ) (s rest : Text)
    → All (λ c. is_digit c ≡ true) s
    → decimal_from n s < k_limit
    → EndsWith is_factor_end rest
    → literal n (s ++ rest) ≡ parsed (pos (decimal_from n s)) rest
literal-digits n [] rest digits small ends = literal_end n rest ends
literal-digits n (c ∷ cs) rest digits small ends =
    let next = n * 10 + (c - b'0') in
    let grows = decimal_from-grows next cs in
    let fits : leb k_limit next ≡ false = ground arith in
    rw (digits.0, fits) (literal-digits next cs rest digits.1 small ends)

behind_name-append :
    (cs rest : Text)
    → All (λ d. is_name_byte d ≡ true) cs
    → EndsWith is_factor_end rest
    → behind_name (cs ++ rest) ≡ rest
behind_name-append [] [] bytes ends = refl
behind_name-append [] (c ∷ rest) bytes ends =
    let no_byte : is_name_byte c ≡ false = ground arith in rw no_byte refl
behind_name-append (c ∷ cs) rest bytes ends = rw bytes.0 (behind_name-append cs rest bytes.1 ends)

name_of-append :
    (cs rest : Text)
    → All (λ d. is_name_byte d ≡ true) cs
    → EndsWith is_factor_end rest
    → name_of (cs ++ rest) ≡ cs
name_of-append [] [] bytes ends = refl
name_of-append [] (c ∷ rest) bytes ends =
    let no_byte : is_name_byte c ≡ false = ground arith in rw no_byte refl
name_of-append (c ∷ cs) rest bytes ends = rw (bytes.0, name_of-append cs rest bytes.1 ends) refl

whitespace_end : (rest : Text) → EndsWith is_factor_end rest → whitespace rest ≡ rest
whitespace_end [] ends = refl
whitespace_end (c ∷ cs) ends = let solid : is_blank c ≡ false = ground arith in rw solid refl

no_call : (rest : Text) → EndsWith is_factor_end rest → head_is b'(' rest ≡ false
no_call [] ends = refl
no_call (c ∷ cs) ends = ground arith

module _ (resolver : Text → Option ℤ) where
  named_value-append :
      (c : ℕ) (cs rest : Text) (z : ℤ)
      → IsFieldName (c ∷ cs)
      → resolver (c ∷ cs) ≡ some z
      → EndsWith is_factor_end rest
      → named_value resolver c (cs ++ rest) ≡ parsed z rest
  named_value-append c cs rest z (start, (bytes, not_pi)) found ends =
      rw
        (
          behind_name-append cs rest bytes ends,
          name_of-append cs rest bytes ends,
          whitespace_end rest ends,
          no_call rest ends,
          not_pi,
          found,
        )
        refl

  -- An operand that begins with neither a sign nor a parenthesis is one of the primary ones.
  Reads-operand :
      (c : ℕ) (cs : Text) (result : Parsed)
      → (is_digit c || is_name_start c) ≡ true
      → primary_by (λ mode text. exhausted) resolver (c ∷ cs) ≡ result
      → Reads resolver unary (c ∷ cs) result
  unfolding parse
  Reads-operand c cs result begins value zero enough = ground arith
  Reads-operand c cs result begins value (suc zero) enough = ground arith
  Reads-operand c cs result begins value (suc (suc fuel)) enough =
      let solid : is_blank c ≡ false = ground arith in
      let not_plus : (c == b'+') ≡ false = ground arith in
      let not_minus : (c == b'-') ≡ false = ground arith in
      let not_group : (c == b'(') ≡ false = ground arith in
      rw (solid, not_plus, not_minus, solid, not_group) (rw not_group at value)

  pub Reads-digits :
      (s rest : Text)
      → s ≢ []
      → All (λ c. is_digit c ≡ true) s
      → decimal_from 0 s < k_limit
      → EndsWith is_factor_end rest
      → Reads resolver unary (s ++ rest) (parsed (pos (decimal_from 0 s)) rest)
  Reads-digits [] rest some_digit digits small ends = absurd (some_digit refl)
  Reads-digits (c ∷ cs) rest some_digit digits small ends =
      let not_group : (c == b'(') ≡ false = ground arith in
      let not_point : (c == b'.') ≡ false = ground arith in
      let read = literal-digits 0 (c ∷ cs) rest digits small ends in
      Reads-operand c (cs ++ rest) (parsed (pos (decimal_from 0 (c ∷ cs))) rest) (ground arith)
        (rw (not_group, not_point, digits.0) (rw digits.0 at read))

  pub Reads-name :
      (name rest : Text) (z : ℤ)
      → IsFieldName name
      → resolver name ≡ some z
      → EndsWith is_factor_end rest
      → Reads resolver unary (name ++ rest) (parsed z rest)
  Reads-name [] rest z named found ends = absurd named
  Reads-name (c ∷ cs) rest z named found ends =
      let not_group : (c == b'(') ≡ false = ground arith in
      let not_point : (c == b'.') ≡ false = ground arith in
      let not_digit : is_digit c ≡ false = ground arith in
      Reads-operand c (cs ++ rest) (parsed z rest) (ground arith) (
        rw (not_group, not_point, not_digit, named.0)
          (named_value-append c cs rest z named found ends))
