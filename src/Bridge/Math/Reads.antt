-- ===== src/Bridge/Math/Reads.antt =====
-- The integer parser of src/bridge/math_expression.cpp reads printed trees: the methods, on any fuel
-- that is enough, one construct at a time.
use mrs_uav_bluetooth.Bridge.Math.{
  is_blank, exact_sum, exact_difference, exact_product, quotient_of, remainder_of, is_exact,
  checked_exact_value, negate_checked, divide_checked, parse, Parsed, Mode, parsed, expression,
  sums, product, products, unary,
}
use mrs_uav_bluetooth.Bridge.Math.Within.{rank}
use mrs_uav_bluetooth.Prelude.{
  ◌==◌, Bool-cases, length, Text, ℕ, zero, suc, ◌+◌, ◌*◌, ◌≤◌, ◌<◌, ◌≡◌, refl, inl, inr, Bool, true,
  false, ◌||◌, Option, some, [], ◌∷◌, arith,
}
use mrs_uav_bluetooth.Bridge.Math.Grammar.{
  sum_token, product_token, within_range, sum_value, division_value, product_value, opposite_value,
  SumOperator, ProductOperator, adding, subtracting, multiplying, dividing, taking_remainder,
}
use mrs_uav_bluetooth.Prelude.Int.{ℤ}

-- With enough fuel a method has a result.
abbrev pub Reads : (Text → Option ℤ) → Mode → Text → Parsed → Type 0
Reads resolver mode text result =
    (fuel : ℕ) → 8 * length text + rank mode < fuel → parse resolver fuel mode text ≡ result

-- What may stand behind an operand, a term and a whole sum.
abbrev pub is_factor_end : ℕ → Bool
is_factor_end c = c == b'+' || c == b'-' || c == b'*' || c == b'/' || c == b'%' || c == b')'

abbrev pub is_term_end : ℕ → Bool
is_term_end c = c == b'+' || c == b'-' || c == b')'

abbrev pub EndsWith : (ℕ → Bool) → Text → Type 0
EndsWith test [] = Unit {0}
EndsWith test (c ∷ cs) = test c ≡ true

pub term_end-factor_end : (rest : Text) → EndsWith is_term_end rest → EndsWith is_factor_end rest
term_end-factor_end [] ends = tt
term_end-factor_end (c ∷ cs) ends = ground arith

close-EndsWith : (rest : Text) → EndsWith (λ c. c == b')') rest → EndsWith is_term_end rest
close-EndsWith [] ends = tt
close-EndsWith (c ∷ cs) ends = ground arith

module _ (resolver : Text → Option ℤ) where
  pub Reads-product :
      (text rest : Text) (z : ℤ) (result : Parsed)
      → length rest ≤ length text
      → Reads resolver unary text (parsed z rest)
      → Reads resolver (products z) rest result
      → Reads resolver product text result
  unfolding parse
  Reads-product text rest z result short first loop zero enough = ground arith
  Reads-product text rest z result short first loop (suc fuel) enough =
      rw (first fuel (omega arith)) (loop fuel (omega arith))

  pub Reads-expression :
      (text rest : Text) (z : ℤ) (result : Parsed)
      → length rest ≤ length text
      → Reads resolver product text (parsed z rest)
      → Reads resolver (sums z) rest result
      → Reads resolver expression text result
  unfolding parse
  Reads-expression text rest z result short first loop zero enough = ground arith
  Reads-expression text rest z result short first loop (suc fuel) enough =
      rw (first fuel (omega arith)) (loop fuel (omega arith))

  -- A loop is over where no operator of its own follows.
  pub Reads-products_end :
      (z : ℤ) (rest : Text)
      → EndsWith is_term_end rest
      → Reads resolver (products z) rest (parsed z rest)
  unfolding parse
  Reads-products_end z rest ends zero enough = ground arith
  Reads-products_end z [] ends (suc fuel) enough = refl
  Reads-products_end z (c ∷ cs) ends (suc fuel) enough =
      let solid : is_blank c ≡ false = ground arith in
      let not_times : (c == b'*') ≡ false = ground arith in
      let not_over : (c == b'/') ≡ false = ground arith in
      let not_modulo : (c == b'%') ≡ false = ground arith in
      rw (solid, not_times, not_over, not_modulo) refl

  pub Reads-sums_end :
      (z : ℤ) (rest : Text)
      → EndsWith (λ c. c == b')') rest
      → Reads resolver (sums z) rest (parsed z rest)
  unfolding parse
  Reads-sums_end z rest ends zero enough = ground arith
  Reads-sums_end z [] ends (suc fuel) enough = refl
  Reads-sums_end z (c ∷ cs) ends (suc fuel) enough =
      let solid : is_blank c ≡ false = ground arith in
      let not_plus : (c == b'+') ≡ false = ground arith in
      let not_minus : (c == b'-') ≡ false = ground arith in rw (solid, not_plus, not_minus) refl

  checked_exact_value-some :
      (z w : ℤ) (rest : Text) → within_range z ≡ some w → checked_exact_value z rest ≡ parsed w rest
  checked_exact_value-some z w rest e = elim (Bool-cases (is_exact z)) [
    | inl exact ↦ let same = rw exact at e in ground arith
    | inr wide ↦ ground arith
  ]

  divide_checked-some :
      (operation : ℤ → ℤ → ℤ) (a b w : ℤ) (rest : Text)
      → division_value operation a b ≡ some w
      → divide_checked operation a b rest ≡ parsed w rest
  divide_checked-some operation a b w rest e = ground arith

  negate_checked-some :
      (z w : ℤ) (rest : Text) → opposite_value z ≡ some w → negate_checked z rest ≡ parsed w rest
  negate_checked-some z w rest e = ground arith

  -- A round of each loop.
  pub Reads-sums_round :
      (o : SumOperator) (a b z : ℤ) (text rest : Text) (result : Parsed)
      → sum_value o a b ≡ some z
      → length rest ≤ length text
      → Reads resolver product text (parsed b rest)
      → Reads resolver (sums z) rest result
      → Reads resolver (sums a) (sum_token o ∷ text) result
  unfolding parse
  Reads-sums_round o a b z text rest result value short operand loop zero enough = ground arith
  Reads-sums_round adding a b z text rest result value short operand loop (suc fuel) enough =
      rw (operand fuel (omega arith), checked_exact_value-some (exact_sum a b) z rest value)
        (loop fuel (omega arith))
  Reads-sums_round subtracting a b z text rest result value short operand loop (suc fuel) enough =
      rw (operand fuel (omega arith), checked_exact_value-some (exact_difference a b) z rest value)
        (loop fuel (omega arith))

  pub Reads-products_round :
      (o : ProductOperator) (a b z : ℤ) (text rest : Text) (result : Parsed)
      → product_value o a b ≡ some z
      → length rest ≤ length text
      → Reads resolver unary text (parsed b rest)
      → Reads resolver (products z) rest result
      → Reads resolver (products a) (product_token o ∷ text) result
  unfolding parse
  Reads-products_round o a b z text rest result value short operand loop zero enough = ground arith
  Reads-products_round multiplying a b z text rest result value short operand loop (suc fuel)
        enough =
      rw (operand fuel (omega arith), checked_exact_value-some (exact_product a b) z rest value)
        (loop fuel (omega arith))
  Reads-products_round dividing a b z text rest result value short operand loop (suc fuel) enough =
      rw (operand fuel (omega arith), divide_checked-some quotient_of a b z rest value)
        (loop fuel (omega arith))
  Reads-products_round taking_remainder a b z text rest result value short operand loop (suc fuel)
        enough =
      rw (operand fuel (omega arith), divide_checked-some remainder_of a b z rest value)
        (loop fuel (omega arith))

  pub Reads-opposite :
      (text rest : Text) (z w : ℤ)
      → opposite_value z ≡ some w
      → Reads resolver unary text (parsed z rest)
      → Reads resolver unary (b'-' ∷ text) (parsed w rest)
  unfolding parse
  Reads-opposite text rest z w value operand zero enough = ground arith
  Reads-opposite text rest z w value operand (suc fuel) enough =
      rw (operand fuel (omega arith)) (negate_checked-some z w rest value)

  pub Reads-group :
      (text rest : Text) (z : ℤ)
      → Reads resolver expression text (parsed z (b')' ∷ rest))
      → Reads resolver unary (b'(' ∷ text) (parsed z rest)
  unfolding parse
  Reads-group text rest z inner zero enough = ground arith
  Reads-group text rest z inner (suc zero) enough = ground arith
  Reads-group text rest z inner (suc (suc fuel)) enough = rw (inner fuel (omega arith)) refl
