-- ===== src/Bridge/Math/Total.antt =====
-- The integer parser of src/bridge/math_expression.cpp ends, and computes within 128 bits.
use mrs_uav_bluetooth.Bridge.Math.Within.{
  rank, Carries, IsWithin, IsWithin-mono, parsed_then-IsWithin, checked_exact_value-IsWithin,
  negate_checked-IsWithin, length-whitespace, head_is-behind, literal-IsWithin,
  close_parenthesis-IsWithin, quotient_of-exact, remainder_of-exact, divide_checked-IsWithin,
  IsExactResolver, named_value-IsWithin,
}
use mrs_uav_bluetooth.Prelude.{
  Option, ◌==◌, if_cases, length, Text, is_digit, ℕ, zero, suc, ◌+◌, ◌*◌, ◌≤◌, ◌<◌, ◌≡◌, refl, true,
  [], ◌∷◌, arith,
}
use mrs_uav_bluetooth.Bridge.Math.{
  exact_sum, exact_difference, exact_product, quotient_of, remainder_of, is_name_start,
  divide_checked, primary_by, unary_by, sums_by, products_by, parse, expect_end, evaluate,
  parsed_then, is_exact, whitespace, head_is, checked_exact_value, close_parenthesis,
  negate_checked, behind, Parsed, Mode, expression, sums, product, products, unary, primary,
}
use mrs_uav_bluetooth.Prelude.Int.{ℤ}

-- What the methods do on texts within the fuel.
abbrev Methods : ℕ → (Mode → Text → Parsed) → Type 0
Methods fuel go =
    (mode : Mode) (text : Text)
    → Carries mode
    → 8 * length text + rank mode < fuel
    → IsWithin (length text) (go mode text)

module _ (fuel : ℕ) (go : Mode → Text → Parsed) (works : Methods fuel go) where
  primary_by-IsWithin :
      (resolver : Text → Option ℤ) (text : Text)
      → IsExactResolver resolver
      → 8 * length text < fuel
      → IsWithin (length text) (primary_by go resolver text)
  primary_by-IsWithin resolver [] exact enough = tt
  primary_by-IsWithin resolver (c ∷ cs) exact enough =
      if_cases (λ (p : Parsed). IsWithin (suc (length cs)) p) (c == b'(')
        (λ _.
          parsed_then-IsWithin (length cs) (suc (length cs)) (go expression cs)
            (λ z rest. close_parenthesis z (whitespace rest))
            (works expression cs tt (omega (arith, enough)))
            (λ z rest value short.
              IsWithin-mono (length (whitespace rest)) (suc (length cs))
                (close_parenthesis z (whitespace rest))
                (omega (arith, short, length-whitespace rest))
                (close_parenthesis-IsWithin z (whitespace rest) value)))
        (λ _.
          if_cases (λ (p : Parsed). IsWithin (suc (length cs)) p) (c == b'.') (λ _. tt)
            (λ _.
              if_cases (λ (p : Parsed). IsWithin (suc (length cs)) p) (is_digit c)
                (λ _. literal-IsWithin 0 (c ∷ cs) (omega arith))
                (λ _.
                  if_cases (λ (p : Parsed). IsWithin (suc (length cs)) p) (is_name_start c)
                    (λ _. named_value-IsWithin resolver c cs exact) (λ _. tt))))

  unary_by-IsWithin :
      (text : Text) → 8 * length text + 2 < fuel → IsWithin (length text) (unary_by go text)
  unary_by-IsWithin text enough =
      if_cases (λ (p : Parsed). IsWithin (length text) p) (head_is b'+' text)
        (λ found.
          let shorter = head_is-behind b'+' text found in
          IsWithin-mono (length (behind text)) (length text) (go unary (behind text)) (omega arith)
            (works unary (behind text) tt (omega arith)))
        (λ _.
          if_cases (λ (p : Parsed). IsWithin (length text) p) (head_is b'-' text)
            (λ found.
              let shorter = head_is-behind b'-' text found in
              parsed_then-IsWithin (length (behind text)) (length text) (go unary (behind text))
                negate_checked (works unary (behind text) tt (omega arith))
                (λ z rest exact short.
                  IsWithin-mono (length rest) (length text) (negate_checked z rest) (omega arith)
                    (negate_checked-IsWithin z rest exact)))
            (λ _. works primary text tt (omega arith)))

  -- A round of a loop: the operand behind the operator, the operation, and the loop again.
  round-IsWithin :
      (token : ℕ) (text : Text) (operand : Mode) (operation : ℤ → Text → Parsed) (again : ℤ → Mode)
      → Carries operand
      → rank operand ≤ 4
      → ((z : ℤ) → is_exact z ≡ true → Carries (again z))
      → ((z : ℤ) → rank (again z) ≡ 0)
      → ((b : ℤ) (rest : Text) → IsWithin (length rest) (operation b rest))
      → 8 * length text ≤ fuel
      → head_is token text ≡ true
      → IsWithin (length text) (
          parsed_then
            (go operand (behind text))
            (λ b rest. parsed_then (operation b rest) (λ z rest. go (again z) rest)))
  round-IsWithin token text operand operation again carries low exact_again none_again operates
        enough found =
      let shorter = head_is-behind token text found in
      parsed_then-IsWithin (length (behind text)) (length text) (go operand (behind text))
        (λ b rest. parsed_then (operation b rest) (λ z rest. go (again z) rest))
        (works operand (behind text) carries (omega arith))
        (λ b rest exact short.
          parsed_then-IsWithin (length rest) (length text) (operation b rest)
            (λ z rest. go (again z) rest) (operates b rest)
            (λ z rest' exact' short'.
              IsWithin-mono (length rest') (length text) (go (again z) rest') (omega arith)
                (works (again z) rest' (exact_again z exact') (omega (arith, none_again z)))))

  sums_by-IsWithin :
      (a : ℤ) (text : Text)
      → is_exact a ≡ true
      → 8 * length text ≤ fuel
      → IsWithin (length text) (sums_by go a text)
  sums_by-IsWithin a text exact enough =
      if_cases (λ (p : Parsed). IsWithin (length text) p) (head_is b'+' text)
        (round-IsWithin b'+' text product (λ b rest. checked_exact_value (exact_sum a b) rest) sums
          tt (omega arith) (λ z e. e) (λ z. refl)
          (λ b rest. checked_exact_value-IsWithin (exact_sum a b) rest) enough)
        (λ _.
          if_cases (λ (p : Parsed). IsWithin (length text) p) (head_is b'-' text)
            (round-IsWithin b'-' text product
              (λ b rest. checked_exact_value (exact_difference a b) rest) sums tt (omega arith)
              (λ z e. e) (λ z. refl)
              (λ b rest. checked_exact_value-IsWithin (exact_difference a b) rest) enough)
            (λ _. (exact, omega arith)))

  products_by-IsWithin :
      (a : ℤ) (text : Text)
      → is_exact a ≡ true
      → 8 * length text ≤ fuel
      → IsWithin (length text) (products_by go a text)
  products_by-IsWithin a text exact enough =
      if_cases (λ (p : Parsed). IsWithin (length text) p) (head_is b'*' text)
        (round-IsWithin b'*' text unary (λ b rest. checked_exact_value (exact_product a b) rest)
          products tt (omega arith) (λ z e. e) (λ z. refl)
          (λ b rest. checked_exact_value-IsWithin (exact_product a b) rest) enough)
        (λ _.
          if_cases (λ (p : Parsed). IsWithin (length text) p) (head_is b'/' text)
            (round-IsWithin b'/' text unary (λ b rest. divide_checked quotient_of a b rest) products
              tt (omega arith) (λ z e. e) (λ z. refl)
              (λ b rest. divide_checked-IsWithin quotient_of a b rest (quotient_of-exact a b exact))
              enough)
            (λ _.
              if_cases (λ (p : Parsed). IsWithin (length text) p) (head_is b'%' text)
                (round-IsWithin b'%' text unary (λ b rest. divide_checked remainder_of a b rest)
                  products tt (omega arith) (λ z e. e) (λ z. refl)
                  (λ b rest.
                    divide_checked-IsWithin remainder_of a b rest
                      (λ _. remainder_of-exact a b exact))
                  enough)
                (λ _. (exact, omega arith))))

parse-IsWithin :
    (resolver : Text → Option ℤ) (fuel : ℕ)
    → IsExactResolver resolver
    → Methods fuel (parse resolver fuel)
unfolding parse
parse-IsWithin resolver zero exact mode text carries enough = omega arith
parse-IsWithin resolver (suc fuel) exact expression text carries enough =
    let works = parse-IsWithin resolver fuel exact in
    parsed_then-IsWithin (length text) (length text) (parse resolver fuel product text)
      (λ z rest. parse resolver fuel (sums z) rest) (works product text tt (omega arith))
      (λ z rest value short.
        IsWithin-mono (length rest) (length text) (parse resolver fuel (sums z) rest) short
          (works (sums z) rest value (omega arith)))
parse-IsWithin resolver (suc fuel) exact product text carries enough =
    let works = parse-IsWithin resolver fuel exact in
    parsed_then-IsWithin (length text) (length text) (parse resolver fuel unary text)
      (λ z rest. parse resolver fuel (products z) rest) (works unary text tt (omega arith))
      (λ z rest value short.
        IsWithin-mono (length rest) (length text) (parse resolver fuel (products z) rest) short
          (works (products z) rest value (omega arith)))
parse-IsWithin resolver (suc fuel) exact (sums a) text carries enough =
    let blanks = length-whitespace text in
    IsWithin-mono (length (whitespace text)) (length text)
      (sums_by (parse resolver fuel) a (whitespace text)) blanks
      (sums_by-IsWithin fuel (parse resolver fuel) (parse-IsWithin resolver fuel exact) a
        (whitespace text) carries (omega arith))
parse-IsWithin resolver (suc fuel) exact (products a) text carries enough =
    let blanks = length-whitespace text in
    IsWithin-mono (length (whitespace text)) (length text)
      (products_by (parse resolver fuel) a (whitespace text)) blanks
      (products_by-IsWithin fuel (parse resolver fuel) (parse-IsWithin resolver fuel exact) a
        (whitespace text) carries (omega arith))
parse-IsWithin resolver (suc fuel) exact unary text carries enough =
    let blanks = length-whitespace text in
    IsWithin-mono (length (whitespace text)) (length text)
      (unary_by (parse resolver fuel) (whitespace text)) blanks
      (unary_by-IsWithin fuel (parse resolver fuel) (parse-IsWithin resolver fuel exact)
        (whitespace text) (omega arith))
parse-IsWithin resolver (suc fuel) exact primary text carries enough =
    let blanks = length-whitespace text in
    IsWithin-mono (length (whitespace text)) (length text)
      (primary_by (parse resolver fuel) resolver (whitespace text)) blanks
      (primary_by-IsWithin fuel (parse resolver fuel) (parse-IsWithin resolver fuel exact) resolver
        (whitespace text) exact (omega arith))

expect_end-IsWithin : (z : ℤ) (rest : Text) → is_exact z ≡ true → IsWithin 0 (expect_end z rest)
expect_end-IsWithin z [] value = (value, omega arith)
expect_end-IsWithin z (c ∷ cs) value = tt

-- Every text is evaluated with the fuel that `evaluate` takes: it ends with a value, an error or the
-- request for the floating parser, and a value is one of 128 bits behind the whole text, if the
-- resolver's values are of 128 bits.
pub evaluate-IsWithin :
    (resolver : Text → Option ℤ) (text : Text)
    → IsExactResolver resolver
    → IsWithin 0 (evaluate resolver text)
unfolding evaluate
evaluate-IsWithin resolver text exact =
    parsed_then-IsWithin (length text) 0 (parse resolver (8 * length text + 8) expression text)
      (λ z rest. expect_end z (whitespace rest))
      (parse-IsWithin resolver (8 * length text + 8) exact expression text tt (omega arith))
      (λ z rest value short. expect_end-IsWithin z (whitespace rest) value)
