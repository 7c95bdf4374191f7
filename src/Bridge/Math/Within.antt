-- ===== src/Bridge/Math/Within.antt =====
-- The operations of the integer parser (src/bridge/math_expression.cpp) stay within 128 bits and within
-- the text.
use mrs_uav_bluetooth.Prelude.{
  codes, text_eq, ◌/◌, ◌%◌, ◌&&◌, Option, none, Bool, some, leb, ◌==◌, if_cases, length, Text,
  is_digit, ℕ, zero, suc, ◌+◌, ◌-◌, ◌*◌, ◌≤◌, ◌<◌, ◌≡◌, refl, true, false, [], ◌∷◌, arith,
}
use mrs_uav_bluetooth.Bridge.Math.{
  is_negative, differ, quotient_of, remainder_of, is_nothing, is_minus_one, name_of, resolved_value,
  named_value, divide_checked, signed, magnitude, parsed_then, negated, k_limit, is_exact,
  is_minimum, whitespace, head_is, checked_exact_value, behind_name, is_float_mark, literal,
  close_parenthesis, negate_checked, behind, Parsed, Mode, parsed, failed, floating, exhausted,
  expression, sums, product, products, unary, primary,
}
use native.Mathlib.Nat.{div-le_self, div-lt_self, mod-le}
use mrs_uav_bluetooth.Prelude.Int.{ℤ, pos, negsuc}

-- The methods call each other on the same text in this order.
abbrev pub rank : Mode → ℕ
rank expression = 5
rank (sums z) = 0
rank product = 4
rank (products z) = 0
rank unary = 3
rank primary = 2

-- The operand that a loop carries is exact.
abbrev pub Carries : Mode → Type 0
Carries (sums z) = is_exact z ≡ true
Carries (products z) = is_exact z ≡ true
Carries expression = Unit {0}
Carries product = Unit {0}
Carries unary = Unit {0}
Carries primary = Unit {0}

-- The fuel does not run out, and a value is exact, with no more text behind it than the bound.
abbrev pub IsWithin : ℕ → Parsed → Type 0
IsWithin bound (parsed z rest) = (is_exact z ≡ true) × (length rest ≤ bound)
IsWithin bound (failed reason rest) = Unit {0}
IsWithin bound floating = Unit {0}
IsWithin bound exhausted = ⊥

pub IsWithin-mono : (m n : ℕ) (p : Parsed) → m ≤ n → IsWithin m p → IsWithin n p
IsWithin-mono m n (parsed z rest) low (exact, short) = (exact, omega arith)
IsWithin-mono m n (failed reason rest) low h = tt
IsWithin-mono m n floating low h = tt
IsWithin-mono m n exhausted low h = h

pub parsed_then-IsWithin :
    (m n : ℕ) (p : Parsed) (next : ℤ → Text → Parsed)
    → IsWithin m p
    → ((z : ℤ) (rest : Text) → is_exact z ≡ true → length rest ≤ m → IsWithin n (next z rest))
    → IsWithin n (parsed_then p next)
parsed_then-IsWithin m n (parsed z rest) next (exact, short) go = go z rest exact short
parsed_then-IsWithin m n (failed reason rest) next h go = tt
parsed_then-IsWithin m n floating next h go = tt
parsed_then-IsWithin m n exhausted next h go = h

pub checked_exact_value-IsWithin :
    (z : ℤ) (rest : Text) → IsWithin (length rest) (checked_exact_value z rest)
checked_exact_value-IsWithin z rest =
    if_cases (λ (p : Parsed). IsWithin (length rest) p) (is_exact z) (λ exact. (exact, omega arith))
      (λ _. tt)

is_exact-negated : (z : ℤ) → is_minimum z ≡ false → is_exact z ≡ true → is_exact (negated z) ≡ true
is_exact-negated (pos zero) not_least exact = refl
is_exact-negated (pos (suc n)) not_least exact = ground arith
is_exact-negated (negsuc n) not_least exact = ground arith

pub negate_checked-IsWithin :
    (z : ℤ) (rest : Text) → is_exact z ≡ true → IsWithin (length rest) (negate_checked z rest)
negate_checked-IsWithin z rest exact =
    if_cases (λ (p : Parsed). IsWithin (length rest) p) (is_minimum z) (λ _. tt)
      (λ not_least. (is_exact-negated z not_least exact, omega arith))

pub length-whitespace : (text : Text) → length (whitespace text) ≤ length text
length-whitespace [] = omega arith
length-whitespace (c ∷ cs) = ground (arith, length-whitespace cs)

length-behind_name : (text : Text) → length (behind_name text) ≤ length text
length-behind_name [] = omega arith
length-behind_name (c ∷ cs) = ground (arith, length-behind_name cs)

pub head_is-behind :
    (token : ℕ) (text : Text) → head_is token text ≡ true → suc (length (behind text)) ≡ length text
head_is-behind token [] found = cc
head_is-behind token (c ∷ cs) found = refl

pub literal-IsWithin : (n : ℕ) (text : Text) → n < k_limit → IsWithin (length text) (literal n text)
literal-IsWithin n [] small = (ground arith, omega arith)
literal-IsWithin n (c ∷ cs) small =
    let next = n * 10 + (c - b'0') in
    if_cases (λ (p : Parsed). IsWithin (suc (length cs)) p) (is_digit c)
      (λ _.
        if_cases (λ (p : Parsed). IsWithin (suc (length cs)) p) (leb k_limit next) (λ _. tt)
          (λ fits.
            IsWithin-mono (length cs) (suc (length cs)) (literal next cs) (omega arith)
              (literal-IsWithin next cs (ground arith))))
      (λ _.
        if_cases (λ (p : Parsed). IsWithin (suc (length cs)) p) (is_float_mark c) (λ _. tt)
          (λ _. (ground arith, omega arith)))

pub close_parenthesis-IsWithin :
    (z : ℤ) (text : Text) → is_exact z ≡ true → IsWithin (length text) (close_parenthesis z text)
close_parenthesis-IsWithin z [] exact = tt
close_parenthesis-IsWithin z (c ∷ cs) exact =
    if_cases (λ (p : Parsed). IsWithin (suc (length cs)) p) (c == b')') (λ _. (exact, omega arith))
      (λ _. tt)

signed-exact :
    (sign : Bool) (n : ℕ)
    → n ≤ k_limit
    → (sign ≡ false → n < k_limit)
    → is_exact (signed sign n) ≡ true
signed-exact false n low below = let small = below refl in ground arith
signed-exact true zero low below = refl
signed-exact true (suc n) low below = ground arith

magnitude-exact : (z : ℤ) → is_exact z ≡ true → magnitude z ≤ k_limit
magnitude-exact (pos n) exact = ground arith
magnitude-exact (negsuc n) exact = ground arith

magnitude-positive : (z : ℤ) → is_exact z ≡ true → is_minimum z ≡ false → magnitude z < k_limit
magnitude-positive (pos n) exact not_least = ground arith
magnitude-positive (negsuc n) exact not_least = ground arith

pub quotient_of-exact :
    (a b : ℤ)
    → is_exact a ≡ true
    → (is_minimum a && is_minus_one b) ≡ false
    → is_exact (quotient_of a b) ≡ true
quotient_of-exact (pos n) b exact apart =
    let small = div-le_self n (magnitude b) in
    signed-exact (differ false (is_negative b)) (n / magnitude b) (ground (arith, small))
      (λ _. ground (arith, small))
quotient_of-exact (negsuc n) (pos k) exact apart =
    let small = div-le_self (suc n) k in
    signed-exact true (suc n / k) (ground (arith, small)) (λ h. ground arith)
quotient_of-exact (negsuc n) (negsuc zero) exact apart =
    let small = div-le_self (suc n) 1 in
    signed-exact false (suc n / 1) (ground (arith, small)) (λ _. ground (arith, small))
quotient_of-exact (negsuc n) (negsuc (suc k)) exact apart =
    let smaller : suc n / suc (suc k) < suc n = div-lt_self (omega arith) (omega arith) in
    signed-exact false (suc n / suc (suc k)) (ground (arith, smaller))
      (λ _. ground (arith, smaller))

pub remainder_of-exact : (a b : ℤ) → is_exact a ≡ true → is_exact (remainder_of a b) ≡ true
remainder_of-exact (pos n) b exact =
    let small = mod-le n (magnitude b) in
    signed-exact false (n % magnitude b) (ground (arith, small)) (λ _. ground (arith, small))
remainder_of-exact (negsuc n) b exact =
    let small = mod-le (suc n) (magnitude b) in
    signed-exact true (suc n % magnitude b) (ground (arith, small)) (λ h. ground arith)

pub divide_checked-IsWithin :
    (operation : ℤ → ℤ → ℤ) (a b : ℤ) (rest : Text)
    → ((is_minimum a && is_minus_one b) ≡ false → is_exact (operation a b) ≡ true)
    → IsWithin (length rest) (divide_checked operation a b rest)
divide_checked-IsWithin operation a b rest exact =
    if_cases (λ (p : Parsed). IsWithin (length rest) p) (is_nothing b) (λ _. tt)
      (λ _.
        if_cases (λ (p : Parsed). IsWithin (length rest) p) (is_minimum a && is_minus_one b)
          (λ _. tt) (λ apart. (exact apart, omega arith)))

-- What the resolver gives is a value of ExactInteger.
abbrev pub IsExactResolver : (Text → Option ℤ) → Type 0
IsExactResolver resolver = (name : Text) (z : ℤ) → resolver name ≡ some z → is_exact z ≡ true

resolved_value-IsWithin :
    (o : Option ℤ) (rest : Text)
    → ((z : ℤ) → o ≡ some z → is_exact z ≡ true)
    → IsWithin (length rest) (resolved_value o rest)
resolved_value-IsWithin none rest exact = tt
resolved_value-IsWithin (some z) rest exact = (exact z refl, omega arith)

pub named_value-IsWithin :
    (resolver : Text → Option ℤ) (c : ℕ) (cs : Text)
    → IsExactResolver resolver
    → IsWithin (suc (length cs)) (named_value resolver c cs)
named_value-IsWithin resolver c cs exact =
    let shorter = length-behind_name cs in
    let blanks = length-whitespace (behind_name cs) in
    if_cases (λ (p : Parsed). IsWithin (suc (length cs)) p)
      (head_is b'(' (whitespace (behind_name cs))) (λ _. tt)
      (λ _.
        if_cases (λ (p : Parsed). IsWithin (suc (length cs)) p)
          (text_eq (c ∷ name_of cs) (codes "pi")) (λ _. tt)
          (λ _.
            IsWithin-mono (length (whitespace (behind_name cs))) (suc (length cs))
              (resolved_value (resolver (c ∷ name_of cs)) (whitespace (behind_name cs)))
              (omega (arith, shorter, blanks))
              (resolved_value-IsWithin (resolver (c ∷ name_of cs)) (whitespace (behind_name cs))
                (exact (c ∷ name_of cs)))))
