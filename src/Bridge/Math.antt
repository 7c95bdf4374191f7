-- ===== src/Bridge/Math.antt =====
-- The exact integer expressions of src/bridge/math_expression.cpp: `IntegerParser` over the text that
-- is left, each method one mode of a recursion on fuel. An ExactInteger has 128 bits and a sign.
pub mod Grammar
pub mod Reads
pub mod Operands
pub mod Trees
pub mod Within
pub mod Total
use mrs_uav_bluetooth.Prelude.{
  ltb, leb, ◌==◌, if◌then◌else◌, length, Text, codes, text_eq, is_digit, is_upper, is_lower,
  is_alnum, ℕ, zero, suc, ◌+◌, ◌-◌, ◌*◌, ◌/◌, ◌%◌, ◌^◌, Bool, true, false, not, ◌&&◌, ◌||◌, Option,
  none, some, [], ◌∷◌,
}
use mrs_uav_bluetooth.Prelude.Int.{ℤ, pos, negsuc}

abbrev pub signed : Bool → ℕ → ℤ
signed false n = pos n
signed true zero = pos 0
signed true (suc n) = negsuc n

abbrev pub is_negative : ℤ → Bool
is_negative (pos n) = false
is_negative (negsuc n) = true

abbrev pub magnitude : ℤ → ℕ
magnitude (pos n) = n
magnitude (negsuc n) = suc n

abbrev pub negated : ℤ → ℤ
negated z = signed (not (is_negative z)) (magnitude z)

abbrev pub differ : Bool → Bool → Bool
differ a b = (a && not b) || (b && not a)

-- The difference of two magnitudes, the sign given to a positive one.
abbrev signed_difference : Bool → ℕ → ℕ → ℤ
signed_difference sign m n = if leb n m then signed sign (m - n) else signed (not sign) (n - m)

abbrev pub exact_sum : ℤ → ℤ → ℤ
exact_sum a b =
    if differ (is_negative a) (is_negative b)
    then signed_difference (is_negative a) (magnitude a) (magnitude b)
    else signed (is_negative a) (magnitude a + magnitude b)

abbrev pub exact_difference : ℤ → ℤ → ℤ
exact_difference a b = exact_sum a (negated b)

abbrev pub exact_product : ℤ → ℤ → ℤ
exact_product a b = signed (differ (is_negative a) (is_negative b)) (magnitude a * magnitude b)

-- Division rounds to zero, and the remainder_of has the sign of the dividend.
abbrev pub quotient_of : ℤ → ℤ → ℤ
quotient_of a b = signed (differ (is_negative a) (is_negative b)) (magnitude a / magnitude b)

abbrev pub remainder_of : ℤ → ℤ → ℤ
remainder_of a b = signed (is_negative a) (magnitude a % magnitude b)

abbrev pub k_limit : ℕ
k_limit = 2 ^ 127

-- A value of ExactInteger.
abbrev pub is_exact : ℤ → Bool
is_exact (pos n) = ltb n k_limit
is_exact (negsuc n) = ltb n k_limit

abbrev pub is_nothing : ℤ → Bool
is_nothing z = magnitude z == 0

abbrev pub is_minimum : ℤ → Bool
is_minimum (pos n) = false
is_minimum (negsuc n) = suc n == k_limit

abbrev pub is_minus_one : ℤ → Bool
is_minus_one (pos n) = false
is_minus_one (negsuc n) = n == 0

-- What `fail` is given as its reason.
pub data Reason : Type 0 where
  trailing_text : Reason
  integer_overflow : Reason
  literal_overflow : Reason
  division_by_zero : Reason
  missing_parenthesis : Reason
  expected_operand : Reason
  expected_identifier : Reason

-- A value and the text behind it; an error and the text at its column; a FloatingExpression; or the
-- end of the fuel.
pub data Parsed : Type 0 where
  parsed : ℤ → Text → Parsed
  failed : Reason → Text → Parsed
  floating : Parsed
  exhausted : Parsed

abbrev pub parsed_then : Parsed → (ℤ → Text → Parsed) → Parsed
parsed_then (parsed z rest) next = next z rest
parsed_then (failed reason rest) next = failed reason rest
parsed_then floating next = floating
parsed_then exhausted next = exhausted

-- `std::isspace`: the space, and the bytes from the tab to the carriage return.
abbrev pub is_blank : ℕ → Bool
is_blank c = c == b' ' || (leb 9 c && leb c 13)

abbrev pub whitespace : Text → Text
whitespace [] = []
whitespace (c ∷ cs) = if is_blank c then whitespace cs else c ∷ cs

abbrev pub head_is : ℕ → Text → Bool
head_is token [] = false
head_is token (c ∷ cs) = c == token

abbrev pub checked_exact_value : ℤ → Text → Parsed
checked_exact_value z rest = if is_exact z then parsed z rest else failed integer_overflow rest

abbrev pub is_name_start : ℕ → Bool
is_name_start c = is_lower c || is_upper c || c == b'_'

abbrev pub is_name_byte : ℕ → Bool
is_name_byte c = is_alnum c || c == b'_' || c == b'.' || c == b'[' || c == b']'

abbrev pub name_of : Text → Text
name_of [] = []
name_of (c ∷ cs) = if is_name_byte c then c ∷ name_of cs else []

abbrev pub behind_name : Text → Text
behind_name [] = []
behind_name (c ∷ cs) = if is_name_byte c then behind_name cs else c ∷ cs

abbrev pub is_float_mark : ℕ → Bool
is_float_mark c = c == b'.' || c == b'e' || c == b'E'

-- The digits of a literal, with the value so far.
abbrev pub literal : ℕ → Text → Parsed
literal n [] = parsed (pos n) []
literal n (c ∷ cs) =
    let rest = literal (n * 10 + (c - b'0')) cs in
    if is_digit c
    then (if leb k_limit (n * 10 + (c - b'0')) then failed literal_overflow (c ∷ cs) else rest)
    else if is_float_mark c
    then floating
    else parsed (pos n) (c ∷ cs)

abbrev pub resolved_value : Option ℤ → Text → Parsed
resolved_value none rest = floating
resolved_value (some z) rest = parsed z rest

-- A name behind its first byte: a call and `pi` are for the other parser.
abbrev pub named_value : (Text → Option ℤ) → ℕ → Text → Parsed
named_value resolver c cs =
    if head_is b'(' (whitespace (behind_name cs))
    then floating
    else if text_eq (c ∷ name_of cs) (codes "pi")
    then floating
    else resolved_value (resolver (c ∷ name_of cs)) (whitespace (behind_name cs))

abbrev pub close_parenthesis : ℤ → Text → Parsed
close_parenthesis z [] = failed missing_parenthesis []
close_parenthesis z (c ∷ cs) =
    if c == b')' then parsed z cs else failed missing_parenthesis (c ∷ cs)

abbrev pub negate_checked : ℤ → Text → Parsed
negate_checked z rest =
    if is_minimum z then failed integer_overflow rest else parsed (negated z) rest

-- An operator of `product` on its two operands.
abbrev pub divide_checked : (ℤ → ℤ → ℤ) → ℤ → ℤ → Text → Parsed
divide_checked operation a b rest =
    if is_nothing b
    then failed division_by_zero rest
    else if is_minimum a && is_minus_one b
    then failed integer_overflow rest
    else parsed (operation a b) rest

pub data Mode : Type 0 where
  expression : Mode
  sums : ℤ → Mode
  product : Mode
  products : ℤ → Mode
  unary : Mode
  primary : Mode

-- The tail of a text behind its first byte.
abbrev pub behind : Text → Text
behind [] = []
behind (c ∷ cs) = cs

-- One method, given the methods it calls.
abbrev pub primary_by : (Mode → Text → Parsed) → (Text → Option ℤ) → Text → Parsed
primary_by parse resolver [] = failed expected_operand []
primary_by parse resolver (c ∷ cs) =
    if c == b'('
    then parsed_then (parse expression cs) (λ z rest. close_parenthesis z (whitespace rest))
    else if c == b'.'
    then floating
    else if is_digit c
    then literal 0 (c ∷ cs)
    else if is_name_start c
    then named_value resolver c cs
    else failed expected_identifier (c ∷ cs)

abbrev pub unary_by : (Mode → Text → Parsed) → Text → Parsed
unary_by parse text =
    if head_is b'+' text
    then parse unary (behind text)
    else if head_is b'-' text
    then parsed_then (parse unary (behind text)) negate_checked
    else parse primary text

abbrev pub sums_by : (Mode → Text → Parsed) → ℤ → Text → Parsed
sums_by parse a text =
    if head_is b'+' text
    then parsed_then (parse product (behind text)) (λ b rest.
      parsed_then (checked_exact_value (exact_sum a b) rest) (λ z rest. parse (sums z) rest))
    else if head_is b'-' text
    then parsed_then (parse product (behind text)) (λ b rest.
      parsed_then (checked_exact_value (exact_difference a b) rest) (λ z rest. parse (sums z) rest))
    else parsed a text

abbrev pub products_by : (Mode → Text → Parsed) → ℤ → Text → Parsed
products_by parse a text =
    if head_is b'*' text
    then parsed_then (parse unary (behind text)) (λ b rest.
      parsed_then (checked_exact_value (exact_product a b) rest)
        (λ z rest. parse (products z) rest))
    else if head_is b'/' text
    then parsed_then (parse unary (behind text)) (λ b rest.
      parsed_then (divide_checked quotient_of a b rest) (λ z rest. parse (products z) rest))
    else if head_is b'%' text
    then parsed_then (parse unary (behind text)) (λ b rest.
      parsed_then (divide_checked remainder_of a b rest) (λ z rest. parse (products z) rest))
    else parsed a text

unfoldable pub parse : (Text → Option ℤ) → ℕ → Mode → Text → Parsed
parse resolver zero mode text = exhausted
parse resolver (suc fuel) expression text =
    parsed_then (parse resolver fuel product text) (λ z rest. parse resolver fuel (sums z) rest)
parse resolver (suc fuel) (sums a) text = sums_by (parse resolver fuel) a (whitespace text)
parse resolver (suc fuel) product text =
    parsed_then (parse resolver fuel unary text) (λ z rest. parse resolver fuel (products z) rest)
parse resolver (suc fuel) (products a) text = products_by (parse resolver fuel) a (whitespace text)
parse resolver (suc fuel) unary text = unary_by (parse resolver fuel) (whitespace text)
parse resolver (suc fuel) primary text = primary_by (parse resolver fuel) resolver (whitespace text)

abbrev pub expect_end : ℤ → Text → Parsed
expect_end z [] = parsed z []
expect_end z (c ∷ cs) = failed trailing_text (c ∷ cs)

-- `evaluate`, and with it `try_evaluate_integer_expression`, whose `nullopt` is `floating`.
unfoldable pub evaluate : (Text → Option ℤ) → Text → Parsed
unfolding parse
evaluate resolver text =
    parsed_then (parse resolver (8 * length text + 8) expression text)
      (λ z rest. expect_end z (whitespace rest))
