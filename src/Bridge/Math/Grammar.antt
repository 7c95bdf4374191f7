-- ===== src/Bridge/Math/Grammar.antt =====
-- Expressions as trees, as the integer parser of src/bridge/math_expression.cpp reads them: a printer
-- that puts parentheses only where precedence and association want them, and the trees' values.
use mrs_uav_bluetooth.Prelude.{
  if◌then◌else◌, ◌>>=◌, All, Text, codes, text_eq, ℕ, ◌≡◌, true, false, ◌&&◌, ◌||◌, Option, none,
  some, [], ◌∷◌, ◌++◌,
}
use mrs_uav_bluetooth.Bridge.Math.{
  negated, exact_sum, exact_difference, exact_product, quotient_of, remainder_of, is_exact,
  is_nothing, is_minimum, is_minus_one, is_name_start, is_name_byte,
}
use mrs_uav_bluetooth.Prelude.Decimal.{to_string}
use mrs_uav_bluetooth.Prelude.Int.{ℤ, pos}

pub data SumOperator : Type 0 where
  adding : SumOperator
  subtracting : SumOperator

pub data ProductOperator : Type 0 where
  multiplying : ProductOperator
  dividing : ProductOperator
  taking_remainder : ProductOperator

pub data Tree : Type 0 where
  whole_number : ℕ → Tree
  field_named : Text → Tree
  opposite : Tree → Tree
  sum_of : SumOperator → Tree → Tree → Tree
  product_of : ProductOperator → Tree → Tree → Tree

-- Where a tree stands: as a term of a sum, a factor of a product, or an operand of a factor.
pub data Place : Type 0 where
  in_sum : Place
  in_product : Place
  in_factor : Place

abbrev pub sum_token : SumOperator → ℕ
sum_token adding = b'+'
sum_token subtracting = b'-'

abbrev pub product_token : ProductOperator → ℕ
product_token multiplying = b'*'
product_token dividing = b'/'
product_token taking_remainder = b'%'

-- The text of a tree in front of another text.
abbrev pub print_tree : Place → Tree → Text → Text
print_tree place (whole_number n) rest = to_string n ++ rest
print_tree place (field_named name) rest = name ++ rest
print_tree place (opposite e) rest = b'-' ∷ print_tree in_factor e rest
print_tree in_sum (sum_of o a b) rest =
    print_tree in_sum a (sum_token o ∷ print_tree in_product b rest)
print_tree in_product (sum_of o a b) rest =
    b'(' ∷ print_tree in_sum a (sum_token o ∷ print_tree in_product b (b')' ∷ rest))
print_tree in_factor (sum_of o a b) rest =
    b'(' ∷ print_tree in_sum a (sum_token o ∷ print_tree in_product b (b')' ∷ rest))
print_tree in_sum (product_of o a b) rest =
    print_tree in_product a (product_token o ∷ print_tree in_factor b rest)
print_tree in_product (product_of o a b) rest =
    print_tree in_product a (product_token o ∷ print_tree in_factor b rest)
print_tree in_factor (product_of o a b) rest =
    b'(' ∷ print_tree in_product a (product_token o ∷ print_tree in_factor b (b')' ∷ rest))

abbrev pub within_range : ℤ → Option ℤ
within_range z = if is_exact z then some z else none

abbrev pub sum_value : SumOperator → ℤ → ℤ → Option ℤ
sum_value adding a b = within_range (exact_sum a b)
sum_value subtracting a b = within_range (exact_difference a b)

abbrev pub division_value : (ℤ → ℤ → ℤ) → ℤ → ℤ → Option ℤ
division_value operation a b =
    if is_nothing b || (is_minimum a && is_minus_one b) then none else some (operation a b)

abbrev pub product_value : ProductOperator → ℤ → ℤ → Option ℤ
product_value multiplying a b = within_range (exact_product a b)
product_value dividing a b = division_value quotient_of a b
product_value taking_remainder a b = division_value remainder_of a b

abbrev pub opposite_value : ℤ → Option ℤ
opposite_value z = if is_minimum z then none else some (negated z)

-- The value of a tree, where every step of it is one of 128 bits and no divisor is zero.
abbrev pub tree_value : (Text → Option ℤ) → Tree → Option ℤ
tree_value resolver (whole_number n) = within_range (pos n)
tree_value resolver (field_named name) = resolver name
tree_value resolver (opposite e) = tree_value resolver e >>= opposite_value
tree_value resolver (sum_of o a b) =
    tree_value resolver a >>= (λ x. tree_value resolver b >>= (λ y. sum_value o x y))
tree_value resolver (product_of o a b) =
    tree_value resolver a >>= (λ x. tree_value resolver b >>= (λ y. product_value o x y))

-- A name that the parser takes as one of the resolver's.
abbrev pub IsFieldName : Text → Type 0
IsFieldName [] = ⊥
IsFieldName (c ∷ cs) =
    (is_name_start c ≡ true)
    × (All (λ d. is_name_byte d ≡ true) cs × (text_eq (c ∷ cs) (codes "pi") ≡ false))

abbrev pub AllNames : Tree → Type 0
AllNames (whole_number n) = Unit {0}
AllNames (field_named name) = IsFieldName name
AllNames (opposite e) = AllNames e
AllNames (sum_of o a b) = AllNames a × AllNames b
AllNames (product_of o a b) = AllNames a × AllNames b
