-- ===== src/Bridge/Math/Trees.antt =====
-- Printed trees evaluate to their values (src/bridge/math_expression.cpp): precedence, association from
-- the left, signs and parentheses are read as they are meant.
use mrs_uav_bluetooth.Prelude.{
  Option-cases, length, Text, ◌+◌, ◌*◌, ◌≤◌, ◌<◌, ◌≡◌, refl, ap, ◌∙◌, inl, inr, true, Option, some,
  [], ◌∷◌, ◌++◌, arith,
}
use mrs_uav_bluetooth.Bridge.Math.{
  k_limit, evaluate, Parsed, parsed, expression, sums, product, products, unary,
}
use mrs_uav_bluetooth.Bridge.Math.Operands.{Reads-digits, Reads-name}
use mrs_uav_bluetooth.Bridge.Math.Grammar.{
  sum_token, product_token, print_tree, sum_value, product_value, tree_value, AllNames, SumOperator,
  ProductOperator, Tree, Place, adding, subtracting, multiplying, dividing, taking_remainder,
  whole_number, field_named, opposite, sum_of, product_of, in_sum, in_product, in_factor,
}
use mrs_uav_bluetooth.Bridge.Math.Reads.{
  Reads, is_factor_end, is_term_end, EndsWith, term_end-factor_end, Reads-product, Reads-expression,
  Reads-products_end, Reads-sums_end, Reads-sums_round, Reads-products_round, Reads-opposite,
  Reads-group,
}
use mrs_uav_bluetooth.Prelude.Decimal.{
  to_string, decimal_from-to_string, to_string-digits, to_string-ne-nil,
}
use mrs_uav_bluetooth.Prelude.Int.{ℤ, pos}
use mathlib.Core.Path.{subst}

length-append_right : (s rest : Text) → length rest ≤ length (s ++ rest)
length-append_right [] rest = omega arith
length-append_right (c ∷ cs) rest = omega (arith, length-append_right cs rest)

length-print_tree :
    (place : Place) (e : Tree) (rest : Text) → length rest ≤ length (print_tree place e rest)
length-print_tree place (whole_number n) rest = length-append_right (to_string n) rest
length-print_tree place (field_named name) rest = length-append_right name rest
length-print_tree place (opposite e) rest = omega (arith, length-print_tree in_factor e rest)
length-print_tree in_sum (sum_of o a b) rest = omega (
  arith,
  length-print_tree in_sum a (sum_token o ∷ print_tree in_product b rest),
  length-print_tree in_product b rest,
)
length-print_tree in_product (sum_of o a b) rest = omega (
  arith,
  length-print_tree in_sum a (sum_token o ∷ print_tree in_product b (b')' ∷ rest)),
  length-print_tree in_product b (b')' ∷ rest),
)
length-print_tree in_factor (sum_of o a b) rest = omega (
  arith,
  length-print_tree in_sum a (sum_token o ∷ print_tree in_product b (b')' ∷ rest)),
  length-print_tree in_product b (b')' ∷ rest),
)
length-print_tree in_sum (product_of o a b) rest = omega (
  arith,
  length-print_tree in_product a (product_token o ∷ print_tree in_factor b rest),
  length-print_tree in_factor b rest,
)
length-print_tree in_product (product_of o a b) rest = omega (
  arith,
  length-print_tree in_product a (product_token o ∷ print_tree in_factor b rest),
  length-print_tree in_factor b rest,
)
length-print_tree in_factor (product_of o a b) rest = omega (
  arith,
  length-print_tree in_product a (product_token o ∷ print_tree in_factor b (b')' ∷ rest)),
  length-print_tree in_factor b (b')' ∷ rest),
)

product_token-ends : (o : ProductOperator) → is_factor_end (product_token o) ≡ true
product_token-ends multiplying = refl
product_token-ends dividing = refl
product_token-ends taking_remainder = refl

sum_token-ends : (o : SumOperator) → is_term_end (sum_token o) ≡ true
sum_token-ends adding = refl
sum_token-ends subtracting = refl

module _ (resolver : Text → Option ℤ) where
  -- A factor is read; a term and a sum are read up to the loop that goes on behind them.
  abbrev ReadsFactor : Tree → ℤ → Type 0
  ReadsFactor e z =
      (rest : Text)
      → EndsWith is_factor_end rest
      → Reads resolver unary (print_tree in_factor e rest) (parsed z rest)

  abbrev ReadsTerm : Tree → ℤ → Type 0
  ReadsTerm e z =
      (rest : Text) (result : Parsed)
      → EndsWith is_factor_end rest
      → Reads resolver (products z) rest result
      → Reads resolver product (print_tree in_product e rest) result

  abbrev ReadsSum : Tree → ℤ → Type 0
  ReadsSum e z =
      (rest : Text) (result : Parsed)
      → EndsWith is_term_end rest
      → Reads resolver (sums z) rest result
      → Reads resolver expression (print_tree in_sum e rest) result

  abbrev ReadsTree : Tree → ℤ → Type 0
  ReadsTree e z = ReadsFactor e z × (ReadsTerm e z × ReadsSum e z)

  -- A text that is a factor is a term, and one that is a term is a sum.
  factor-term :
      (z : ℤ) (text rest : Text) (result : Parsed)
      → length rest ≤ length text
      → Reads resolver unary text (parsed z rest)
      → Reads resolver (products z) rest result
      → Reads resolver product text result
  factor-term z text rest result short factor loop =
      Reads-product resolver text rest z result short factor loop

  term-sum :
      (z : ℤ) (text rest : Text) (result : Parsed)
      → length rest ≤ length text
      → EndsWith is_term_end rest
      → (Reads resolver (products z) rest (parsed z rest)
          → Reads resolver product text (parsed z rest))
      → Reads resolver (sums z) rest result
      → Reads resolver expression text result
  term-sum z text rest result short ends term loop =
      Reads-expression resolver text rest z result short
        (term (Reads-products_end resolver z rest ends)) loop

  -- What is printed alike in every place.
  plain-ReadsTree :
      (e : Tree) (z : ℤ)
      → ((rest : Text) → print_tree in_product e rest ≡ print_tree in_factor e rest)
      → ((rest : Text) → print_tree in_sum e rest ≡ print_tree in_factor e rest)
      → ReadsFactor e z
      → ReadsTree e z
  plain-ReadsTree e z same same' factor = (
    factor,
    (
      λ rest result ends loop. rw (same rest) (
          factor-term z (print_tree in_factor e rest) rest result
            (length-print_tree in_factor e rest) (factor rest ends) loop),
      λ rest result ends loop. rw (same' rest) (
          term-sum z (print_tree in_factor e rest) rest result (length-print_tree in_factor e rest)
            ends
            (λ over.
              factor-term z (print_tree in_factor e rest) rest (parsed z rest)
                (length-print_tree in_factor e rest) (factor rest (term_end-factor_end rest ends))
                over)
            loop),
    ),
  )

  product_of-ReadsTree :
      (o : ProductOperator) (a b : Tree) (x y z : ℤ)
      → product_value o x y ≡ some z
      → ReadsTree a x
      → ReadsTree b y
      → ReadsTree (product_of o a b) z
  product_of-ReadsTree o a b x y z value (a_factor, (a_term, a_sum)) (b_factor, (b_term, b_sum)) =
      let term : ReadsTerm (product_of o a b) z = λ rest result ends loop.
        a_term (product_token o ∷ print_tree in_factor b rest) result (product_token-ends o) (
          Reads-products_round resolver o x y z (print_tree in_factor b rest) rest result value
            (length-print_tree in_factor b rest) (b_factor rest ends) loop) in
      let sum : ReadsSum (product_of o a b) z = λ rest result ends loop.
        term-sum z (print_tree in_sum (product_of o a b) rest) rest result
          (length-print_tree in_sum (product_of o a b) rest) ends
          (term rest (parsed z rest) (term_end-factor_end rest ends)) loop in
      (
        λ rest ends.
            Reads-group resolver (print_tree in_sum (product_of o a b) (b')' ∷ rest)) rest z (
              sum (b')' ∷ rest) (parsed z (b')' ∷ rest)) refl
                (Reads-sums_end resolver z (b')' ∷ rest) refl)),
        (term, sum),
      )

  sum_of-ReadsTree :
      (o : SumOperator) (a b : Tree) (x y z : ℤ)
      → sum_value o x y ≡ some z
      → ReadsTree a x
      → ReadsTree b y
      → ReadsTree (sum_of o a b) z
  sum_of-ReadsTree o a b x y z value (a_factor, (a_term, a_sum)) (b_factor, (b_term, b_sum)) =
      let sum : ReadsSum (sum_of o a b) z = λ rest result ends loop.
        a_sum (sum_token o ∷ print_tree in_product b rest) result (sum_token-ends o) (
          Reads-sums_round resolver o x y z (print_tree in_product b rest) rest result value
            (length-print_tree in_product b rest)
            (b_term rest (parsed y rest) (term_end-factor_end rest ends)
              (Reads-products_end resolver y rest ends))
            loop) in
      let factor : ReadsFactor (sum_of o a b) z = λ rest ends.
        Reads-group resolver (print_tree in_sum (sum_of o a b) (b')' ∷ rest)) rest z (
          sum (b')' ∷ rest) (parsed z (b')' ∷ rest)) refl
            (Reads-sums_end resolver z (b')' ∷ rest) refl)) in
      (
        factor,
        (
          λ rest result ends loop.
              factor-term z (print_tree in_factor (sum_of o a b) rest) rest result
                (length-print_tree in_factor (sum_of o a b) rest) (factor rest ends) loop,
          sum,
        ),
      )

  print_tree-ReadsTree :
      (e : Tree) (z : ℤ) → AllNames e → tree_value resolver e ≡ some z → ReadsTree e z
  print_tree-ReadsTree (whole_number n) z named value =
      let small : n < k_limit = ground arith in
      let same : pos n ≡ z = ground arith in
      plain-ReadsTree (whole_number n) z (λ rest. refl) (λ rest. refl)
        (λ rest ends.
          subst (λ w. Reads resolver unary (to_string n ++ rest) (parsed w rest))
            (ap pos (decimal_from-to_string n) ∙ same)
            (Reads-digits resolver (to_string n) rest (to_string-ne-nil n) (to_string-digits n)
              (rw (decimal_from-to_string n) small) ends))
  print_tree-ReadsTree (field_named name) z named value =
      plain-ReadsTree (field_named name) z (λ rest. refl) (λ rest. refl)
        (λ rest ends. Reads-name resolver name rest z named value ends)
  print_tree-ReadsTree (opposite e) z named value = elim (Option-cases (tree_value resolver e)) [
    | inl e' ↦ ground arith
    | inr (w, e') ↦
        plain-ReadsTree (opposite e) z (λ rest. refl) (λ rest. refl)
          (λ rest ends.
            Reads-opposite resolver (print_tree in_factor e rest) rest w z (rw e' at value)
              ((print_tree-ReadsTree e w named e').0 rest ends))
  ]
  print_tree-ReadsTree (sum_of o a b) z named value = elim (Option-cases (tree_value resolver a)) [
    | inl e ↦ ground arith
    | inr (x, e) ↦ elim (Option-cases (tree_value resolver b)) [
      | inl e' ↦ ground arith
      | inr (y, e') ↦
          sum_of-ReadsTree o a b x y z (rw (e, e') at value) (print_tree-ReadsTree a x named.0 e)
            (print_tree-ReadsTree b y named.1 e')
    ]
  ]
  print_tree-ReadsTree (product_of o a b) z named value =
      elim (Option-cases (tree_value resolver a)) [
        | inl e ↦ ground arith
        | inr (x, e) ↦ elim (Option-cases (tree_value resolver b)) [
          | inl e' ↦ ground arith
          | inr (y, e') ↦
              product_of-ReadsTree o a b x y z (rw (e, e') at value)
                (print_tree-ReadsTree a x named.0 e) (print_tree-ReadsTree b y named.1 e')
        ]
      ]

  -- The text of a tree, with parentheses only where precedence and association want them, evaluates
  -- to the tree's value, where it has one and its names are identifiers other than `pi`.
  pub evaluate-print_tree :
      (e : Tree) (z : ℤ)
      → AllNames e
      → tree_value resolver e ≡ some z
      → evaluate resolver (print_tree in_sum e []) ≡ parsed z []
  unfolding evaluate
  evaluate-print_tree e z named value =
      let reads =
        (print_tree-ReadsTree e z named value).1.1 [] (parsed z []) tt
          (Reads-sums_end resolver z [] tt) in
      rw (reads (8 * length (print_tree in_sum e []) + 8) (omega arith)) refl
