-- ===== src/Authorization/Evaluation.antt =====
-- packages/authorization/domain/services/policy-evaluation-engine.ts: whether a condition holds of the
-- attributes of a request. `Date.parse` is an argument; none is NaN.
use verixa.Prelude.{
  String, Bool, true, false, not, ◌&&◌, ◌||◌, List, [], ◌∷◌, Option, none, some, ◌==◌,
}
use verixa.Prelude.Number.{ℤ}
use verixa.Authorization.Attributes.{
  Numeric, nan, integer, numeric_eq, numeric_same, numeric_lt, numeric_le, int_eq, AttributeValue,
  text, number, boolean, date, array, object, AttributeValues, no_values, value_and,
  AttributeContext, resolve,
}
use verixa.Authorization.Condition.{
  ComparisonOperator, eq, neq, lt, lte, gt, gte, in_list, contains, Scalar, text_item, number_item,
  ComparisonLiteral, text_literal, number_literal, boolean_literal, list_literal, Condition, always,
  comparison, conjunction, disjunction, negation, Conditions, no_operands, operand_and, same_bool,
}

abbrev pub same_time : Option ℤ → Option ℤ → Bool
same_time (some a) (some b) = int_eq a b
same_time (some a) none = false
same_time none _ = false

-- The operator `eq`.
abbrev pub equals : (String → Option ℤ) → AttributeValue → ComparisonLiteral → Bool
equals date_parse (date d) (text_literal s) = same_time d (date_parse s)
equals date_parse (text a) (text_literal b) = a == b
equals date_parse (number a) (number_literal b) = numeric_eq a b
equals date_parse (boolean a) (boolean_literal b) = same_bool a b
equals date_parse _ _ = false

-- `orderableValueOf`, where `isOrderable`.
abbrev pub orderable_value : AttributeValue → Option Numeric
orderable_value (number n) = some n
orderable_value (date (some t)) = some (integer t)
orderable_value (date none) = some nan
orderable_value (text _) = none
orderable_value (boolean _) = none
orderable_value (array _) = none
orderable_value (object _) = none

abbrev pub ordered : (Numeric → Numeric → Bool) → Option Numeric → ComparisonLiteral → Bool
ordered test (some a) (number_literal b) = test a b
ordered test (some a) (text_literal _) = false
ordered test (some a) (boolean_literal _) = false
ordered test (some a) (list_literal _) = false
ordered test none _ = false

abbrev pub is_item : AttributeValue → Scalar → Bool
is_item (text a) (text_item b) = a == b
is_item (number a) (number_item b) = numeric_same a b
is_item _ _ = false

unfoldable pub includes : AttributeValue → List Scalar → Bool
includes actual [] = false
includes actual (x ∷ xs) = is_item actual x || includes actual xs

abbrev pub in_literal : AttributeValue → ComparisonLiteral → Bool
in_literal actual (list_literal xs) = includes actual xs
in_literal actual (text_literal _) = false
in_literal actual (number_literal _) = false
in_literal actual (boolean_literal _) = false

abbrev pub is_literal : ComparisonLiteral → AttributeValue → Bool
is_literal (text_literal a) (text b) = b == a
is_literal (number_literal a) (number b) = numeric_same b a
is_literal (boolean_literal a) (boolean b) = same_bool b a
is_literal _ _ = false

unfoldable pub has_literal : AttributeValues → ComparisonLiteral → Bool
has_literal no_values literal = false
has_literal (value_and v vs) literal = is_literal literal v || has_literal vs literal

abbrev pub array_contains : AttributeValue → ComparisonLiteral → Bool
array_contains (array vs) literal = has_literal vs literal
array_contains _ literal = false

-- The operators, on an attribute that is there.
abbrev pub compare :
    (String → Option ℤ) → ComparisonOperator → ComparisonLiteral → AttributeValue → Bool
compare date_parse eq literal actual = equals date_parse actual literal
compare date_parse neq literal actual = not (equals date_parse actual literal)
compare date_parse lt literal actual = ordered numeric_lt (orderable_value actual) literal
compare date_parse lte literal actual = ordered numeric_le (orderable_value actual) literal
compare date_parse gt literal actual =
    ordered (λ a b. numeric_lt b a) (orderable_value actual) literal
compare date_parse gte literal actual =
    ordered (λ a b. numeric_le b a) (orderable_value actual) literal
compare date_parse in_list literal actual = in_literal actual literal
compare date_parse contains literal actual = array_contains actual literal

abbrev pub compare_resolved :
    (String → Option ℤ) → ComparisonOperator → ComparisonLiteral → Option AttributeValue → Bool
compare_resolved date_parse op literal none = false
compare_resolved date_parse op literal (some actual) = compare date_parse op literal actual

unfoldable pub evaluate_comparison :
    (String → Option ℤ) → String → ComparisonOperator → ComparisonLiteral → AttributeContext → Bool
evaluate_comparison date_parse attribute op literal ctx =
    compare_resolved date_parse op literal (resolve attribute ctx)

unfoldable mutual
  pub evaluate_condition : (String → Option ℤ) → Condition → AttributeContext → Bool
  evaluate_condition date_parse always ctx = true
  evaluate_condition date_parse (comparison attribute op literal) ctx =
      evaluate_comparison date_parse attribute op literal ctx
  evaluate_condition date_parse (conjunction cs) ctx = every_holds date_parse cs ctx
  evaluate_condition date_parse (disjunction cs) ctx = some_holds date_parse cs ctx
  evaluate_condition date_parse (negation c) ctx = not (evaluate_condition date_parse c ctx)

  pub every_holds : (String → Option ℤ) → Conditions → AttributeContext → Bool
  every_holds date_parse no_operands ctx = true
  every_holds date_parse (operand_and c cs) ctx =
      evaluate_condition date_parse c ctx && every_holds date_parse cs ctx

  pub some_holds : (String → Option ℤ) → Conditions → AttributeContext → Bool
  some_holds date_parse no_operands ctx = false
  some_holds date_parse (operand_and c cs) ctx =
      evaluate_condition date_parse c ctx || some_holds date_parse cs ctx
