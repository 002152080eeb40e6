-- ===== src/Authorization/Condition.antt =====
-- packages/authorization/domain/value-objects/condition.ts: the condition trees of policy rules. The
-- operands of a conjunction or disjunction are a list of their own; an empty one throws, which is none.
use verixa.Prelude.{
  ℕ, String, Bool, true, false, ◌&&◌, List, [], ◌∷◌, Option, none, some, ◌==◌, if◌then◌else◌,
}
use verixa.Authorization.Attributes.{Numeric, numeric_eq}

pub data ComparisonOperator : Type 0 where
  eq : ComparisonOperator
  neq : ComparisonOperator
  lt : ComparisonOperator
  lte : ComparisonOperator
  gt : ComparisonOperator
  gte : ComparisonOperator
  in_list : ComparisonOperator
  contains : ComparisonOperator

pub data Scalar : Type 0 where
  text_item : String → Scalar
  number_item : Numeric → Scalar

-- `string | number | boolean | readonly (string | number)[]`
pub data ComparisonLiteral : Type 0 where
  text_literal : String → ComparisonLiteral
  number_literal : Numeric → ComparisonLiteral
  boolean_literal : Bool → ComparisonLiteral
  list_literal : List Scalar → ComparisonLiteral

mutual
  pub data Condition : Type 0 where
    always : Condition
    comparison : String → ComparisonOperator → ComparisonLiteral → Condition
    conjunction : Conditions → Condition
    disjunction : Conditions → Condition
    negation : Condition → Condition

  pub data Conditions : Type 0 where
    no_operands : Conditions
    operand_and : Condition → Conditions → Conditions

-- `Condition.and` and `Condition.or`.
abbrev pub make_and : Conditions → Option Condition
make_and no_operands = none
make_and (operand_and c cs) = some (conjunction (operand_and c cs))

abbrev pub make_or : Conditions → Option Condition
make_or no_operands = none
make_or (operand_and c cs) = some (disjunction (operand_and c cs))

abbrev pub operator_code : ComparisonOperator → ℕ
operator_code eq = 0
operator_code neq = 1
operator_code lt = 2
operator_code lte = 3
operator_code gt = 4
operator_code gte = 5
operator_code in_list = 6
operator_code contains = 7

abbrev pub same_operator : ComparisonOperator → ComparisonOperator → Bool
same_operator a b = verixa.Prelude.eqb (operator_code a) (operator_code b)

abbrev pub same_bool : Bool → Bool → Bool
same_bool true b = b
same_bool false true = false
same_bool false false = true

-- `===` on the items of literals.
abbrev pub same_item : Scalar → Scalar → Bool
same_item (text_item a) (text_item b) = a == b
same_item (number_item a) (number_item b) = numeric_eq a b
same_item (text_item _) (number_item _) = false
same_item (number_item _) (text_item _) = false

unfoldable pub same_items : List Scalar → List Scalar → Bool
same_items [] [] = true
same_items [] (_ ∷ _) = false
same_items (_ ∷ _) [] = false
same_items (a ∷ xs) (b ∷ ys) = same_item a b && same_items xs ys

-- `===` on literals that are not lists, item by item on lists.
abbrev pub same_literal : ComparisonLiteral → ComparisonLiteral → Bool
same_literal (text_literal a) (text_literal b) = a == b
same_literal (number_literal a) (number_literal b) = numeric_eq a b
same_literal (boolean_literal a) (boolean_literal b) = same_bool a b
same_literal (list_literal a) (list_literal b) = same_items a b
same_literal _ _ = false

unfoldable mutual
  pub conditions_equal : Condition → Condition → Bool
  conditions_equal always always = true
  conditions_equal (comparison a op v) (comparison b op2 w) =
      (a == b) && same_operator op op2 && same_literal v w
  conditions_equal (conjunction xs) (conjunction ys) = all_equal xs ys
  conditions_equal (disjunction xs) (disjunction ys) = all_equal xs ys
  conditions_equal (negation x) (negation y) = conditions_equal x y
  conditions_equal _ _ = false

  pub all_equal : Conditions → Conditions → Bool
  all_equal no_operands no_operands = true
  all_equal no_operands (operand_and _ _) = false
  all_equal (operand_and _ _) no_operands = false
  all_equal (operand_and x xs) (operand_and y ys) = conditions_equal x y && all_equal xs ys
