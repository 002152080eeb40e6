-- ===== src/Authorization/Linter.antt =====
-- packages/authorization/application/services/policy-linter.ts: conflicts and shadowed rules of a
-- policy set. A message is left to its kind and the two rules. `===` on the values of constraints
-- compares lists as objects, and each literal list is an object of its own.
pub mod Extraction
pub mod Values
pub mod Shadows
pub mod Conflicts
mod Tests
use verixa.Prelude.{
  ℕ, ◌+◌, String, Bool, true, false, not, ◌&&◌, List, [], ◌∷◌, ◌++◌, Option, none, some, ◌==◌, map,
  if◌then◌else◌,
}
use verixa.Prelude.Search.{any, every}
use verixa.Authorization.Attributes.{numeric_eq}
use verixa.Authorization.Condition.{
  ComparisonOperator, eq, neq, lt, lte, gt, gte, in_list, contains, ComparisonLiteral, text_literal,
  number_literal, boolean_literal, list_literal, Condition, always, comparison, conjunction,
  disjunction, negation, Conditions, no_operands, operand_and, same_bool,
}
use verixa.Authorization.Combining.{Effect, permit, deny}

-- `equals` or `notEquals`.
pub record Constraint : Type 0 where
  pub attribute : String
  pub positive : Bool
  pub value : ComparisonLiteral

abbrev pub extract_leaf : String → ComparisonOperator → ComparisonLiteral → Option (List Constraint)
extract_leaf attribute eq value =
    some (record { attribute = attribute; positive = true; value = value } ∷ [])
extract_leaf attribute neq value =
    some (record { attribute = attribute; positive = false; value = value } ∷ [])
extract_leaf attribute _ value = none

abbrev pub both : Option (List Constraint) → Option (List Constraint) → Option (List Constraint)
both none _ = none
both (some a) none = none
both (some a) (some b) = some (a ++ b)

unfoldable mutual
  pub extract_constraints : Condition → Option (List Constraint)
  extract_constraints always = none
  extract_constraints (comparison attribute op value) = extract_leaf attribute op value
  extract_constraints (conjunction cs) = extract_all cs
  extract_constraints (disjunction cs) = none
  extract_constraints (negation c) = none

  pub extract_all : Conditions → Option (List Constraint)
  extract_all no_operands = some []
  extract_all (operand_and c cs) = both (extract_constraints c) (extract_all cs)

abbrev pub same_value : ComparisonLiteral → ComparisonLiteral → Bool
same_value (text_literal a) (text_literal b) = a == b
same_value (number_literal a) (number_literal b) = numeric_eq a b
same_value (boolean_literal a) (boolean_literal b) = same_bool a b
same_value _ _ = false

abbrev pub same_constraint : Constraint → Constraint → Bool
same_constraint other requirement =
    ((other.attribute == requirement.attribute) && same_bool other.positive requirement.positive)
    && same_value other.value requirement.value

unfoldable pub implies : List Constraint → List Constraint → Bool
implies broader narrower =
    every (λ requirement. any (λ other. same_constraint other requirement) narrower) broader

-- Whether one pair of constraints can hold together, as far as the linter looks.
abbrev pub compatible : Constraint → Constraint → Bool
compatible left right =
    if not (left.attribute == right.attribute)
    then true
    else if left.positive && right.positive
    then same_value left.value right.value
    else if not left.positive && not right.positive
    then true
    else not (
        same_value (if left.positive then left.value else right.value)
          (if left.positive then right.value else left.value))

unfoldable pub overlaps : List Constraint → List Constraint → Bool
overlaps a b = every (λ left. every (λ right. compatible left right) b) a

-- A rule of a policy set, `domain/entities/rule.ts`.
pub record LintedRule : Type 0 where
  pub id : String
  pub effect : Effect
  pub condition : Condition

pub data LinterFinding : Type 0 where
  conflict : String → String → LinterFinding
  shadow : String → String → LinterFinding

pub record LintResult : Type 0 where
  pub findings : List LinterFinding
  pub unanalyzed_pairs : ℕ

abbrev pub same_effect : Effect → Effect → Bool
same_effect permit permit = true
same_effect permit deny = false
same_effect deny permit = false
same_effect deny deny = true

abbrev pub add_if : Bool → LinterFinding → LintResult → LintResult
add_if found finding r = record r { findings = if found then finding ∷ r.findings else r.findings }

-- The findings for one pair of rules, before those of the pairs after it.
abbrev pub lint_pair :
    LintedRule
    → Option (List Constraint)
    → LintedRule
    → Option (List Constraint)
    → LintResult
    → LintResult
lint_pair earlier (some a) later (some b) rest =
    add_if (not (same_effect earlier.effect later.effect) && overlaps a b)
      (conflict earlier.id later.id) (add_if (implies a b) (shadow earlier.id later.id) rest)
lint_pair earlier none later _ rest = record rest { unanalyzed_pairs = rest.unanalyzed_pairs + 1 }
lint_pair earlier (some _) later none rest = record rest {
  unanalyzed_pairs = rest.unanalyzed_pairs + 1;
}

unfoldable pub lint_after : LintedRule → List LintedRule → LintResult → LintResult
lint_after earlier [] rest = rest
lint_after earlier (later ∷ rules) rest =
    lint_pair earlier (extract_constraints earlier.condition) later
      (extract_constraints later.condition) (lint_after earlier rules rest)

unfoldable pub lint_policy_set : List LintedRule → LintResult
lint_policy_set [] = record { findings = []; unanalyzed_pairs = 0 }
lint_policy_set (earlier ∷ rules) = lint_after earlier rules (lint_policy_set rules)
