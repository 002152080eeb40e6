-- ===== src/Authorization/Combining.antt =====
-- packages/authorization/domain/services/combining-algorithms.ts: from the rules of a policy to one
-- outcome.
pub mod Order
use verixa.Prelude.{
  ℕ, String, Bool, true, false, List, [], ◌∷◌, Option, none, some, map, if◌then◌else◌,
}
use verixa.Prelude.Number.{ℤ}
use verixa.Prelude.Search.{any}
use verixa.Authorization.Attributes.{AttributeContext}
use verixa.Authorization.Condition.{Condition}
use verixa.Authorization.Evaluation.{evaluate_condition}

pub data Effect : Type 0 where
  permit : Effect
  deny : Effect

pub record Rule : Type 0 where
  pub effect : Effect
  pub condition : Condition
  pub description : Option String

pub data RuleOutcome : Type 0 where
  permits : RuleOutcome
  denies : RuleOutcome
  not_applicable : RuleOutcome

unfoldable pub evaluate_rule : (String → Option ℤ) → Rule → AttributeContext → Bool
evaluate_rule date_parse rule ctx = evaluate_condition date_parse rule.condition ctx

abbrev pub outcome_of : Effect → RuleOutcome
outcome_of permit = permits
outcome_of deny = denies

unfoldable pub rule_outcome : (String → Option ℤ) → AttributeContext → Rule → RuleOutcome
rule_outcome date_parse ctx rule =
    if evaluate_rule date_parse rule ctx then outcome_of rule.effect else not_applicable

unfoldable pub derive_rule_outcomes :
    (String → Option ℤ) → List Rule → AttributeContext → List RuleOutcome
derive_rule_outcomes date_parse rules ctx = map (rule_outcome date_parse ctx) rules

abbrev pub is_permits : RuleOutcome → Bool
is_permits permits = true
is_permits denies = false
is_permits not_applicable = false

abbrev pub is_denies : RuleOutcome → Bool
is_denies permits = false
is_denies denies = true
is_denies not_applicable = false

unfoldable pub deny_overrides : List RuleOutcome → RuleOutcome
deny_overrides outcomes =
    if any is_denies outcomes
    then denies
    else if any is_permits outcomes
    then permits
    else not_applicable

unfoldable pub permit_overrides : List RuleOutcome → RuleOutcome
permit_overrides outcomes =
    if any is_permits outcomes
    then permits
    else if any is_denies outcomes
    then denies
    else not_applicable

unfoldable pub first_applicable : List RuleOutcome → RuleOutcome
first_applicable [] = not_applicable
first_applicable (permits ∷ outcomes) = permits
first_applicable (denies ∷ outcomes) = denies
first_applicable (not_applicable ∷ outcomes) = first_applicable outcomes
