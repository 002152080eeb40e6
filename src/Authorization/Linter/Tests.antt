-- ===== src/Authorization/Linter/Tests.antt =====
-- The linter, the engine and the combining algorithms on concrete rules.
use verixa.Prelude.{
  String, true, false, [], ◌∷◌, ◌++◌, Option, none, some, ◌≡◌, refl, if◌then◌else◌,
}
use verixa.Prelude.Dict.{get}
use verixa.Prelude.Number.{ℤ}
use verixa.Prelude.Search.{any, every}
use verixa.Authorization.Attributes.{AttributeContext, text, resolve, split_path}
use verixa.Authorization.Condition.{
  Condition, comparison, eq, text_literal, conjunction, no_operands, operand_and,
}
use verixa.Authorization.Evaluation.{evaluate_condition, evaluate_comparison}
use verixa.Authorization.Combining.{
  permit, deny, denies, permits, not_applicable, deny_overrides, derive_rule_outcomes,
}
use verixa.Authorization.Combining.Order.{
  swap, deny_overrides-rules, matching_deny, matching_permit,
}
use verixa.Authorization.Linter.{
  Constraint, LintedRule, conflict, shadow, extract_constraints, implies, overlaps, lint_policy_set,
  lint_after,
}
use verixa.Authorization.Linter.Shadows.{decide, as_rule, shadow-unreachable}
use verixa.Authorization.Linter.Conflicts.{overlaps-evaluate, all_undated}

abbrev no_date : String → Option ℤ
no_date s = none

abbrev is_admin : Condition
is_admin = comparison "subject.role" eq (text_literal "admin")

abbrev is_guest : Condition
is_guest = comparison "subject.role" eq (text_literal "guest")

abbrev admin_at_home : Condition
admin_at_home = conjunction (
    operand_and is_admin
      (operand_and (comparison "environment.place" eq (text_literal "home")) no_operands))

abbrev role_is : String → Constraint
role_is name = record { attribute = "subject.role"; positive = true; value = text_literal name }

abbrev at_home : Constraint
at_home = record { attribute = "environment.place"; positive = true; value = text_literal "home" }

abbrev broad : LintedRule
broad = record { id = "broad"; effect = permit; condition = is_admin }

abbrev narrow : LintedRule
narrow = record { id = "narrow"; effect = deny; condition = admin_at_home }

abbrev admin : AttributeContext
admin = record {
  subject = ("role", text "admin") ∷ [];
  resource = [];
  action = [];
  environment = ("place", text "home") ∷ [];
}

-- The narrow rule contradicts the broad one and is never reached.
linted : lint_policy_set (broad ∷ narrow ∷ []) ≡ record {
  findings = conflict "broad" "narrow" ∷ shadow "broad" "narrow" ∷ [];
  unanalyzed_pairs = 0;
}
unfolding lint_policy_set lint_after extract_constraints implies overlaps any every
linted = refl

broad_constraints : extract_constraints is_admin ≡ some (role_is "admin" ∷ [])
unfolding extract_constraints
broad_constraints = refl

guest_constraints : extract_constraints is_guest ≡ some (role_is "guest" ∷ [])
unfolding extract_constraints
guest_constraints = refl

narrow_constraints : extract_constraints admin_at_home ≡ some (role_is "admin" ∷ at_home ∷ [])
unfolding extract_constraints
narrow_constraints = refl

implied : implies (role_is "admin" ∷ []) (role_is "admin" ∷ at_home ∷ []) ≡ true
unfolding implies any every
implied = refl

disjoint : overlaps (role_is "admin" ∷ []) (role_is "guest" ∷ []) ≡ false
unfolding overlaps every
disjoint = refl

undated : all_undated admin (role_is "admin" ∷ []) ≡ true
unfolding every resolve split_path get
undated = refl

admin_holds : evaluate_condition no_date is_admin admin ≡ true
unfolding evaluate_condition evaluate_comparison resolve split_path get
admin_holds = refl

shadow-unreachable_example :
    decide no_date admin ([] ++ broad ∷ ([] ++ narrow ∷ []))
    ≡ decide no_date admin ([] ++ broad ∷ ([] ++ []))
shadow-unreachable_example =
    shadow-unreachable no_date admin [] [] [] broad narrow (role_is "admin" ∷ [])
      (role_is "admin" ∷ at_home ∷ []) broad_constraints narrow_constraints implied

overlaps-evaluate_example : evaluate_condition no_date is_guest admin ≡ false
overlaps-evaluate_example =
    overlaps-evaluate no_date admin is_admin is_guest (role_is "admin" ∷ []) (role_is "guest" ∷ [])
      broad_constraints guest_constraints disjoint undated admin_holds

deny_overrides-rules_example :
    deny_overrides (derive_rule_outcomes no_date (as_rule narrow ∷ as_rule broad ∷ []) admin) ≡ (
      if any (matching_deny no_date admin) (as_rule broad ∷ as_rule narrow ∷ [])
      then denies
      else if any (matching_permit no_date admin) (as_rule broad ∷ as_rule narrow ∷ [])
      then permits
      else not_applicable)
deny_overrides-rules_example =
    deny_overrides-rules no_date admin (as_rule broad ∷ as_rule narrow ∷ [])
      (as_rule narrow ∷ as_rule broad ∷ []) (swap (as_rule broad) (as_rule narrow) [])
