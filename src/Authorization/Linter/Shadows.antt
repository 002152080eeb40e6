-- ===== src/Authorization/Linter/Shadows.antt =====
-- What a shadow says of the evaluation of the rules in their order.
use verixa.Prelude.{
  ◌⊎◌, String, true, List, [], ◌∷◌, ◌++◌, Option, none, some, eq_iff, ◌≡◌, refl, sym, ap, ◌∙◌,
  arith, if◌then◌else◌, Bool-cases, inl, inr, map,
}
use verixa.Prelude.Number.{ℤ}
use verixa.Prelude.Search.{any, every}
use verixa.Authorization.Attributes.{AttributeContext}
use verixa.Authorization.Condition.{Condition, eq, neq}
use verixa.Authorization.Evaluation.{evaluate_condition, evaluate_comparison}
use verixa.Authorization.Combining.{
  Effect, permit, deny, Rule, RuleOutcome, permits, denies, not_applicable, outcome_of,
  evaluate_rule, rule_outcome, derive_rule_outcomes, first_applicable,
}
use verixa.Authorization.Linter.{
  Constraint, LintedRule, extract_constraints, same_constraint, implies,
}
use verixa.Authorization.Linter.Values.{same_value→≡, same_bool→≡}
use verixa.Authorization.Linter.Extraction.{satisfied, operator_of, extract_constraints-satisfied}

module _ (date_parse : String → Option ℤ) (ctx : AttributeContext) where
  same_constraint-satisfied :
      (k l : Constraint)
      → same_constraint k l ≡ true
      → satisfied date_parse ctx k ≡ true
      → satisfied date_parse ctx l ≡ true
  same_constraint-satisfied k l h s =
      let a = (eq_iff k.attribute l.attribute).0 (ground arith) in
      let p = same_bool→≡ k.positive l.positive (ground arith) in
      let v = same_value→≡ k.value l.value (ground arith) in
      sym (
        ap (λ x. evaluate_comparison date_parse x (operator_of k) k.value ctx) a
        ∙ ap (λ x. evaluate_comparison date_parse l.attribute (if x then eq else neq) k.value ctx) p
        ∙ ap (λ x. evaluate_comparison date_parse l.attribute (operator_of l) x ctx) v)
      ∙ s

  any-satisfied :
      (l : Constraint) (ks : List Constraint)
      → any (λ k. same_constraint k l) ks ≡ true
      → every (satisfied date_parse ctx) ks ≡ true
      → satisfied date_parse ctx l ≡ true
  unfolding any every
  any-satisfied l [] h s = absurd (ground arith)
  any-satisfied l (k ∷ ks) h s = ground (arith, any-satisfied l ks, same_constraint-satisfied k l)

  implies-satisfied :
      (broader narrower : List Constraint)
      → implies broader narrower ≡ true
      → every (satisfied date_parse ctx) narrower ≡ true
      → every (satisfied date_parse ctx) broader ≡ true
  unfolding implies every
  implies-satisfied [] narrower h s = refl
  implies-satisfied (k ∷ broader) narrower h s =
      ground (arith, implies-satisfied broader narrower, any-satisfied k narrower)

  implies-evaluate :
      (c d : Condition) (a b : List Constraint)
      → extract_constraints c ≡ some a
      → extract_constraints d ≡ some b
      → implies a b ≡ true
      → evaluate_condition date_parse d ctx ≡ true
      → evaluate_condition date_parse c ctx ≡ true
  implies-evaluate c d a b e f h s =
      sym (extract_constraints-satisfied date_parse ctx c a e)
      ∙ implies-satisfied a b h (extract_constraints-satisfied date_parse ctx d b f ∙ s)

first_applicable-skip :
    (xs ys : List RuleOutcome)
    → first_applicable (xs ++ not_applicable ∷ ys) ≡ first_applicable (xs ++ ys)
unfolding first_applicable
first_applicable-skip [] ys = refl
first_applicable-skip (permits ∷ xs) ys = refl
first_applicable-skip (denies ∷ xs) ys = refl
first_applicable-skip (not_applicable ∷ xs) ys = first_applicable-skip xs ys

first_applicable_congr :
    (xs ys zs : List RuleOutcome)
    → first_applicable ys ≡ first_applicable zs
    → first_applicable (xs ++ ys) ≡ first_applicable (xs ++ zs)
unfolding first_applicable
first_applicable_congr [] ys zs h = h
first_applicable_congr (permits ∷ xs) ys zs h = refl
first_applicable_congr (denies ∷ xs) ys zs h = refl
first_applicable_congr (not_applicable ∷ xs) ys zs h = first_applicable_congr xs ys zs h

first_applicable-decided :
    (e : Effect) (xs ys zs : List RuleOutcome)
    → first_applicable (xs ++ outcome_of e ∷ ys) ≡ first_applicable (xs ++ outcome_of e ∷ zs)
unfolding first_applicable
first_applicable-decided permit [] ys zs = refl
first_applicable-decided deny [] ys zs = refl
first_applicable-decided e (permits ∷ xs) ys zs = refl
first_applicable-decided e (denies ∷ xs) ys zs = refl
first_applicable-decided e (not_applicable ∷ xs) ys zs = first_applicable-decided e xs ys zs

abbrev pub as_rule : LintedRule → Rule
as_rule r = record { effect = r.effect; condition = r.condition; description = none }

abbrev pub decide : (String → Option ℤ) → AttributeContext → List LintedRule → RuleOutcome
decide date_parse ctx rules =
    first_applicable (derive_rule_outcomes date_parse (map as_rule rules) ctx)

abbrev outcome : (String → Option ℤ) → AttributeContext → LintedRule → RuleOutcome
outcome date_parse ctx r = rule_outcome date_parse ctx (as_rule r)

outcomes-append :
    (date_parse : String → Option ℤ) (ctx : AttributeContext) (xs ys : List LintedRule)
    → derive_rule_outcomes date_parse (map as_rule (xs ++ ys)) ctx
      ≡ map (outcome date_parse ctx) xs ++ derive_rule_outcomes date_parse (map as_rule ys) ctx
unfolding derive_rule_outcomes
outcomes-append date_parse ctx [] ys = refl
outcomes-append date_parse ctx (x ∷ xs) ys = rw (outcomes-append date_parse ctx xs ys)

outcome_cases :
    (date_parse : String → Option ℤ) (ctx : AttributeContext) (earlier later : LintedRule)
    → (evaluate_condition date_parse later.condition ctx ≡ true
        → evaluate_condition date_parse earlier.condition ctx ≡ true)
    → (outcome date_parse ctx earlier ≡ outcome_of earlier.effect)
      ⊎ (outcome date_parse ctx later ≡ not_applicable)
unfolding rule_outcome evaluate_rule
outcome_cases date_parse ctx earlier later h =
    elim (Bool-cases (evaluate_condition date_parse earlier.condition ctx)) [
      | inl holds ↦ inl (rw holds refl)
      | inr fails ↦ inr (ground (arith, fails))
    ]

outcomes_cons :
    (date_parse : String → Option ℤ) (ctx : AttributeContext) (x : LintedRule)
    (xs : List LintedRule)
    → derive_rule_outcomes date_parse (map as_rule (x ∷ xs)) ctx
      ≡ outcome date_parse ctx x ∷ derive_rule_outcomes date_parse (map as_rule xs) ctx
unfolding derive_rule_outcomes
outcomes_cons date_parse ctx x xs = refl

-- The later rule goes unseen, since the earlier one decides or it does not apply itself.
shadow_dropped :
    (date_parse : String → Option ℤ) (ctx : AttributeContext) (between after : List LintedRule)
    (earlier later : LintedRule)
    → (outcome date_parse ctx earlier ≡ outcome_of earlier.effect)
      ⊎ (outcome date_parse ctx later ≡ not_applicable)
    → decide date_parse ctx (earlier ∷ (between ++ later ∷ after))
      ≡ decide date_parse ctx (earlier ∷ (between ++ after))
shadow_dropped date_parse ctx between after earlier later (inl decided) =
    let rest = derive_rule_outcomes date_parse (map as_rule (between ++ later ∷ after)) ctx in
    let less = derive_rule_outcomes date_parse (map as_rule (between ++ after)) ctx in
    ap first_applicable (outcomes_cons date_parse ctx earlier (between ++ later ∷ after))
    ∙ ap (λ o. first_applicable (o ∷ rest)) decided
    ∙ first_applicable-decided earlier.effect [] rest less
    ∙ sym (ap (λ o. first_applicable (o ∷ less)) decided)
    ∙ sym (ap first_applicable (outcomes_cons date_parse ctx earlier (between ++ after)))
shadow_dropped date_parse ctx between after earlier later (inr skipped) =
    let middle = map (outcome date_parse ctx) between in
    let tail = derive_rule_outcomes date_parse (map as_rule after) ctx in
    ap first_applicable (
      outcomes_cons date_parse ctx earlier (between ++ later ∷ after)
      ∙ ap (λ xs. outcome date_parse ctx earlier ∷ xs)
          (outcomes-append date_parse ctx between (later ∷ after)
            ∙ ap (λ xs. middle ++ xs)
                (outcomes_cons date_parse ctx later after ∙ ap (λ o. o ∷ tail) skipped)))
    ∙ first_applicable_congr (outcome date_parse ctx earlier ∷ []) _ _
        (first_applicable-skip middle tail)
    ∙ sym (
        ap first_applicable (
          outcomes_cons date_parse ctx earlier (between ++ after)
          ∙ ap (λ xs. outcome date_parse ctx earlier ∷ xs)
              (outcomes-append date_parse ctx between after)))

-- When the constraints that the linter extracts from an earlier and a later rule of a policy set
-- make the earlier a shadow of the later, then for every request the first applicable rule
-- decides the same with the later rule left out.
pub shadow-unreachable :
    (date_parse : String → Option ℤ) (ctx : AttributeContext)
    (before between after : List LintedRule) (earlier later : LintedRule) (a b : List Constraint)
    → extract_constraints earlier.condition ≡ some a
    → extract_constraints later.condition ≡ some b
    → implies a b ≡ true
    → decide date_parse ctx (before ++ earlier ∷ (between ++ later ∷ after))
      ≡ decide date_parse ctx (before ++ earlier ∷ (between ++ after))
shadow-unreachable date_parse ctx before between after earlier later a b e f h =
    let whole = earlier ∷ (between ++ later ∷ after) in
    let less = earlier ∷ (between ++ after) in
    ap first_applicable (outcomes-append date_parse ctx before whole)
    ∙ first_applicable_congr (map (outcome date_parse ctx) before) _ _ (
        shadow_dropped date_parse ctx between after earlier later (
          outcome_cases date_parse ctx earlier later
            (implies-evaluate date_parse ctx earlier.condition later.condition a b e f h)))
    ∙ sym (ap first_applicable (outcomes-append date_parse ctx before less))
