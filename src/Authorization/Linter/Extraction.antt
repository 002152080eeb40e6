-- ===== src/Authorization/Linter/Extraction.antt =====
-- The constraints of a condition, against its evaluation.
use verixa.Prelude.{
  String, Bool, true, false, ◌&&◌, List, [], ◌∷◌, ◌++◌, Option, none, some, ◌≡◌, refl, sym, ap, ◌∙◌,
  arith, if◌then◌else◌,
}
use mathlib.Core.Path.{subst}
use verixa.Prelude.Number.{ℤ}
use verixa.Prelude.Search.{every, every-nil, every-append}
use verixa.Authorization.Attributes.{AttributeContext}
use verixa.Authorization.Condition.{
  ComparisonOperator, eq, neq, lt, lte, gt, gte, in_list, contains, ComparisonLiteral, Condition,
  always, comparison, conjunction, disjunction, negation, Conditions, no_operands, operand_and,
}
use verixa.Authorization.Evaluation.{evaluate_condition, every_holds, evaluate_comparison}
use verixa.Authorization.Linter.{Constraint, extract_leaf, extract_constraints, extract_all, both}

abbrev pub operator_of : Constraint → ComparisonOperator
operator_of k = if k.positive then eq else neq

-- What a constraint says of a context.
abbrev pub satisfied : (String → Option ℤ) → AttributeContext → Constraint → Bool
satisfied date_parse ctx k = evaluate_comparison date_parse k.attribute (operator_of k) k.value ctx

and_true : (b : Bool) → (b && true) ≡ b
and_true b = ground arith

some_injective : {A : Type 0} (a b : A) → some a ≡ some b → a ≡ b
some_injective a b e = ground arith

both-some :
    (x y : Option (List Constraint)) (ks : List Constraint)
    → both x y ≡ some ks
    → (a : List Constraint) × (b : List Constraint) × (x ≡ some a) × (y ≡ some b) × (a ++ b ≡ ks)
both-some none y ks e = absurd (ground arith)
both-some (some a) none ks e = absurd (ground arith)
both-some (some a) (some b) ks e = (a, b, refl, refl, some_injective (a ++ b) ks e)

ap_and : {a b c d : Bool} → a ≡ b → c ≡ d → (a && c) ≡ (b && d)
ap_and e f = rw e (rw f refl)

module _ (date_parse : String → Option ℤ) (ctx : AttributeContext) where
  extract_leaf-satisfied :
      (attribute : String) (op : ComparisonOperator) (value : ComparisonLiteral)
      (ks : List Constraint)
      → extract_leaf attribute op value ≡ some ks
      → every (satisfied date_parse ctx) ks ≡ evaluate_comparison date_parse attribute op value ctx
  unfolding every
  extract_leaf-satisfied attribute eq value ks e =
      subst
        (λ x.
          every (satisfied date_parse ctx) x
          ≡ evaluate_comparison date_parse attribute eq value ctx)
        (some_injective (record { attribute = attribute; positive = true; value = value } ∷ []) ks
          e)
        (and_true _)
  extract_leaf-satisfied attribute neq value ks e =
      subst
        (λ x.
          every (satisfied date_parse ctx) x
          ≡ evaluate_comparison date_parse attribute neq value ctx)
        (some_injective (record { attribute = attribute; positive = false; value = value } ∷ []) ks
          e)
        (and_true _)
  extract_leaf-satisfied attribute lt value ks e = absurd (ground arith)
  extract_leaf-satisfied attribute lte value ks e = absurd (ground arith)
  extract_leaf-satisfied attribute gt value ks e = absurd (ground arith)
  extract_leaf-satisfied attribute gte value ks e = absurd (ground arith)
  extract_leaf-satisfied attribute in_list value ks e = absurd (ground arith)
  extract_leaf-satisfied attribute contains value ks e = absurd (ground arith)

  -- The constraints of a condition hold together exactly where the condition does.
  mutual
    unfolding extract_constraints evaluate_condition

    pub extract_constraints-satisfied :
        (c : Condition) (ks : List Constraint)
        → extract_constraints c ≡ some ks
        → every (satisfied date_parse ctx) ks ≡ evaluate_condition date_parse c ctx
    extract_constraints-satisfied always ks e = absurd (ground arith)
    extract_constraints-satisfied (comparison attribute op value) ks e =
        extract_leaf-satisfied attribute op value ks e
    extract_constraints-satisfied (conjunction cs) ks e = extract_all-satisfied cs ks e
    extract_constraints-satisfied (disjunction cs) ks e = absurd (ground arith)
    extract_constraints-satisfied (negation c) ks e = absurd (ground arith)

    extract_all-satisfied :
        (cs : Conditions) (ks : List Constraint)
        → extract_all cs ≡ some ks
        → every (satisfied date_parse ctx) ks ≡ every_holds date_parse cs ctx
    extract_all-satisfied no_operands ks e =
        subst (λ x. every (satisfied date_parse ctx) x ≡ true) (some_injective [] ks e)
          (every-nil (satisfied date_parse ctx))
    extract_all-satisfied (operand_and c cs) ks e =
        let r = both-some (extract_constraints c) (extract_all cs) ks e in
        ap (every (satisfied date_parse ctx)) (sym r.4)
        ∙ every-append (satisfied date_parse ctx) r.0 r.1
        ∙ ap_and (extract_constraints-satisfied c r.0 r.2) (extract_all-satisfied cs r.1 r.3)
