-- ===== src/Authorization/Linter/Conflicts.antt =====
-- What the absence of a conflict says of two conditions.
use verixa.Prelude.{
  String, Bool, true, false, not, ◌&&◌, List, [], ◌∷◌, Option, none, some, eq_iff, ◌≡◌, refl, sym,
  ◌∙◌, arith, if◌then◌else◌,
}
use mathlib.Core.Path.{subst}
use verixa.Prelude.Number.{ℤ}
use verixa.Prelude.Search.{every}
use verixa.Authorization.Attributes.{
  numeric_eq, AttributeContext, resolve, AttributeValue, date, text, number, boolean, array, object,
}
use verixa.Authorization.Condition.{
  ComparisonLiteral, text_literal, number_literal, boolean_literal, Condition, same_bool, eq, neq,
}
use verixa.Authorization.Evaluation.{
  evaluate_condition, evaluate_comparison, compare_resolved, equals, compare_resolved,
}
use verixa.Authorization.Linter.{Constraint, extract_constraints, same_value, overlaps, compatible}
use verixa.Authorization.Linter.Values.{same_value→≡, same_bool→≡, numeric_eq→≡}
use verixa.Authorization.Linter.Extraction.{satisfied, operator_of, extract_constraints-satisfied}

-- The attribute is there and no date, or it is missing.
abbrev pub is_undated : Option AttributeValue → Bool
is_undated none = true
is_undated (some (date _)) = false
is_undated (some (text _)) = true
is_undated (some (number _)) = true
is_undated (some (boolean _)) = true
is_undated (some (array _)) = true
is_undated (some (object _)) = true

-- No attribute that the constraints name is a date.
abbrev pub all_undated : AttributeContext → List Constraint → Bool
all_undated ctx ks = every (λ k. is_undated (resolve k.attribute ctx)) ks

equals-same :
    (date_parse : String → Option ℤ) (actual : AttributeValue) (v w : ComparisonLiteral)
    → is_undated (some actual) ≡ true
    → equals date_parse actual v ≡ true
    → equals date_parse actual w ≡ true
    → same_value v w ≡ true
equals-same date_parse (date _) v w u h k = absurd (ground arith)
equals-same date_parse (text a) (text_literal b) (text_literal c) u h k =
    ground (arith, eq_iff a b, eq_iff a c, eq_iff b c)
equals-same date_parse (number a) (number_literal b) (number_literal c) u h k =
    subst (λ x. numeric_eq x c ≡ true) (numeric_eq→≡ a b h) k
equals-same date_parse (boolean a) (boolean_literal b) (boolean_literal c) u h k =
    subst (λ x. same_bool x c ≡ true) (same_bool→≡ a b h) k
equals-same date_parse _ _ _ u h k = absurd (ground arith)

-- The test of `compatible` on two constraints of one attribute.
abbrev signs_compatible : Bool → Bool → ComparisonLiteral → ComparisonLiteral → Bool
signs_compatible p q v w =
    if p && q
    then same_value v w
    else if not p && not q
    then true
    else not (same_value (if p then v else w) (if p then w else v))

clash :
    (date_parse : String → Option ℤ) (actual : AttributeValue) (p q : Bool)
    (v w : ComparisonLiteral)
    → is_undated (some actual) ≡ true
    → signs_compatible p q v w ≡ false
    → compare_resolved date_parse (if p then eq else neq) v (some actual) ≡ true
    → compare_resolved date_parse (if q then eq else neq) w (some actual) ≡ false
clash date_parse actual true true v w u t h = ground (arith, equals-same date_parse actual v w u h)
clash date_parse actual false false v w u t h = absurd (ground arith)
clash date_parse actual true false v w u t h =
    subst (λ x. not (equals date_parse actual x) ≡ false) (same_value→≡ v w (ground arith))
      (ground arith)
clash date_parse actual false true v w u t h =
    subst (λ x. equals date_parse actual x ≡ false) (sym (same_value→≡ w v (ground arith)))
      (ground arith)

module _ (date_parse : String → Option ℤ) (ctx : AttributeContext) where
  clash_resolved :
      (o : Option AttributeValue) (p q : Bool) (v w : ComparisonLiteral)
      → is_undated o ≡ true
      → signs_compatible p q v w ≡ false
      → compare_resolved date_parse (if p then eq else neq) v o ≡ true
      → compare_resolved date_parse (if q then eq else neq) w o ≡ false
  clash_resolved none p q v w u t h = refl
  clash_resolved (some actual) p q v w u t h = clash date_parse actual p q v w u t h

  compatible-satisfied :
      (k l : Constraint)
      → compatible k l ≡ false
      → is_undated (resolve k.attribute ctx) ≡ true
      → satisfied date_parse ctx k ≡ true
      → satisfied date_parse ctx l ≡ false
  unfolding evaluate_comparison
  compatible-satisfied k l c u s =
      let a = (eq_iff k.attribute l.attribute).0 (ground arith) in
      subst (λ x. compare_resolved date_parse (operator_of l) l.value (resolve x ctx) ≡ false) a
        (clash_resolved (resolve k.attribute ctx) k.positive l.positive k.value l.value u
          (ground arith) s)

  every-compatible :
      (k : Constraint) (ks : List Constraint)
      → every (λ l. compatible k l) ks ≡ false
      → is_undated (resolve k.attribute ctx) ≡ true
      → satisfied date_parse ctx k ≡ true
      → every (satisfied date_parse ctx) ks ≡ false
  unfolding every
  every-compatible k [] c u s = absurd (ground arith)
  every-compatible k (l ∷ ks) c u s =
      ground (arith, every-compatible k ks, compatible-satisfied k l)

  overlaps-satisfied :
      (a b : List Constraint)
      → overlaps a b ≡ false
      → all_undated ctx a ≡ true
      → every (satisfied date_parse ctx) a ≡ true
      → every (satisfied date_parse ctx) b ≡ false
  unfolding overlaps every
  overlaps-satisfied [] b o u s = absurd (ground arith)
  overlaps-satisfied (k ∷ a) b o u s = ground (arith, overlaps-satisfied a b, every-compatible k b)

  -- When the linter sees no overlap between the constraints of two conditions, no request
  -- satisfies both in which none of the attributes that the first one names is a date.
  pub overlaps-evaluate :
      (c d : Condition) (a b : List Constraint)
      → extract_constraints c ≡ some a
      → extract_constraints d ≡ some b
      → overlaps a b ≡ false
      → all_undated ctx a ≡ true
      → evaluate_condition date_parse c ctx ≡ true
      → evaluate_condition date_parse d ctx ≡ false
  overlaps-evaluate c d a b e f o u s =
      sym (extract_constraints-satisfied date_parse ctx d b f)
      ∙ overlaps-satisfied a b o u (extract_constraints-satisfied date_parse ctx c a e ∙ s)
