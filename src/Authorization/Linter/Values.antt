-- ===== src/Authorization/Linter/Values.antt =====
-- What `===` on the values of constraints says.
use verixa.Prelude.{Bool, true, false, eq_iff, ◌≡◌, refl, sym, ap, arith, eqb_iff}
use verixa.Prelude.Number.{ℤ, pos, negsuc}
use verixa.Authorization.Attributes.{
  Numeric, integer, negative_infinity, positive_infinity, numeric_eq, int_eq,
}
use verixa.Authorization.Condition.{
  ComparisonLiteral, text_literal, number_literal, boolean_literal, same_bool,
}
use verixa.Authorization.Linter.{same_value}

int_eq→≡ : (a b : ℤ) → int_eq a b ≡ true → a ≡ b
int_eq→≡ (pos a) (pos b) h = ap pos (ground (arith, eqb_iff a b))
int_eq→≡ (negsuc a) (negsuc b) h = ap negsuc (ground (arith, eqb_iff a b))
int_eq→≡ (pos a) (negsuc b) h = absurd (ground arith)
int_eq→≡ (negsuc a) (pos b) h = absurd (ground arith)

pub numeric_eq→≡ : (a b : Numeric) → numeric_eq a b ≡ true → a ≡ b
numeric_eq→≡ (integer a) (integer b) h = ap integer (int_eq→≡ a b h)
numeric_eq→≡ negative_infinity negative_infinity h = refl
numeric_eq→≡ positive_infinity positive_infinity h = refl
numeric_eq→≡ _ _ h = absurd (ground arith)

pub same_bool→≡ : (a b : Bool) → same_bool a b ≡ true → a ≡ b
same_bool→≡ true b h = sym h
same_bool→≡ false true h = absurd (ground arith)
same_bool→≡ false false h = refl

pub same_value→≡ : (a b : ComparisonLiteral) → same_value a b ≡ true → a ≡ b
same_value→≡ (text_literal a) (text_literal b) h = ap text_literal (ground (arith, eq_iff a b))
same_value→≡ (number_literal a) (number_literal b) h = ap number_literal (numeric_eq→≡ a b h)
same_value→≡ (boolean_literal a) (boolean_literal b) h = ap boolean_literal (same_bool→≡ a b h)
same_value→≡ _ _ h = absurd (ground arith)
