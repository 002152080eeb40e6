-- ===== src/Authorization/Combining/Order.antt =====
-- The combining algorithms against the rules that match, and the order of the rules.
use verixa.Prelude.{
  String, Bool, true, false, not, ◌&&◌, ◌||◌, List, [], ◌∷◌, Option, if◌then◌else◌, ◌≡◌, refl, sym,
  ap, ◌∙◌, arith,
}
use verixa.Prelude.Number.{ℤ}
use verixa.Prelude.Search.{any}
use verixa.Authorization.Attributes.{AttributeContext}
use verixa.Authorization.Combining.{
  Effect, permit, deny, Rule, permits, denies, not_applicable, evaluate_rule, rule_outcome,
  outcome_of, derive_rule_outcomes, is_permits, is_denies, deny_overrides,
}

abbrev pub is_permit : Effect → Bool
is_permit permit = true
is_permit deny = false

-- A rule of an effect whose condition holds.
abbrev pub matching_permit : (String → Option ℤ) → AttributeContext → Rule → Bool
matching_permit date_parse ctx r = is_permit r.effect && evaluate_rule date_parse r ctx

abbrev pub matching_deny : (String → Option ℤ) → AttributeContext → Rule → Bool
matching_deny date_parse ctx r = not (is_permit r.effect) && evaluate_rule date_parse r ctx

module _ (date_parse : String → Option ℤ) (ctx : AttributeContext) where
  outcome-denies :
      (e : Effect) (b : Bool)
      → is_denies (if b then outcome_of e else not_applicable) ≡ (not (is_permit e) && b)
  outcome-denies permit b = ground arith
  outcome-denies deny b = ground arith

  outcome-permits :
      (e : Effect) (b : Bool)
      → is_permits (if b then outcome_of e else not_applicable) ≡ (is_permit e && b)
  outcome-permits permit b = ground arith
  outcome-permits deny b = ground arith

  any-denies :
      (rules : List Rule)
      → any is_denies (derive_rule_outcomes date_parse rules ctx)
        ≡ any (matching_deny date_parse ctx) rules
  unfolding any derive_rule_outcomes rule_outcome
  any-denies [] = refl
  any-denies (r ∷ rules) =
      rw (outcome-denies r.effect (evaluate_rule date_parse r ctx)) (rw (any-denies rules) refl)

  any-permits :
      (rules : List Rule)
      → any is_permits (derive_rule_outcomes date_parse rules ctx)
        ≡ any (matching_permit date_parse ctx) rules
  unfolding any derive_rule_outcomes rule_outcome
  any-permits [] = refl
  any-permits (r ∷ rules) =
      rw (outcome-permits r.effect (evaluate_rule date_parse r ctx)) (rw (any-permits rules) refl)

-- One list is the other with its items moved.
pub data Reordered {A : Type 0} : List A → List A → Type 0 where
  empty : Reordered [] []
  keep : (x : A) {xs ys : List A} → Reordered xs ys → Reordered (x ∷ xs) (x ∷ ys)
  swap : (x y : A) (xs : List A) → Reordered (x ∷ y ∷ xs) (y ∷ x ∷ xs)
  chain : {xs ys zs : List A} → Reordered xs ys → Reordered ys zs → Reordered xs zs

or_swap : (a b c : Bool) → (a || (b || c)) ≡ (b || (a || c))
or_swap a b c = ground arith

-- A search does not see the order of a list.
any-Reordered : {A : Type 0} (f : A → Bool) (xs ys : List A) → Reordered xs ys → any f xs ≡ any f ys
unfolding any
any-Reordered f _ _ empty = refl
any-Reordered f _ _ (keep x {xs} {ys} d) = ap (λ b. f x || b) (any-Reordered f xs ys d)
any-Reordered f _ _ (swap x y xs) = or_swap (f x) (f y) (any f xs)
any-Reordered f xs zs (chain {ys = ys} d e) = any-Reordered f xs ys d ∙ any-Reordered f ys zs e

-- For the rules of a policy in any order, the deny-overrides algorithm denies if a rule that
-- denies matches, else permits if a rule that permits matches, and else does not apply.
pub deny_overrides-rules :
    (date_parse : String → Option ℤ) (ctx : AttributeContext) (rules moved : List Rule)
    → Reordered rules moved
    → deny_overrides (derive_rule_outcomes date_parse moved ctx) ≡ (
        if any (matching_deny date_parse ctx) rules
        then denies
        else if any (matching_permit date_parse ctx) rules
        then permits
        else not_applicable)
unfolding deny_overrides
deny_overrides-rules date_parse ctx rules moved p =
    let d =
      any-denies date_parse ctx moved
      ∙ sym (any-Reordered (matching_deny date_parse ctx) rules moved p) in
    let q =
      any-permits date_parse ctx moved
      ∙ sym (any-Reordered (matching_permit date_parse ctx) rules moved p) in
    rw d (rw q refl)
