-- ===== src/Authorization/Service/FailClosed.antt =====
-- When the service permits.
use verixa.Prelude.{
  String, Bool, true, false, not, ◌&&◌, ◌||◌, List, Option, none, some, if◌then◌else◌, ◌≡◌, ◌⊎◌,
  inl, inr, refl, sym, ap, ◌∙◌, arith, Option-cases,
}
use verixa.Prelude.Blank.{is_blank}
use verixa.Authorization.Combining.{
  Effect, permit, deny, RuleOutcome, permits, denies, not_applicable,
}
use verixa.Authorization.Service.{
  AuthorizationPrecedence, PrecedenceOverrides, AuthorizationRequest, PolicyEvaluation,
  RoleDecisionKind, grant, deny_role, no_match, authorize, after_validation, after_roles, combine,
  malformed_request_reason, resolve_precedence, assert_safe, is_deny, for_roles, for_policies,
}

abbrev pub is_permitted : Effect → Bool
is_permitted permit = true
is_permitted deny = false

-- The four texts that a request must have.
abbrev pub is_complete : AuthorizationRequest → Bool
is_complete r =
    not (
      is_blank r.subject_id
      || is_blank r.tenant_id
      || is_blank r.action
      || is_blank r.resource_type)

-- The answers of the two ports under which access may be given.
abbrev pub grants_access : Option RoleDecisionKind → Option PolicyEvaluation → Bool
grants_access none _ = false
grants_access (some deny_role) _ = false
grants_access (some grant) none = false
grants_access (some no_match) none = false
grants_access (some grant) (some e) = elim e.effect [
  | denies ↦ false
  | permits ↦ true
  | not_applicable ↦ true
]
grants_access (some no_match) (some e) = elim e.effect [
  | permits ↦ true
  | denies ↦ false
  | not_applicable ↦ false
]

if_some :
    {A : Type 0} (b : Bool) (o : Option A) (a : A)
    → (if b then none else o) ≡ some a
    → (b ≡ false) × (o ≡ some a)
if_some true o a h = absurd (ground arith)
if_some false o a h = (refl, h)

some_injective : {A : Type 0} (a b : A) → some a ≡ some b → a ≡ b
some_injective a b e = ground arith

is_deny_true : (e : Effect) → not (is_deny e) ≡ false → e ≡ deny
is_deny_true permit h = absurd (ground arith)
is_deny_true deny h = refl

safe_default :
    (p q : AuthorizationPrecedence)
    → assert_safe p ≡ some q
    → q.default_effect_when_no_policy_matches ≡ deny
unfolding assert_safe
safe_default p q h =
    let a = if_some (not p.abac_deny_overrides_rbac_permit) _ q h in
    let b = if_some p.abac_permit_overrides_rbac_deny _ q a.1 in
    let c = if_some (not (is_deny p.default_effect_when_no_policy_matches)) _ q b.1 in
    ap (λ x. x.default_effect_when_no_policy_matches) (sym (some_injective p q c.1))
    ∙ is_deny_true p.default_effect_when_no_policy_matches c.0

combine-grant :
    (p : AuthorizationPrecedence) (o : RuleOutcome) (ids : List String)
    → is_permitted (combine p true o ids).effect
      ≡ elim o [ denies ↦ false | permits ↦ true | not_applicable ↦ true ]
combine-grant p permits ids = refl
combine-grant p denies ids = refl
combine-grant p not_applicable ids = refl

combine-no_match :
    (p : AuthorizationPrecedence) (o : RuleOutcome) (ids : List String)
    → p.default_effect_when_no_policy_matches ≡ deny
    → is_permitted (combine p false o ids).effect
      ≡ elim o [ permits ↦ true | denies ↦ false | not_applicable ↦ false ]
combine-no_match p permits ids h = refl
combine-no_match p denies ids h = refl
combine-no_match p not_applicable ids h = ap is_permitted h

after_roles-access :
    (p : AuthorizationPrecedence) (r : AuthorizationRequest) (role : Option RoleDecisionKind)
    (policy : Option PolicyEvaluation)
    → p.default_effect_when_no_policy_matches ≡ deny
    → is_permitted (after_roles p (λ _. policy) r role).effect ≡ grants_access role policy
after_roles-access p r none policy h = refl
after_roles-access p r (some deny_role) policy h = refl
after_roles-access p r (some grant) none h = refl
after_roles-access p r (some grant) (some e) h = combine-grant p e.effect e.matched_policy_ids
after_roles-access p r (some no_match) none h = refl
after_roles-access p r (some no_match) (some e) h =
    combine-no_match p e.effect e.matched_policy_ids h

complete_cases :
    (r : AuthorizationRequest)
    → ((is_complete r ≡ true) × (malformed_request_reason r ≡ none))
      ⊎ ((is_complete r ≡ false)
          × ((p : AuthorizationPrecedence) (check : AuthorizationRequest → Option RoleDecisionKind)
                (evaluate : AuthorizationRequest → Option PolicyEvaluation)
              → is_permitted
                  (after_validation p check evaluate r (malformed_request_reason r)).effect
                ≡ false))
complete_cases r = elim (Option-cases (malformed_request_reason r)) [
  | inl fine ↦ inl (ground (arith, fine), fine)
  | inr bad ↦ inr (
    ground (arith, bad.1),
    λ p check evaluate. ap (λ o. is_permitted (after_validation p check evaluate r o).effect) bad.1,
  )
]

-- For every precedence that the constructor accepts, access is permitted exactly if the four
-- texts of the request are not blank, neither port fails, asked with the request without
-- attributes and with its attributes or the empty ones, and either a role grants and no policy
-- denies, or the role gate finds no match and a policy permits.
pub authorize-access :
    (overrides : PrecedenceOverrides) (p : AuthorizationPrecedence)
    (check : AuthorizationRequest → Option RoleDecisionKind)
    (evaluate : AuthorizationRequest → Option PolicyEvaluation) (r : AuthorizationRequest)
    → resolve_precedence overrides ≡ some p
    → is_permitted (authorize p check evaluate r).effect
      ≡ (is_complete r && grants_access (check (for_roles r)) (evaluate (for_policies r)))
unfolding authorize resolve_precedence
authorize-access overrides p check evaluate r h =
    let roles = λ (q : AuthorizationRequest). check (for_roles q) in
    let policies = λ (q : AuthorizationRequest). evaluate (for_policies q) in
    let access = grants_access (roles r) (policies r) in
    elim (complete_cases r) [
      | inl fine ↦
          ap (λ o. is_permitted (after_validation p roles policies r o).effect) (fine.1)
          ∙ after_roles-access p r (roles r) (policies r) (safe_default _ p h)
          ∙ sym (ap (λ b. b && access) (fine.0))
      | inr bad ↦ bad.1 p roles policies ∙ sym (ap (λ b. b && access) (bad.0))
    ]
