-- ===== src/Authorization/Service.antt =====
-- packages/authorization/application/services/authorization-service.ts and
-- domain/authorization-decision.ts: one decision from the role gate and the policies. The two ports are
-- arguments that return none where they throw. A text is taken as it is.
pub mod FailClosed
mod Tests
use verixa.Prelude.{
  ℕ, String, Bool, true, false, not, ◌&&◌, List, [], ◌∷◌, Option, none, some, if◌then◌else◌,
}
use verixa.Prelude.Blank.{is_blank}
use verixa.Authorization.Attributes.{AttributeContext}
use verixa.Authorization.Combining.{
  Effect, permit, deny, RuleOutcome, permits, denies, not_applicable,
}

pub data RoleDecisionKind : Type 0 where
  grant : RoleDecisionKind
  deny_role : RoleDecisionKind
  no_match : RoleDecisionKind

pub data DecisionSource : Type 0 where
  rbac : DecisionSource
  abac : DecisionSource
  composition : DecisionSource
  fail_closed : DecisionSource

pub data MalformedReason : Type 0 where
  subject_id_empty : MalformedReason
  tenant_id_empty : MalformedReason
  action_empty : MalformedReason
  resource_type_empty : MalformedReason

-- `AUTHORIZATION_REASONS`, an invalid request with its detail.
pub data Reason : Type 0 where
  rbac_grant : Reason
  rbac_deny : Reason
  abac_deny : Reason
  abac_permit : Reason
  no_applicable_policy : Reason
  rbac_unavailable : Reason
  policy_repository_unavailable : Reason
  invalid_request : MalformedReason → Reason

pub record AuthorizationDecision : Type 0 where
  pub effect : Effect
  pub source : DecisionSource
  pub reason : Reason
  pub matched_policy_ids : List String

pub record AuthorizationPrecedence : Type 0 where
  pub abac_deny_overrides_rbac_permit : Bool
  pub abac_permit_overrides_rbac_deny : Bool
  pub default_effect_when_no_policy_matches : Effect

-- `Partial<AuthorizationPrecedence>`
pub record PrecedenceOverrides : Type 0 where
  pub deny_overrides_permit : Option Bool
  pub permit_overrides_deny : Option Bool
  pub default_effect : Option Effect

abbrev pub or_default {ℓ} : {A : Type ℓ} → A → Option A → A
or_default d none = d
or_default d (some a) = a

abbrev pub is_deny : Effect → Bool
is_deny permit = false
is_deny deny = true

unfoldable pub assert_safe : AuthorizationPrecedence → Option AuthorizationPrecedence
assert_safe p =
    if not p.abac_deny_overrides_rbac_permit
    then none
    else if p.abac_permit_overrides_rbac_deny
    then none
    else if not (is_deny p.default_effect_when_no_policy_matches)
    then none
    else some p

-- `{ ...AUTHORIZATION_PRECEDENCE, ...overrides }`, none where it throws.
unfoldable pub resolve_precedence : PrecedenceOverrides → Option AuthorizationPrecedence
resolve_precedence o = assert_safe (record {
  abac_deny_overrides_rbac_permit = or_default true o.deny_overrides_permit;
  abac_permit_overrides_rbac_deny = or_default false o.permit_overrides_deny;
  default_effect_when_no_policy_matches = or_default deny o.default_effect;
})

pub record AuthorizationRequest : Type 0 where
  pub subject_id : String
  pub tenant_id : String
  pub action : String
  pub resource_type : String
  pub resource_id : Option String
  pub context : Option AttributeContext

-- `emptyAttributeContext`
abbrev pub empty_attribute_context : AttributeContext
empty_attribute_context = record { subject = []; resource = []; action = []; environment = [] }

abbrev pub context_or_empty : Option AttributeContext → AttributeContext
context_or_empty none = empty_attribute_context
context_or_empty (some context) = context

-- The role gate is asked without the attributes, the policies with the attributes or the empty ones.
abbrev pub for_roles : AuthorizationRequest → AuthorizationRequest
for_roles r = record r { context = none }

abbrev pub for_policies : AuthorizationRequest → AuthorizationRequest
for_policies r = record r { context = some (context_or_empty r.context) }

pub record PolicyEvaluation : Type 0 where
  pub effect : RuleOutcome
  pub matched_policy_ids : List String

abbrev pub malformed_request_reason : AuthorizationRequest → Option MalformedReason
malformed_request_reason r =
    if is_blank r.subject_id
    then some subject_id_empty
    else if is_blank r.tenant_id
    then some tenant_id_empty
    else if is_blank r.action
    then some action_empty
    else if is_blank r.resource_type
    then some resource_type_empty
    else none

abbrev pub refuse : DecisionSource → Reason → AuthorizationDecision
refuse source reason = record {
  effect = deny;
  source = source;
  reason = reason;
  matched_policy_ids = [];
}

-- The decision once the policies have answered, from whether a role grants.
abbrev pub combine :
    AuthorizationPrecedence → Bool → RuleOutcome → List String → AuthorizationDecision
combine p granted denies ids = record {
  effect = deny;
  source = if granted then composition else abac;
  reason = abac_deny;
  matched_policy_ids = ids;
}
combine p granted permits ids = record {
  effect = permit;
  source = if granted then composition else abac;
  reason = if granted then rbac_grant else abac_permit;
  matched_policy_ids = ids;
}
combine p true not_applicable ids = record {
  effect = permit;
  source = rbac;
  reason = rbac_grant;
  matched_policy_ids = [];
}
combine p false not_applicable ids = record {
  effect = p.default_effect_when_no_policy_matches;
  source = composition;
  reason = no_applicable_policy;
  matched_policy_ids = [];
}

abbrev pub after_policies :
    AuthorizationPrecedence → Bool → Option PolicyEvaluation → AuthorizationDecision
after_policies p granted none = refuse fail_closed policy_repository_unavailable
after_policies p granted (some e) = combine p granted e.effect e.matched_policy_ids

abbrev pub after_roles :
    AuthorizationPrecedence
    → (AuthorizationRequest → Option PolicyEvaluation)
    → AuthorizationRequest
    → Option RoleDecisionKind
    → AuthorizationDecision
after_roles p evaluate r none = refuse fail_closed rbac_unavailable
after_roles p evaluate r (some deny_role) = refuse rbac rbac_deny
after_roles p evaluate r (some grant) = after_policies p true (evaluate r)
after_roles p evaluate r (some no_match) = after_policies p false (evaluate r)

abbrev pub after_validation :
    AuthorizationPrecedence
    → (AuthorizationRequest → Option RoleDecisionKind)
    → (AuthorizationRequest → Option PolicyEvaluation)
    → AuthorizationRequest
    → Option MalformedReason
    → AuthorizationDecision
after_validation p check evaluate r (some malformed) =
    refuse fail_closed (invalid_request malformed)
after_validation p check evaluate r none = after_roles p evaluate r (check r)

unfoldable pub authorize :
    AuthorizationPrecedence
    → (AuthorizationRequest → Option RoleDecisionKind)
    → (AuthorizationRequest → Option PolicyEvaluation)
    → AuthorizationRequest
    → AuthorizationDecision
authorize p check evaluate r =
    after_validation p (λ q. check (for_roles q)) (λ q. evaluate (for_policies q)) r
      (malformed_request_reason r)
