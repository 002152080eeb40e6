-- ===== src/Authorization/Service/Tests.antt =====
-- The service on a concrete request.
use verixa.Prelude.{true, false, ◌&&◌, [], ◌∷◌, Option, none, some, ◌≡◌, refl}
use verixa.Authorization.Combining.{deny, denies}
use verixa.Authorization.Service.{
  for_roles, for_policies, AuthorizationPrecedence, PrecedenceOverrides, AuthorizationRequest,
  PolicyEvaluation, RoleDecisionKind, grant, resolve_precedence, assert_safe, authorize,
}
use verixa.Authorization.Service.FailClosed.{
  is_permitted, is_complete, grants_access, authorize-access,
}

abbrev no_overrides : PrecedenceOverrides
no_overrides = record {
  deny_overrides_permit = none;
  permit_overrides_deny = none;
  default_effect = none;
}

abbrev precedence : AuthorizationPrecedence
precedence = record {
  abac_deny_overrides_rbac_permit = true;
  abac_permit_overrides_rbac_deny = false;
  default_effect_when_no_policy_matches = deny;
}

abbrev request : AuthorizationRequest
request = record {
  subject_id = "ann";
  tenant_id = "acme";
  action = "read";
  resource_type = "doc";
  resource_id = none;
  context = none;
}

abbrev role_grants : AuthorizationRequest → Option RoleDecisionKind
role_grants r = some grant

abbrev policy_denies : AuthorizationRequest → Option PolicyEvaluation
policy_denies r = some (record { effect = denies; matched_policy_ids = "p1" ∷ [] })

resolved : resolve_precedence no_overrides ≡ some precedence
unfolding resolve_precedence assert_safe
resolved = refl

authorize-access_example :
    is_permitted (authorize precedence role_grants policy_denies request).effect ≡ (
      is_complete request
      && grants_access (role_grants (for_roles request)) (policy_denies (for_policies request)))
authorize-access_example =
    authorize-access no_overrides precedence role_grants policy_denies request resolved
