-- ===== src/Sessions/Policy/Tests.antt =====
-- A policy that is accepted, as an example of what validation gives.
use verixa.Prelude.Number.{pos, finite}
use verixa.Sessions.Policy.{SessionExpiryPolicy, SessionExpiryPolicyProps}

abbrev short_props : SessionExpiryPolicyProps
short_props = record {
  refresh_token_ttl_ms = finite (pos 40);
  access_token_ttl_ms = finite (pos 10);
  absolute_lifetime_ms = finite (pos 80);
  idle_timeout_ms = finite (pos 20);
}

abbrev short : SessionExpiryPolicy
short = record {
  refresh_token_ttl_ms = 40;
  access_token_ttl_ms = 10;
  absolute_lifetime_ms = 80;
  idle_timeout_ms = 20;
}
