-- ===== src/Credentials/Authentication/Tests.antt =====
-- Logins of one user.
use verixa.Prelude.{true, false, not, [], ◌∷◌, none, some, ◌==◌, ◌≡◌, if◌then◌else◌}
use verixa.Kernel.BruteForce.{default_brute_force_thresholds}
use verixa.Credentials.Lockout.{default_lockout_policy}
use verixa.Credentials.Credential.{Credential}
use verixa.Credentials.Authentication.{
  User, active, Environment, LoginState, rate_limit_exceeded, authentication, authenticate,
}
use verixa.Credentials.Authentication.Admission.{
  error_of, gate_allows, email_verdict, authenticate-verdict,
}

abbrev ann : User
ann = record { id = "ann"; email = "ann@x"; status = active }

abbrev environment : Environment
environment = record {
  limiter = record { allowed = true; reset_at = 0 };
  gate =
      some
        (record { thresholds = default_brute_force_thresholds; normalise = λ s. s; limit = none });
  create_email = λ s. some s;
  find_by_email = λ s. if s == "ann@x" then some ann else none;
  verify = λ password hash. password == hash;
  needs_rehash = λ hash. false;
  hash = λ password. some password;
  lockout_policy = default_lockout_policy;
  mfa = none;
  now = 10;
}

abbrev credential : Credential
credential = record {
  id = "c";
  user_id = "ann";
  password_hash = "secret";
  failed_attempts = 0;
  locked_until = none;
  password_history = [];
  created_at = 0;
  updated_at = 0;
}

abbrev state : LoginState
state = record { credentials = ("ann", credential) ∷ []; attempts = []; limiter_calls = [] }

authenticate-verdict_example : error_of (authenticate environment "ann@x" "guess" state).answer ≡ (
    if not environment.limiter.allowed
    then some rate_limit_exceeded
    else if not (gate_allows environment.gate "ann@x" environment.now state)
    then some authentication
    else email_verdict environment "guess" state (environment.create_email "ann@x"))
authenticate-verdict_example = authenticate-verdict environment "ann@x" "guess" state
