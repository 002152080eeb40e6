-- ===== src/Credentials/Authentication.antt =====
-- packages/credentials/application/use-cases/authenticate-with-password.ts: a login with a password.
-- The rate limiter, the password hasher, `Email.create` and the users of packages/identity, and the
-- second factors are the fields of `Environment`. The repository of credentials is a map from user
-- ids, and the gate against guessing keeps its attempts. A transaction leaves what it has written. The
-- decoy hash, which takes time and nothing else, is left out.
pub mod Admission
mod Tests
use verixa.Prelude.{
  ℕ, String, Bool, true, false, not, ◌&&◌, ◌||◌, List, [], ◌∷◌, ◌++◌, Option, none, some, eqb,
  if◌then◌else◌,
}
use verixa.Prelude.Dict.{Dict, get, set}
use verixa.Kernel.Result.{Result, ok, err}
use verixa.Kernel.BruteForce
use verixa.Kernel.BruteForce.{
  BruteForceThresholds, BruteForceDecision, RateLimitResult, Attempts, login,
}
use verixa.Credentials.Lockout.{LockoutPolicy}
use verixa.Credentials.Credential.{
  Credential, is_locked_at, record_failed_attempt, record_successful_attempt, with_password_hash,
  is_none,
}

pub data UserStatus : Type 0 where
  pending active suspended deleted : UserStatus

pub record User : Type 0 where
  pub id : String
  pub email : String
  pub status : UserStatus

pub data MfaEnforcementLevel : Type 0 where
  required optional disabled : MfaEnforcementLevel

-- What `MfaChecker` answers for a user: the level and the ids of the active methods.
pub record MfaAnswer : Type 0 where
  pub policy : MfaEnforcementLevel
  pub active_methods : List String

-- The gate of `BruteForcePolicy`, where one is given: its thresholds, how it normalises an
-- identifier, and what its own rate limiter answers.
pub record Gate : Type 0 where
  pub thresholds : BruteForceThresholds
  pub normalise : String → String
  pub limit : Option RateLimitResult

pub record Environment : Type 0 where
  pub limiter : RateLimitResult
  pub gate : Option Gate
  pub create_email : String → Option String
  pub find_by_email : String → Option User
  pub verify : String → String → Bool
  pub needs_rehash : String → Bool
  -- None where hashing or the second write fails.
  pub hash : String → Option String
  pub lockout_policy : LockoutPolicy
  pub mfa : Option (String → MfaAnswer)
  pub now : ℕ

-- The calls on the rate limiter, in order.
pub data LimiterCall : Type 0 where
  recorded_failure reset : LimiterCall

pub record LoginState : Type 0 where
  pub credentials : Dict Credential
  pub attempts : Attempts
  pub limiter_calls : List LimiterCall

pub data LoginSuccess : Type 0 where
  signed_in : User → Bool → LoginSuccess
  mfa_challenge : User → Bool → List String → LoginSuccess
  enrollment_required : User → Bool → LoginSuccess

pub data LoginError : Type 0 where
  rate_limit_exceeded authentication account_locked : LoginError

pub record LoginResult : Type 0 where
  pub state : LoginState
  pub answer : Result LoginSuccess LoginError

pub data Outcome : Type 0 where
  passed : User → Credential → Outcome
  failed locked : Outcome

pub record Verified : Type 0 where
  pub state : LoginState
  pub outcome : Outcome

-- `CAN_AUTHENTICATE`
abbrev pub can_authenticate : UserStatus → Bool
can_authenticate pending = true
can_authenticate active = true
can_authenticate suspended = false
can_authenticate deleted = false

abbrev pub save_credential : String → Credential → LoginState → LoginState
save_credential user_id c st = record st { credentials = set user_id c st.credentials }

-- `this.bruteForce?.recordFailure` and `recordSuccess`.
abbrev pub gate_failure : Option Gate → String → ℕ → LoginState → LoginState
gate_failure none email now st = st
gate_failure (some g) email now st = record st {
  attempts = BruteForce.record_failure g.thresholds g.normalise login email now st.attempts;
}

abbrev pub gate_success : Option Gate → String → LoginState → LoginState
gate_success none email st = st
gate_success (some g) email st = record st {
  attempts = BruteForce.record_success g.thresholds g.normalise login email st.attempts;
}

abbrev pub limiter_call : LimiterCall → LoginState → LoginState
limiter_call call st = record st { limiter_calls = st.limiter_calls ++ call ∷ [] }

-- `cleared === credential`: there was nothing to clear.
abbrev pub is_clear : Credential → Bool
is_clear c = eqb c.failed_attempts 0 && is_none c.locked_until

abbrev pub check_status : Environment → User → Credential → LoginState → Verified
check_status env user c st =
    if not (can_authenticate user.status)
    then record { state = st; outcome = failed }
    else let cleared = record_successful_attempt env.now c in
      record {
        state = if is_clear c then st else save_credential user.id cleared st;
        outcome = passed user cleared;
      }

abbrev pub check_password : Environment → String → User → Credential → LoginState → Verified
check_password env password user c st =
    if not (env.verify password c.password_hash)
    then record {
      state =
          limiter_call recorded_failure
            (save_credential user.id (record_failed_attempt env.lockout_policy env.now c) st);
      outcome = failed;
    }
    else check_status env user c st

abbrev pub check_credential :
    Environment → String → String → User → LoginState → Option Credential → Verified
check_credential env email password user st none = record {
  state = gate_failure env.gate email env.now st;
  outcome = failed;
}
check_credential env email password user st (some c) =
    if is_locked_at c env.now
    then record {
      state = save_credential user.id (record_failed_attempt env.lockout_policy env.now c) st;
      outcome = locked;
    }
    else check_password env password user c st

abbrev pub check_user : Environment → String → String → LoginState → Option User → Verified
check_user env email password st none = record {
  state = gate_failure env.gate email env.now st;
  outcome = failed;
}
check_user env email password st (some user) =
    check_credential env email password user st (get user.id st.credentials)

-- `upgradeHashIfStale`
abbrev pub save_upgraded : String → ℕ → Credential → LoginState → Option String → LoginState × Bool
save_upgraded user_id now c st none = (st, false)
save_upgraded user_id now c st (some fresh) =
    (save_credential user_id (with_password_hash fresh now c) st, true)

abbrev pub upgrade_hash_if_stale :
    Environment → String → User → Credential → LoginState → LoginState × Bool
upgrade_hash_if_stale env password user c st =
    if not (env.needs_rehash c.password_hash)
    then (st, false)
    else save_upgraded user.id env.now c st (env.hash password)

abbrev pub after_mfa : User → Bool → MfaEnforcementLevel → List String → LoginSuccess
after_mfa user rehashed required [] = enrollment_required user rehashed
after_mfa user rehashed optional [] = signed_in user rehashed
after_mfa user rehashed disabled [] = signed_in user rehashed
after_mfa user rehashed level (m ∷ methods) = mfa_challenge user rehashed (m ∷ methods)

abbrev pub second_factor : Option (String → MfaAnswer) → User → Bool → LoginSuccess
second_factor none user rehashed = signed_in user rehashed
second_factor (some check) user rehashed =
    after_mfa user rehashed (check user.id).policy (check user.id).active_methods

abbrev pub succeed : Environment → String → String → User → Credential → LoginState → LoginResult
succeed env email password user c st =
    let counted = limiter_call reset (gate_success env.gate email st) in
    let upgraded = upgrade_hash_if_stale env password user c counted in
    record { state = upgraded.0; answer = ok (second_factor env.mfa user upgraded.1) }

abbrev pub settle : Environment → String → String → LoginState → Outcome → LoginResult
settle env email password st locked = record { state = st; answer = err account_locked }
settle env email password st failed = record { state = st; answer = err authentication }
settle env email password st (passed user c) = succeed env email password user c st

abbrev pub with_email : Environment → String → String → LoginState → Option String → LoginResult
with_email env email password st none = record { state = st; answer = err authentication }
with_email env email password st (some address) =
    let verified = check_user env email password st (env.find_by_email address) in
    settle env email password verified.state verified.outcome

-- The state after the gate has been asked, and whether it lets the attempt through.
abbrev pub ask_gate : Option Gate → String → ℕ → LoginState → LoginState × Bool
ask_gate none email now st = (st, true)
ask_gate (some g) email now st =
    let asked = BruteForce.check g.thresholds g.normalise login email now g.limit st.attempts in
    (record st { attempts = asked.0 }, asked.1.allowed)

-- `AuthenticateWithPassword.execute`
unfoldable pub authenticate : Environment → String → String → LoginState → LoginResult
authenticate env email password st =
    if not env.limiter.allowed
    then record { state = st; answer = err rate_limit_exceeded }
    else let asked = ask_gate env.gate email env.now st in
      if not (asked.1)
      then record { state = asked.0; answer = err authentication }
      else with_email env email password (asked.0) (env.create_email email)
