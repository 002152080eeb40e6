-- ===== src/Credentials/Reset.antt =====
-- packages/credentials/application/use-cases/request-password-reset.ts and
-- confirm-password-reset.ts, with RawPassword.create of domain/value-objects/raw-password.ts.
-- Digests, random tokens, new ids, the clock, the hasher, the rate limiter, the users of
-- packages/identity and the revocation of sessions are arguments. The mail that carries a token
-- is left out.
pub mod Redemption
pub mod Outstanding
pub mod SingleUse
pub mod Confirmation
mod Tests
use verixa.Prelude.{
  ℕ, ◌+◌, String, Bool, true, false, not, ◌&&◌, ◌||◌, List, [], ◌∷◌, ◌++◌, Option, none, some, ltb,
  leb, if◌then◌else◌, ◌==◌,
}
use verixa.Prelude.Dict.{Dict, get, set, values}
use verixa.Prelude.Text.{Text, text_eq}
use verixa.Kernel.Result.{Result, ok, err}
use verixa.Kernel.BruteForce
use verixa.Kernel.BruteForce.{RateLimitResult, Attempts, password_reset}
use verixa.Credentials.Authentication.{User, Gate}
use verixa.Credentials.Credential.{
  Credential, PasswordHistoryPolicy, create, is_password_reused, rotate_password,
}
use verixa.Credentials.ResetToken.{
  PasswordResetToken, TokenError, Digests, issue, matches_token, consume, find_by_token_hash,
  save_token, invalidate_outstanding_for_user,
}

pub record ResetState : Type 0 where
  pub credentials : Dict Credential
  pub tokens : Dict PasswordResetToken
  pub attempts : Attempts
  -- The users whose sessions have been revoked, and the keys whose rate limit has been reset.
  pub revoked : List String
  pub limits_reset : List String

pub data ResetError : Type 0 where
  rate_limit_exceeded password_too_short password_too_long invalid_token password_reused
        revocation_failed :
      ResetError

pub record RequestEnvironment : Type 0 where
  pub limiter : RateLimitResult
  pub create_email : String → Option String
  pub find_by_email : String → Option User
  pub ttl_ms : Option ℕ
  pub now : ℕ
  pub token_id : String
  pub raw_token : String

pub record ConfirmEnvironment : Type 0 where
  pub limiter : RateLimitResult
  pub min_length : ℕ
  pub max_length : ℕ
  -- `String.length`
  pub length : String → ℕ
  pub gate : Option Gate
  pub hash : String → String
  pub verify : String → String → Bool
  pub find_by_id : String → Option User
  pub history_policy : PasswordHistoryPolicy
  -- Whether the session store answers.
  pub revokes : String → Bool
  pub now : ℕ
  pub credential_id : String

pub record Requested : Type 0 where
  pub state : ResetState
  pub answer : Result Bool ResetError

pub record Confirmed : Type 0 where
  pub state : ResetState
  pub answer : Result User ResetError

abbrev pub reset_limit : String → ResetState → ResetState
reset_limit key st = record st { limits_reset = st.limits_reset ++ key ∷ [] }

module _ (digests : Digests) where
  abbrev pub issue_for : RequestEnvironment → User → ResetState → ResetState
  issue_for env user st = record st {
    tokens =
        save_token (issue digests env.token_id env.raw_token user.id env.ttl_ms env.now)
          (invalidate_outstanding_for_user user.id env.now st.tokens);
  }

  abbrev pub request_with_credential :
      RequestEnvironment → String → User → ResetState → Option Credential → Requested
  request_with_credential env email user st none = record { state = st; answer = ok false }
  request_with_credential env email user st (some c) = record {
    state = reset_limit email (issue_for env user st);
    answer = ok true;
  }

  abbrev pub request_for_user : RequestEnvironment → String → ResetState → Option User → Requested
  request_for_user env email st none = record { state = st; answer = ok false }
  request_for_user env email st (some user) =
      request_with_credential env email user st (get user.id st.credentials)

  abbrev pub request_for_email :
      RequestEnvironment → String → ResetState → Option String → Requested
  request_for_email env email st none = record { state = st; answer = ok false }
  request_for_email env email st (some address) =
      request_for_user env email st (env.find_by_email address)

  -- `RequestPasswordReset.execute`
  unfoldable pub request_reset : RequestEnvironment → String → ResetState → Requested
  request_reset env email st =
      if not env.limiter.allowed
      then record { state = st; answer = err rate_limit_exceeded }
      else request_for_email env email st (env.create_email email)

pub data Outcome : Type 0 where
  invalid reused : Outcome
  replaced : User → Outcome

pub record Settled : Type 0 where
  pub state : ResetState
  pub outcome : Outcome

abbrev pub save_credential : Credential → ResetState → ResetState
save_credential c st = record st { credentials = set c.user_id c st.credentials }

-- From the lookup of the credential on: the token is already saved as consumed.
abbrev pub replace_credential :
    ConfirmEnvironment → String → User → ResetState → Option Credential → Settled
replace_credential env password user st none = record {
  state = save_credential (create env.credential_id user.id (env.hash password) env.now) st;
  outcome = replaced user;
}
replace_credential env password user st (some c) =
    if is_password_reused env.verify password c
    then record { state = st; outcome = reused }
    else record {
      state = save_credential (rotate_password (env.hash password) env.history_policy env.now c) st;
      outcome = replaced user;
    }

abbrev pub redeem_for :
    ConfirmEnvironment → String → PasswordResetToken → ResetState → Option User → Settled
redeem_for env password consumed st none = record { state = st; outcome = invalid }
redeem_for env password consumed st (some user) =
    replace_credential env password user (record st { tokens = save_token consumed st.tokens })
      (get user.id st.credentials)

abbrev pub redeem :
    ConfirmEnvironment → String → ResetState → Result PasswordResetToken TokenError → Settled
redeem env password st (err e) = record { state = st; outcome = invalid }
redeem env password st (ok consumed) =
    redeem_for env password consumed st (env.find_by_id consumed.user_id)

abbrev pub redeem_found :
    Digests
    → ConfirmEnvironment
    → String
    → String
    → ResetState
    → Option PasswordResetToken
    → Settled
redeem_found digests env token password st none = record { state = st; outcome = invalid }
redeem_found digests env token password st (some t) =
    if not (matches_token digests token t)
    then record { state = st; outcome = invalid }
    else redeem env password st (consume env.now t)

abbrev pub gate_failure : Option Gate → String → ℕ → ResetState → ResetState
gate_failure none hash now st = st
gate_failure (some g) hash now st = record st {
  attempts = BruteForce.record_failure g.thresholds g.normalise password_reset hash now st.attempts;
}

abbrev pub gate_success : Option Gate → String → ResetState → ResetState
gate_success none hash st = st
gate_success (some g) hash st = record st {
  attempts = BruteForce.record_success g.thresholds g.normalise password_reset hash st.attempts;
}

abbrev pub ask_gate : Option Gate → String → ℕ → ResetState → ResetState × Bool
ask_gate none hash now st = (st, true)
ask_gate (some g) hash now st =
    let asked =
      BruteForce.check g.thresholds g.normalise password_reset hash now g.limit st.attempts in
    (record st { attempts = asked.0 }, asked.1.allowed)

abbrev pub sign_out : ConfirmEnvironment → String → User → ResetState → Confirmed
sign_out env token user st =
    if env.revokes user.id
    then record {
      state = reset_limit token (record st { revoked = user.id ∷ st.revoked });
      answer = ok user;
    }
    else record { state = st; answer = err revocation_failed }

-- After the transaction.
abbrev pub settle : ConfirmEnvironment → String → String → ResetState → Outcome → Confirmed
settle env token hash st invalid = record {
  state = gate_failure env.gate hash env.now st;
  answer = err invalid_token;
}
settle env token hash st reused = record { state = st; answer = err password_reused }
settle env token hash st (replaced user) = sign_out env token user (gate_success env.gate hash st)

-- `RawPassword.create`, by the error it answers with.
abbrev pub password_fault : ConfirmEnvironment → String → Option ResetError
password_fault env password =
    if ltb (env.length password) env.min_length
    then some password_too_short
    else if ltb env.max_length (env.length password)
    then some password_too_long
    else none

abbrev pub confirm_gated :
    Digests → ConfirmEnvironment → String → String → ResetState × Bool → Confirmed
confirm_gated digests env token password (st, allowed) =
    if not allowed
    then record { state = st; answer = err invalid_token }
    else let found = find_by_token_hash (digests.hash_token token) (values st.tokens) in
      let settled = redeem_found digests env token password st found in
      settle env token (digests.hash_token token) settled.state settled.outcome

abbrev pub confirm_checked :
    Digests → ConfirmEnvironment → String → String → ResetState → Option ResetError → Confirmed
confirm_checked digests env token password st (some e) = record { state = st; answer = err e }
confirm_checked digests env token password st none =
    confirm_gated digests env token password
      (ask_gate env.gate (digests.hash_token token) env.now st)

-- `ConfirmPasswordReset.execute`
unfoldable pub confirm_reset :
    Digests → ConfirmEnvironment → String → String → ResetState → Confirmed
confirm_reset digests env token password st =
    if not env.limiter.allowed
    then record { state = st; answer = err rate_limit_exceeded }
    else confirm_checked digests env token password st (password_fault env password)

-- A request for a link, or its use.
pub data Operation : Type 0 where
  requesting : RequestEnvironment → String → Operation
  confirming : ConfirmEnvironment → String → String → Operation
