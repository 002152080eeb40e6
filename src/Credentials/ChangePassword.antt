-- ===== src/Credentials/ChangePassword.antt =====
-- packages/credentials/application/use-cases/change-password.ts: a signed-in user replaces the
-- password. The hasher, the users of packages/identity and the lengths of texts are arguments. What
-- throws is an error. The two transactions are two functions, so that others may come between them.
pub mod Back
mod Tests
use verixa.Prelude.{ℕ, String, Bool, true, false, not, Option, none, some, ltb, if◌then◌else◌}
use verixa.Prelude.Dict.{Dict, get, set}
use verixa.Kernel.Result.{Result, ok, err}
use verixa.Credentials.Authentication.{User}
use verixa.Credentials.Credential.{
  Credential, PasswordHistoryPolicy, is_password_reused, rotate_password,
}

pub record Environment : Type 0 where
  pub min_length : ℕ
  pub max_length : ℕ
  -- `String.length`
  pub length : String → ℕ
  pub hash : String → String
  pub verify : String → String → Bool
  pub find_by_id : String → Option User
  pub history_policy : PasswordHistoryPolicy
  pub now : ℕ

pub data ChangeError : Type 0 where
  password_too_short password_too_long user_not_found no_credential wrong_current_password
        password_reused credential_vanished :
      ChangeError

abbrev pub check_credential :
    Environment → String → String → User → Option Credential → Result User ChangeError
check_credential env current fresh user none = err no_credential
check_credential env current fresh user (some c) =
    if not (env.verify current c.password_hash)
    then err wrong_current_password
    else if is_password_reused env.verify fresh c
    then err password_reused
    else ok user

abbrev pub check_user :
    Environment → String → String → Dict Credential → Option User → Result User ChangeError
check_user env current fresh credentials none = err user_not_found
check_user env current fresh credentials (some user) =
    check_credential env current fresh user (get user.id credentials)

-- Up to the end of the first transaction.
unfoldable pub check_change :
    Environment → String → String → String → Dict Credential → Result User ChangeError
check_change env user_id current fresh credentials =
    if ltb (env.length fresh) env.min_length
    then err password_too_short
    else if ltb env.max_length (env.length fresh)
    then err password_too_long
    else check_user env current fresh credentials (env.find_by_id user_id)

pub record Changed : Type 0 where
  pub credentials : Dict Credential
  pub answer : Result User ChangeError

abbrev pub rotate_found :
    Environment → String → User → Dict Credential → Option Credential → Changed
rotate_found env fresh user credentials none = record {
  credentials = credentials;
  answer = err credential_vanished;
}
rotate_found env fresh user credentials (some c) =
    let rotated = rotate_password (env.hash fresh) env.history_policy env.now c in
    record { credentials = set c.user_id rotated credentials; answer = ok user }

-- The second transaction.
abbrev pub write_change : Environment → String → Dict Credential → Result User ChangeError → Changed
write_change env fresh credentials (err e) = record { credentials = credentials; answer = err e }
write_change env fresh credentials (ok user) =
    rotate_found env fresh user credentials (get user.id credentials)

-- `ChangePassword.execute`, with nothing between its transactions.
unfoldable pub change_password : Environment → String → String → String → Dict Credential → Changed
change_password env user_id current fresh credentials =
    write_change env fresh credentials (check_change env user_id current fresh credentials)
