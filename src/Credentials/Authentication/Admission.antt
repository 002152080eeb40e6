-- ===== src/Credentials/Authentication/Admission.antt =====
-- Who is let in, and what the others are told.
use verixa.Prelude.{
  ℕ, String, Bool, true, not, ◌&&◌, Option, none, some, if◌then◌else◌, ◌≡◌, refl, sym, ◌∙◌,
  Bool-cases, Option-cases, inl, inr,
}
use verixa.Prelude.Dict.{get}
use verixa.Kernel.Result.{Result, ok, err}
use verixa.Kernel.BruteForce
use verixa.Kernel.BruteForce.{login}
use verixa.Credentials.Credential.{Credential, is_locked_at}
use verixa.Credentials.Authentication.{
  User, Environment, Gate, LoginState, LoginSuccess, LoginError, rate_limit_exceeded,
  authentication, account_locked, can_authenticate, check_status, check_password, check_credential,
  check_user, settle, with_email, ask_gate, authenticate,
}

-- The error that a caller sees, if any.
abbrev pub error_of : Result LoginSuccess LoginError → Option LoginError
error_of (ok s) = none
error_of (err e) = some e

-- What a password and a user with this credential deserve.
abbrev pub credential_verdict : Environment → String → User → Option Credential → Option LoginError
credential_verdict env password user none = some authentication
credential_verdict env password user (some c) =
    if is_locked_at c env.now
    then some account_locked
    else if env.verify password c.password_hash && can_authenticate user.status
    then none
    else some authentication

abbrev pub user_verdict : Environment → String → LoginState → Option User → Option LoginError
user_verdict env password st none = some authentication
user_verdict env password st (some user) =
    credential_verdict env password user (get user.id st.credentials)

abbrev pub email_verdict : Environment → String → LoginState → Option String → Option LoginError
email_verdict env password st none = some authentication
email_verdict env password st (some address) =
    user_verdict env password st (env.find_by_email address)

abbrev pub gate_allows : Option Gate → String → ℕ → LoginState → Bool
gate_allows none email now st = true
gate_allows (some g) email now st =
    (BruteForce.check g.thresholds g.normalise login email now g.limit st.attempts).1.allowed

module _ (env : Environment) (email password : String) where
  check_status-verdict :
      (user : User) (c : Credential) (st : LoginState)
      → error_of
          (settle env email password
            (check_status env user c st).state
            (check_status env user c st).outcome).answer
        ≡ (if can_authenticate user.status then none else some authentication)
  check_status-verdict user c st = elim (Bool-cases (can_authenticate user.status)) [
    | inl may ↦ rw may refl
    | inr may_not ↦ rw may_not refl
  ]

  check_password-verdict :
      (user : User) (c : Credential) (st : LoginState)
      → error_of
          (settle env email password
            (check_password env password user c st).state
            (check_password env password user c st).outcome).answer
        ≡ (if env.verify password c.password_hash && can_authenticate user.status
            then none
            else some authentication)
  check_password-verdict user c st = elim (Bool-cases (env.verify password c.password_hash)) [
    | inl right ↦ rw right (check_status-verdict user c st)
    | inr wrong ↦ rw wrong refl
  ]

  check_credential-verdict :
      (user : User) (st : LoginState) (found : Option Credential)
      → error_of
          (settle env email password
            (check_credential env email password user st found).state
            (check_credential env email password user st found).outcome).answer
        ≡ credential_verdict env password user found
  check_credential-verdict user st none = refl
  check_credential-verdict user st (some c) = elim (Bool-cases (is_locked_at c env.now)) [
    | inl shut ↦ rw shut refl
    | inr free ↦ rw free (check_password-verdict user c st)
  ]

  check_user-verdict :
      (st : LoginState) (found : Option User)
      → error_of
          (settle env email password
            (check_user env email password st found).state
            (check_user env email password st found).outcome).answer
        ≡ user_verdict env password st found
  check_user-verdict st none = refl
  check_user-verdict st (some user) = check_credential-verdict user st (get user.id st.credentials)

  with_email-verdict :
      (st : LoginState) (address : Option String)
      → error_of (with_email env email password st address).answer
        ≡ email_verdict env password st address
  with_email-verdict st none = refl
  with_email-verdict st (some address) = check_user-verdict st (env.find_by_email address)

-- Asking the gate changes no credential.
email_verdict-ask_gate :
    (env : Environment) (email password : String) (gate : Option Gate) (st : LoginState)
    (address : Option String)
    → email_verdict env password (ask_gate gate email env.now st).0 address
      ≡ email_verdict env password st address
email_verdict-ask_gate env email password none st address = refl
email_verdict-ask_gate env email password (some g) st none = refl
email_verdict-ask_gate env email password (some g) st (some address) =
    elim (Option-cases (env.find_by_email address)) [
      | inl missing ↦ rw missing refl
      | inr found ↦ rw (found.1) refl
    ]

ask_gate-allows :
    (gate : Option Gate) (email : String) (now : ℕ) (st : LoginState)
    → (ask_gate gate email now st).1 ≡ gate_allows gate email now st
ask_gate-allows none email now st = refl
ask_gate-allows (some g) email now st = refl

-- A login fails for the rate limit if the limiter refuses; else with the plain authentication
-- error if the gate against guessing refuses, the address is malformed, the user or the
-- credential is missing, or the unlocked credential has another password or a user of a status
-- that may not sign in; with the lock error if the credential is locked; and it succeeds in
-- every other case.
pub authenticate-verdict :
    (env : Environment) (email password : String) (st : LoginState)
    → error_of (authenticate env email password st).answer ≡ (
        if not env.limiter.allowed
        then some rate_limit_exceeded
        else if not (gate_allows env.gate email env.now st)
        then some authentication
        else email_verdict env password st (env.create_email email))
unfolding authenticate
authenticate-verdict env email password st = elim (Bool-cases env.limiter.allowed) [
  | inr refused ↦ rw refused refl
  | inl allowed ↦ rw allowed (
      rw (sym (ask_gate-allows env.gate email env.now st))
        (elim (Bool-cases ((ask_gate env.gate email env.now st).1)) [
          | inr blocked ↦ rw blocked refl
          | inl open_gate ↦ rw open_gate (
              with_email-verdict env email password (ask_gate env.gate email env.now st).0
                (env.create_email email)
              ∙ email_verdict-ask_gate env email password env.gate st (env.create_email email))
        ]))
]
