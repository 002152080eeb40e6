-- ===== src/Mfa/Totp.antt =====
-- packages/mfa/application/use-cases: enrolling, confirming and challenging a time-based one-time
-- code. The algorithm of the port `TotpAlgorithm` is an argument, from a secret, a code and the time to
-- the step that the code is for. A code is its text, which `length` measures in UTF-16 units.
pub mod Steps
pub mod Replay
mod Tests
use Prim.Native.Char.{code}
use verixa.Prelude.{
  ℕ, ◌+◌, ltb, String, Bool, true, false, not, ◌&&◌, List, [], ◌∷◌, Option, none, some, eqb, ◌==◌,
  if◌then◌else◌,
}
use verixa.Kernel.Result.{Result, ok, err}
use verixa.Mfa.Method.{
  MfaMethod, Secret, plain, json, is_active, is_pending, activate, is_locked_at,
  record_failed_attempt, record_totp_use, create_pending_totp,
}
use verixa.Mfa.Store.{Methods, save, find_by_id}

abbrev pub Algorithm : Type 0
Algorithm = Secret → String → ℕ → Option ℕ

pub data TotpError : Type 0 where
  malformed_code : TotpError
  method_not_found : TotpError
  method_not_active : TotpError
  method_not_pending : TotpError
  rate_limited : TotpError
  missing_secret : TotpError
  invalid_code : TotpError
  already_used : TotpError
  already_active : TotpError

-- The repository after a call, and the answer: the step that was accepted.
pub record Outcome : Type 0 where
  pub methods : Methods
  pub answer : Result ℕ TotpError

abbrev pub refused : Methods → TotpError → Outcome
refused st e = record { methods = st; answer = err e }

unfoldable pub utf16_length : String → ℕ
utf16_length String.[] = 0
utf16_length (String.◌∷◌ c s) = (if ltb (code c) 65536 then 1 else 2) + utf16_length s

abbrev pub is_six : String → Bool
is_six text = eqb (utf16_length text) 6

-- A secret that is there and not the empty text.
abbrev pub usable : Option Secret → Option Secret
usable none = none
usable (some (plain s)) = if s == "" then none else some (plain s)
usable (some (json hashes)) = some (json hashes)

abbrev pub accept : ℕ → ℕ → MfaMethod → Methods → Option MfaMethod → Outcome
accept step now m st (some verified) = record { methods = save verified st; answer = ok step }
accept step now m st none = refused (save (record_failed_attempt now m) st) already_used

abbrev pub match_step : ℕ → MfaMethod → Methods → Option ℕ → Outcome
match_step now m st none = refused (save (record_failed_attempt now m) st) invalid_code
match_step now m st (some step) = accept step now m st (record_totp_use step now m)

abbrev pub with_secret : Algorithm → String → ℕ → MfaMethod → Methods → Option Secret → Outcome
with_secret verify code now m st none = refused st missing_secret
with_secret verify code now m st (some secret) = match_step now m st (verify secret code now)

abbrev pub challenge_found : Algorithm → String → ℕ → Methods → Option MfaMethod → Outcome
challenge_found verify code now st none = refused st method_not_found
challenge_found verify code now st (some m) =
    if not (is_active m.status)
    then refused st method_not_active
    else if is_locked_at now m
    then refused st rate_limited
    else with_secret verify code now m st (usable m.secret)

-- `VerifyTotpChallenge.execute`
unfoldable pub verify_challenge : Algorithm → String → String → ℕ → Methods → Outcome
verify_challenge verify id code now st =
    if is_six code
    then challenge_found verify code now st (find_by_id id st)
    else refused st malformed_code

abbrev pub confirm_with : ℕ → MfaMethod → Methods → Option ℕ → Option MfaMethod → Outcome
confirm_with now m st none activated = refused (save (record_failed_attempt now m) st) invalid_code
confirm_with now m st (some step) (some activated) = record {
  methods = save activated st;
  answer = ok step;
}
confirm_with now m st (some step) none = refused st already_active

abbrev pub confirm_secret : Algorithm → String → ℕ → MfaMethod → Methods → Option Secret → Outcome
confirm_secret verify code now m st none = refused st missing_secret
confirm_secret verify code now m st (some secret) =
    confirm_with now m st (verify secret code now) (activate now m)

abbrev pub confirm_found : Algorithm → String → ℕ → Methods → Option MfaMethod → Outcome
confirm_found verify code now st none = refused st method_not_found
confirm_found verify code now st (some m) =
    if not (is_pending m.status)
    then refused st method_not_pending
    else if is_locked_at now m
    then refused st rate_limited
    else confirm_secret verify code now m st (usable m.secret)

-- `ConfirmTotpEnrollment.execute`
unfoldable pub confirm_enrollment : Algorithm → String → String → ℕ → Methods → Outcome
confirm_enrollment verify id code now st =
    if is_six code
    then confirm_found verify code now st (find_by_id id st)
    else refused st malformed_code

-- `EnrollTotp.execute`, with the generated secret and id.
abbrev pub enroll : String → String → String → ℕ → Methods → Methods
enroll id user_id secret now st = save (create_pending_totp id user_id secret now) st

-- One call: a challenge or a confirmation.
pub data Attempt : Type 0 where
  challenging : String → String → ℕ → Attempt
  confirming : String → String → ℕ → Attempt

unfoldable pub attempt : Algorithm → Attempt → Methods → Outcome
attempt verify (challenging id code now) st = verify_challenge verify id code now st
attempt verify (confirming id code now) st = confirm_enrollment verify id code now st

abbrev pub step_of : String → Attempt → Result ℕ TotpError → List ℕ → List ℕ
step_of wanted (challenging id code now) (ok step) steps =
    if id == wanted then step ∷ steps else steps
step_of wanted (challenging id code now) (err e) steps = steps
step_of wanted (confirming id code now) answer steps = steps

-- The steps for which a challenge of one method succeeds, over a sequence of calls.
unfoldable pub accepted : Algorithm → String → List Attempt → Methods → List ℕ
accepted verify wanted [] st = []
accepted verify wanted (a ∷ rest) st =
    let outcome = attempt verify a st in
    step_of wanted a outcome.answer (accepted verify wanted rest outcome.methods)
