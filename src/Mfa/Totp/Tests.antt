-- ===== src/Mfa/Totp/Tests.antt =====
-- Challenges on a concrete method, with an algorithm that takes one code at one step.
use verixa.Prelude.{List, [], ◌∷◌, none, some, ◌≡◌, refl, All, ◌==◌, ◌/◌, if◌then◌else◌}
use verixa.Prelude.Dict.{get, set}
use verixa.Mfa.Method.{
  MfaMethod, plain, totp, active, is_locked_at, record_totp_use, record_use, record_failed_attempt,
  lock_after,
}
use verixa.Mfa.Store.{Methods}
use verixa.Mfa.Totp.{
  Algorithm, Attempt, challenging, accepted, attempt, verify_challenge, utf16_length,
}
use verixa.Mfa.Totp.Replay.{accepted-Fresh, IsIncreasing}
use verixa.Mfa.Totp.Steps.{Above, last_step}

abbrev algorithm : Algorithm
algorithm secret code now = if code == "123456" then some (now / 30) else none

abbrev method : MfaMethod
method = record {
  id = "m";
  user_id = "ann";
  type = totp;
  status = active;
  secret = some (plain "s");
  last_used_at = none;
  created_at = 0;
  updated_at = 0;
  failed_attempts = 0;
  locked_until = none;
  last_used_step = none;
}

abbrev methods : Methods
methods = ("m", method) ∷ []

-- The same code twice in one step, and once in the next.
abbrev calls : List Attempt
calls = challenging "m" "123456" 60 ∷ challenging "m" "123456" 61 ∷ challenging "m" "123456" 90 ∷ []

replayed : accepted algorithm "m" calls methods ≡ 2 ∷ 3 ∷ []
unfolding accepted attempt verify_challenge utf16_length get set is_locked_at record_totp_use
    record_use record_failed_attempt lock_after
replayed = refl

accepted-Fresh_example :
    All (Above (last_step "m" methods)) (accepted algorithm "m" calls methods)
    × IsIncreasing (accepted algorithm "m" calls methods)
accepted-Fresh_example = accepted-Fresh algorithm "m" calls methods (refl, tt)
