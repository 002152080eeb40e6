-- ===== src/Mfa/Method.antt =====
-- packages/mfa/domain/entities/mfa-method.ts: an enrolled second factor. `createId` and `new Date()`
-- are arguments; what throws is none. Times are milliseconds.
use verixa.Prelude.{
  ℕ, ◌+◌, ◌-◌, ◌*◌, ◌^◌, min, String, Bool, true, false, not, List, Option, none, some, ltb, leb,
  if◌then◌else◌,
}

pub data MfaMethodType : Type 0 where
  totp : MfaMethodType
  webauthn : MfaMethodType
  backup_codes : MfaMethodType

pub data MfaMethodStatus : Type 0 where
  pending : MfaMethodStatus
  active : MfaMethodStatus
  disabled : MfaMethodStatus

-- A stored secret: the JSON text of a list of texts, as that list, or any other text.
pub data Secret : Type 0 where
  plain : String → Secret
  json : List String → Secret

pub record MfaMethod : Type 0 where
  pub id : String
  pub user_id : String
  pub type : MfaMethodType
  pub status : MfaMethodStatus
  pub secret : Option Secret
  pub last_used_at : Option ℕ
  pub created_at : ℕ
  pub updated_at : ℕ
  pub failed_attempts : ℕ
  pub locked_until : Option ℕ
  pub last_used_step : Option ℕ

abbrev pub lockout_threshold : ℕ
lockout_threshold = 5

abbrev pub lockout_base_ms : ℕ
lockout_base_ms = 60000

abbrev pub max_lockout_ms : ℕ
max_lockout_ms = 3600000

unfoldable pub create : String → String → MfaMethodType → Option Secret → ℕ → MfaMethod
create id user_id type secret now = record {
  id = id;
  user_id = user_id;
  type = type;
  status = pending;
  secret = secret;
  last_used_at = none;
  created_at = now;
  updated_at = now;
  failed_attempts = 0;
  locked_until = none;
  last_used_step = none;
}

abbrev pub create_pending_totp : String → String → String → ℕ → MfaMethod
create_pending_totp id user_id secret now = create id user_id totp (some (plain secret)) now

abbrev pub create_active : String → String → MfaMethodType → ℕ → MfaMethod
create_active id user_id type now = record (create id user_id type none now) { status = active }

abbrev pub is_active : MfaMethodStatus → Bool
is_active pending = false
is_active active = true
is_active disabled = false

abbrev pub is_pending : MfaMethodStatus → Bool
is_pending pending = true
is_pending active = false
is_pending disabled = false

abbrev pub is_disabled : MfaMethodStatus → Bool
is_disabled pending = false
is_disabled active = false
is_disabled disabled = true

unfoldable pub activate : ℕ → MfaMethod → Option MfaMethod
activate now m =
    if is_active m.status
    then none
    else some
        (record m { status = active; failed_attempts = 0; locked_until = none; updated_at = now })

unfoldable pub disable : ℕ → MfaMethod → Option MfaMethod
disable now m =
    if is_disabled m.status then none else some (record m { status = disabled; updated_at = now })

unfoldable pub update_secret : Secret → ℕ → MfaMethod → MfaMethod
update_secret secret now m = record m { secret = some secret; updated_at = now }

abbrev pub clear_secret : ℕ → MfaMethod → MfaMethod
clear_secret now m = record m { secret = none; updated_at = now }

abbrev pub is_before : ℕ → Option ℕ → Bool
is_before now none = false
is_before now (some until) = ltb now until

unfoldable pub is_locked_at : ℕ → MfaMethod → Bool
is_locked_at now m = is_before now m.locked_until

-- The exponent is taken at or above the threshold only.
unfoldable pub lock_after : ℕ → ℕ → Option ℕ
lock_after attempts now =
    if leb lockout_threshold attempts
    then some (now + min (lockout_base_ms * 2 ^ (attempts - lockout_threshold)) max_lockout_ms)
    else none

unfoldable pub record_failed_attempt : ℕ → MfaMethod → MfaMethod
record_failed_attempt now m = record m {
  failed_attempts = m.failed_attempts + 1;
  locked_until = lock_after (m.failed_attempts + 1) now;
  updated_at = now;
}

unfoldable pub record_use : ℕ → MfaMethod → Option MfaMethod
record_use now m =
    if is_active m.status
    then some (record m {
      last_used_at = some now;
      failed_attempts = 0;
      locked_until = none;
      updated_at = now;
    })
    else none

abbrev pub is_replay : ℕ → Option ℕ → Bool
is_replay step none = false
is_replay step (some last) = leb step last

abbrev pub with_step : ℕ → Option MfaMethod → Option MfaMethod
with_step step none = none
with_step step (some m) = some (record m { last_used_step = some step })

unfoldable pub record_totp_use : ℕ → ℕ → MfaMethod → Option MfaMethod
record_totp_use step now m =
    if not (is_active m.status)
    then none
    else if is_replay step m.last_used_step
    then none
    else with_step step (record_use now m)
