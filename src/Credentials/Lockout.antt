-- ===== src/Credentials/Lockout.antt =====
-- packages/credentials/domain/value-objects/lockout-policy.ts. The policy's numbers are integers, so
-- that the source's products below 2^53 are exact.
pub mod Growth
pub mod Agreement
use verixa.Prelude.{ℕ, ◌+◌, ◌-◌, ◌*◌, ◌^◌, min, Bool, ltb, if◌then◌else◌}

pub record LockoutPolicy : Type 0 where
  pub threshold : ℕ
  pub base_duration_ms : ℕ
  pub backoff_factor : ℕ
  pub max_duration_ms : ℕ

abbrev pub default_lockout_policy : LockoutPolicy
default_lockout_policy = record {
  threshold = 5;
  base_duration_ms = 60000;
  backoff_factor = 2;
  max_duration_ms = 3600000;
}

-- The subtraction is made at or above the threshold only.
unfoldable pub lock_duration_ms : ℕ → LockoutPolicy → ℕ
lock_duration_ms failed_attempts policy =
    let steps = failed_attempts - policy.threshold in
    let uncapped =
      if ltb 64 steps
      then policy.max_duration_ms
      else policy.base_duration_ms * policy.backoff_factor ^ steps in
    if ltb failed_attempts policy.threshold then 0 else min uncapped policy.max_duration_ms
