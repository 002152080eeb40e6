-- ===== src/Kernel/BruteForce.antt =====
-- packages/shared-kernel/application/services/brute-force-policy.ts, over the store of
-- infrastructure/in-memory-brute-force-attempt-store.ts. `Date.now()` is an argument, and so is the
-- answer of the rate limiter, if there is one.
pub mod Gate
mod Tests
use Prim.Native.String.{◌++◌}
use verixa.Prelude.{
  ℕ, ◌+◌, ◌-◌, ◌*◌, ◌/◌, ◌^◌, min, max, String, Bool, true, false, not, ◌&&◌, Option, none, some,
  ltb, eqb, if◌then◌else◌,
}
use verixa.Prelude.Dict.{Dict, get, set, delete}

pub data BruteForceScope : Type 0 where
  login mfa password_reset api_key : BruteForceScope

pub record BruteForceThresholds : Type 0 where
  pub threshold : ℕ
  pub base_duration_ms : ℕ
  pub backoff_factor : ℕ
  pub max_duration_ms : ℕ

abbrev pub default_brute_force_thresholds : BruteForceThresholds
default_brute_force_thresholds = record {
  threshold = 5;
  base_duration_ms = 60000;
  backoff_factor = 2;
  max_duration_ms = 3600000;
}

pub data BruteForceDenialSource : Type 0 where
  lockout rate_limit both : BruteForceDenialSource

pub record BruteForceDecision : Type 0 where
  pub allowed : Bool
  pub retry_after_seconds : Option ℕ
  pub source : Option BruteForceDenialSource

pub record AttemptRecord : Type 0 where
  pub failed_attempts : ℕ
  pub locked_until : Option ℕ

-- The answer of the rate limiter.
pub record RateLimitResult : Type 0 where
  pub allowed : Bool
  pub reset_at : ℕ

abbrev pub Attempts : Type 0
Attempts = Dict AttemptRecord

abbrev pub record_or_none : Option AttemptRecord → AttemptRecord
record_or_none none = record { failed_attempts = 0; locked_until = none }
record_or_none (some r) = r

abbrev pub read : String → Attempts → AttemptRecord
read key st = record_or_none (get key st)

abbrev pub store_record_failure : String → Option ℕ → Attempts → Attempts
store_record_failure key locked_until st =
    set key
      (record { failed_attempts = (read key st).failed_attempts + 1; locked_until = locked_until })
      st

abbrev scope_text : BruteForceScope → String
scope_text login = "login"
scope_text mfa = "mfa"
scope_text password_reset = "password-reset"
scope_text api_key = "api-key"

-- The number of failures is at or above the threshold where the subtraction is made.
unfoldable pub lock_duration_ms : ℕ → BruteForceThresholds → ℕ
lock_duration_ms failed_attempts thresholds =
    let steps_past_threshold = failed_attempts - thresholds.threshold in
    let uncapped =
      if ltb 64 steps_past_threshold
      then thresholds.max_duration_ms
      else thresholds.base_duration_ms * thresholds.backoff_factor ^ steps_past_threshold in
    if ltb failed_attempts thresholds.threshold then 0 else min uncapped thresholds.max_duration_ms

abbrev pub lock_until : BruteForceThresholds → ℕ → ℕ → Option ℕ
lock_until thresholds failed_attempts now =
    let duration_ms = lock_duration_ms failed_attempts thresholds in
    if eqb duration_ms 0 then none else some (now + duration_ms)

abbrev pub remaining_lock_ms : Option ℕ → ℕ → ℕ
remaining_lock_ms none now = 0
remaining_lock_ms (some until) now = until - now

abbrev has_lock : Option ℕ → Bool
has_lock none = false
has_lock (some _) = true

-- `Math.ceil(ms / 1000)`
abbrev ceil_seconds : ℕ → ℕ
ceil_seconds ms = (ms + 999) / 1000

abbrev seconds_until : ℕ → ℕ → Option ℕ
seconds_until reset_at now = if ltb now reset_at then some (ceil_seconds (reset_at - now)) else none

abbrev pub limited : Option RateLimitResult → Bool
limited none = false
limited (some s) = not s.allowed

abbrev limiter_seconds : Option RateLimitResult → ℕ → Option ℕ
limiter_seconds none now = none
limiter_seconds (some s) now = if s.allowed then none else seconds_until s.reset_at now

abbrev later : Option ℕ → Option ℕ → Option ℕ
later none b = b
later (some a) none = some a
later (some a) (some b) = some (max a b)

abbrev decision : Bool → Bool → Option ℕ → BruteForceDecision
decision false false seconds = record { allowed = true; retry_after_seconds = none; source = none }
decision true true seconds = record {
  allowed = false;
  retry_after_seconds = seconds;
  source = some both;
}
decision true false seconds = record {
  allowed = false;
  retry_after_seconds = seconds;
  source = some lockout;
}
decision false true seconds = record {
  allowed = false;
  retry_after_seconds = seconds;
  source = some rate_limit;
}

-- The policy over a key: what `check`, `recordFailure` and `recordSuccess` do with it.
module _ (thresholds : BruteForceThresholds) where
  pub check_key : String → ℕ → Option RateLimitResult → Attempts → Attempts × BruteForceDecision
  check_key key now limit st =
      let locked_until = (read key st).locked_until in
      let remaining_ms = remaining_lock_ms locked_until now in
      let locked = ltb 0 remaining_ms in
      (
        if not locked && has_lock locked_until then delete key st else st,
        decision locked (limited limit) (
            later (if locked then some (ceil_seconds remaining_ms) else none)
              (limiter_seconds limit now)),
      )

  pub record_failure_key : String → ℕ → Attempts → Attempts
  unfolding lock_duration_ms
  record_failure_key key now st =
      store_record_failure key (lock_until thresholds ((read key st).failed_attempts + 1) now) st

-- `key`, where `normalise` is `trim().toLowerCase()`.
abbrev pub attempt_key : (String → String) → BruteForceScope → String → String
attempt_key normalise scope identifier = scope_text scope ++ (":" ++ normalise identifier)

module _ (thresholds : BruteForceThresholds) (normalise : String → String) where
  unfoldable pub check :
      BruteForceScope
      → String
      → ℕ
      → Option RateLimitResult
      → Attempts
      → Attempts × BruteForceDecision
  check scope identifier now limit st =
      check_key thresholds (attempt_key normalise scope identifier) now limit st

  unfoldable pub record_failure : BruteForceScope → String → ℕ → Attempts → Attempts
  record_failure scope identifier now st =
      record_failure_key thresholds (attempt_key normalise scope identifier) now st

  unfoldable pub record_success : BruteForceScope → String → Attempts → Attempts
  record_success scope identifier st = delete (attempt_key normalise scope identifier) st
