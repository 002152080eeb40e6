-- ===== src/Credentials/Lockout/Growth.antt =====
-- The length of a lock: bounded, none below the threshold, and never shorter for more failures.
use native.Mathlib.Nat.{pow-le-pow_right, pow-zero}
use verixa.Prelude.{ℕ, ◌-◌, ◌*◌, ◌^◌, ◌≤◌, ◌<◌, ◌≡◌, arith}
use verixa.Credentials.Lockout.{LockoutPolicy, lock_duration_ms}

pub duration_bounded :
    (n : ℕ) (policy : LockoutPolicy) → lock_duration_ms n policy ≤ policy.max_duration_ms
unfolding lock_duration_ms
duration_bounded n policy = ground arith

pub duration_below_threshold :
    (n : ℕ) (policy : LockoutPolicy) → n < policy.threshold → lock_duration_ms n policy ≡ 0
unfolding lock_duration_ms
duration_below_threshold n policy h = ground arith

backoff_mono : (base factor m n : ℕ) → 1 ≤ factor → m ≤ n → base * factor ^ m ≤ base * factor ^ n
backoff_mono base factor m n f h = grind (arith, pow-le-pow_right f {i = m} {j = n} h)

backoff_at_least : (base factor n : ℕ) → 1 ≤ factor → base ≤ base * factor ^ n
backoff_at_least base factor n f =
    grind (arith, pow-le-pow_right f {i = 0} {j = n} (omega arith), pow-zero factor)

-- For a policy with a positive factor, more failures never give a shorter lock.
pub duration_monotone :
    (m n : ℕ) (policy : LockoutPolicy)
    → 1 ≤ policy.backoff_factor
    → m ≤ n
    → lock_duration_ms m policy ≤ lock_duration_ms n policy
unfolding lock_duration_ms
duration_monotone m n policy f h = ground (
  arith,
  backoff_mono policy.base_duration_ms policy.backoff_factor (m - policy.threshold)
      (n - policy.threshold) f (omega arith),
)

pub duration_positive :
    (n : ℕ) (policy : LockoutPolicy)
    → 1 ≤ policy.backoff_factor
    → 1 ≤ policy.base_duration_ms
    → 1 ≤ policy.max_duration_ms
    → policy.threshold ≤ n
    → 1 ≤ lock_duration_ms n policy
unfolding lock_duration_ms
duration_positive n policy f b m h =
    ground (
      arith,
      backoff_at_least policy.base_duration_ms policy.backoff_factor (n - policy.threshold) f,
    )
