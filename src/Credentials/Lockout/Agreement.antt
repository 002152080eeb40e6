-- ===== src/Credentials/Lockout/Agreement.antt =====
-- The lock of a credential and the gate against repeated guessing, whose arithmetic is written twice.
use verixa.Prelude.{ℕ, ◌≡◌, refl}
use verixa.Kernel.BruteForce
use verixa.Kernel.BruteForce.{BruteForceThresholds, default_brute_force_thresholds}
use verixa.Credentials.Lockout.{LockoutPolicy, lock_duration_ms, default_lockout_policy}

abbrev pub as_policy : BruteForceThresholds → LockoutPolicy
as_policy t = record {
  threshold = t.threshold;
  base_duration_ms = t.base_duration_ms;
  backoff_factor = t.backoff_factor;
  max_duration_ms = t.max_duration_ms;
}

-- For the same numbers the gate against guessing and the lockout of a credential give the same
-- duration for every count of failures, and their default numbers are the same.
pub lock_durations_agree :
    (n : ℕ) (t : BruteForceThresholds)
    → (BruteForce.lock_duration_ms n t ≡ lock_duration_ms n (as_policy t))
      × (as_policy default_brute_force_thresholds ≡ default_lockout_policy)
unfolding BruteForce.lock_duration_ms lock_duration_ms
lock_durations_agree n t = (refl, refl)
