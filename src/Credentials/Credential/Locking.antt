-- ===== src/Credentials/Credential/Locking.antt =====
-- Runs of failed attempts on a credential, and the lock that they earn.
use verixa.Prelude.{
  ℕ, ◌+◌, ◌≤◌, ◌<◌, true, false, List, [], ◌∷◌, Option, none, some, ◌≡◌, ◌↔◌, refl, arith, leb,
  length, ◌++◌, length-append, if◌then◌else◌,
}
use verixa.Credentials.Lockout.{LockoutPolicy, lock_duration_ms}
use verixa.Credentials.Lockout.Growth.{
  duration_bounded, duration_below_threshold, duration_monotone, duration_positive,
}
use verixa.Credentials.Credential.{
  Credential, is_locked_at, record_failed_attempt, record_successful_attempt,
}

-- Failed attempts at the times given, the first one first.
unfoldable pub fail_at : LockoutPolicy → List ℕ → Credential → Credential
fail_at policy [] c = c
fail_at policy (now ∷ times) c = fail_at policy times (record_failed_attempt policy now c)

pub failed_attempts-fail_at :
    (policy : LockoutPolicy) (times : List ℕ) (c : Credential)
    → (fail_at policy times c).failed_attempts ≡ c.failed_attempts + length times
unfolding fail_at record_failed_attempt
failed_attempts-fail_at policy [] c = omega arith
failed_attempts-fail_at policy (now ∷ times) c =
    omega (arith, failed_attempts-fail_at policy times (record_failed_attempt policy now c))

-- A policy that can lock: positive numbers throughout.
pub record IsLocking (policy : LockoutPolicy) : Type 0 where
  pub factor : 1 ≤ policy.backoff_factor
  pub base : 1 ≤ policy.base_duration_ms
  pub max : 1 ≤ policy.max_duration_ms

-- For a policy whose factor, base and maximum are positive, a failed attempt on a credential
-- that is not locked at that time locks it at that time exactly when the count of failures with
-- this one reaches the threshold.
pub locked_iff :
    (policy : LockoutPolicy) (now : ℕ) (c : Credential)
    → IsLocking policy
    → is_locked_at c now ≡ false
    → (is_locked_at (record_failed_attempt policy now c) now ≡ true)
      ↔ (policy.threshold ≤ c.failed_attempts + 1)
unfolding is_locked_at record_failed_attempt
locked_iff policy now c v free = (
  λ h. ground (arith, duration_below_threshold (c.failed_attempts + 1) policy),
  λ h. ground (arith, duration_positive (c.failed_attempts + 1) policy v.factor v.base v.max h),
)

fail_at-snoc :
    (policy : LockoutPolicy) (times : List ℕ) (now : ℕ) (c : Credential)
    → fail_at policy (times ++ now ∷ []) c
      ≡ record_failed_attempt policy now (fail_at policy times c)
unfolding fail_at
fail_at-snoc policy [] now c = refl
fail_at-snoc policy (t ∷ times) now c =
    fail_at-snoc policy times now (record_failed_attempt policy t c)

unlocked_below_threshold :
    (policy : LockoutPolicy) (times : List ℕ) (c : Credential)
    → c.locked_until ≡ none
    → c.failed_attempts + length times < policy.threshold
    → (fail_at policy times c).locked_until ≡ none
unfolding fail_at record_failed_attempt
unlocked_below_threshold policy [] c u h = u
unlocked_below_threshold policy (t ∷ times) c u h =
    unlocked_below_threshold policy times (record_failed_attempt policy t c)
      (ground (arith, duration_below_threshold (c.failed_attempts + 1) policy)) (omega arith)

-- The lock that the policy sets for a run of `n` failures, the last one at `now`.
abbrev pub lock_of : LockoutPolicy → ℕ → ℕ → Option ℕ
lock_of policy n now =
    if leb policy.threshold n then some (now + lock_duration_ms n policy) else none

-- A credential with no failure counted and no lock.
pub record IsClear (c : Credential) : Type 0 where
  pub failed_attempts : c.failed_attempts ≡ 0
  pub locked_until : c.locked_until ≡ none

module _ (policy : LockoutPolicy) (c : Credential) (locking : IsLocking policy)
    (clear : IsClear c) where
  -- For a policy whose factor, base and maximum are positive, and a credential with no failure
  -- counted and no lock, the lock after a run of failed attempts is none when the run is shorter
  -- than the threshold, and otherwise ends the policy's duration for that many failures after
  -- the last of them.
  pub locked_until-fail_at :
      (times : List ℕ) (now : ℕ)
      → (fail_at policy (times ++ now ∷ []) c).locked_until ≡ lock_of policy (length times + 1) now
  unfolding record_failed_attempt
  locked_until-fail_at times now = rw (fail_at-snoc policy times now c) (
      ground (
        arith,
        clear.failed_attempts,
        clear.locked_until,
        failed_attempts-fail_at policy times c,
        duration_below_threshold (length times + 1) policy,
        duration_positive (length times + 1) policy locking.factor locking.base locking.max,
        unlocked_below_threshold policy times c,
      ))

  -- For a policy whose factor, base and maximum are positive, and a credential that had no
  -- failure counted and no lock, one more failed attempt that is not earlier than the last
  -- leaves the credential locked at every moment at which it was locked.
  pub lock_not_shortened :
      (times : List ℕ) (before now at : ℕ)
      → before ≤ now
      → is_locked_at (fail_at policy (times ++ before ∷ []) c) at ≡ true
      → is_locked_at (fail_at policy ((times ++ before ∷ []) ++ now ∷ []) c) at ≡ true
  unfolding is_locked_at
  lock_not_shortened times before now at h l = ground (
    arith,
    locked_until-fail_at times before,
    locked_until-fail_at (times ++ before ∷ []) now,
    length-append times (before ∷ []),
    duration_monotone (length times + 1) (length (times ++ before ∷ []) + 1) policy locking.factor,
  )

  -- For a policy whose factor, base and maximum are positive, and a credential that had no
  -- failure counted and no lock, the lock after any run of failed attempts is over once the
  -- policy's longest duration has passed since the last of them.
  lock_bounded :
      (times : List ℕ) (now : ℕ)
      → is_locked_at (fail_at policy (times ++ now ∷ []) c) (now + policy.max_duration_ms) ≡ false
  unfolding is_locked_at
  lock_bounded times now =
      ground (arith, locked_until-fail_at times now, duration_bounded (length times + 1) policy)

-- After a success a run begins anew.
pub record_successful_attempt-IsClear :
    (now : ℕ) (c : Credential) → IsClear (record_successful_attempt now c)
unfolding record_successful_attempt
record_successful_attempt-IsClear now c = ground arith
