-- ===== src/Kernel/BruteForce/Gate.antt =====
-- When the gate refuses an attempt.
use verixa.Prelude.{
  ℕ, ◌+◌, ◌≤◌, String, not, ◌&&◌, List, [], ◌∷◌, ◌++◌, Option, none, some, ◌≡◌, ◌≢◌, refl, arith,
  eq_iff, eq_refl, leb, length, ap, ◌∙◌,
}
use verixa.Prelude.Dict.{get, get-set, get-delete}
use verixa.Kernel.BruteForce.{
  BruteForceThresholds, RateLimitResult, Attempts, AttemptRecord, read, record_or_none,
  lock_duration_ms, lock_until, limited, check_key, record_failure_key,
}

-- What is stored of a key after some failures, the last one at the time given.
abbrev failed : BruteForceThresholds → ℕ → ℕ → AttemptRecord
failed thresholds n now = record { failed_attempts = n; locked_until = lock_until thresholds n now }

module _ (thresholds : BruteForceThresholds) where
  -- Failures on one key at the times given, the first one first.
  unfoldable pub fail_all : String → List ℕ → Attempts → Attempts
  fail_all key [] st = st
  fail_all key (now ∷ times) st = fail_all key times (record_failure_key thresholds key now st)

  read-record_failure_key :
      (key : String) (now : ℕ) (st : Attempts)
      → read key (record_failure_key thresholds key now st)
        ≡ failed thresholds ((read key st).failed_attempts + 1) now
  unfolding record_failure_key
  read-record_failure_key key now st =
      rw (
        get-set key key (failed thresholds ((read key st).failed_attempts + 1) now) st,
        eq_refl key,
      )

  read-fail_all :
      (key : String) (times : List ℕ) (now : ℕ) (st : Attempts)
      → read key (fail_all key (times ++ now ∷ []) st)
        ≡ failed thresholds ((read key st).failed_attempts + (length times + 1)) now
  unfolding fail_all
  read-fail_all key [] now st = read-record_failure_key key now st
  read-fail_all key (t ∷ times) now st =
      read-fail_all key times now (record_failure_key thresholds key t st)
      ∙ ap (λ n. failed thresholds n now)
          (omega (
            arith,
            ap (λ (r : AttemptRecord). r.failed_attempts) (read-record_failure_key key t st),
          ))

  stored-fail_all :
      (key : String) (times : List ℕ) (now : ℕ) (st : Attempts)
      → get key st ≡ none
      → (read key (fail_all key (times ++ now ∷ []) st)).locked_until
        ≡ lock_until thresholds (length times + 1) now
  stored-fail_all key times now st free =
      ap (λ (r : AttemptRecord). r.locked_until) (read-fail_all key times now st)
      ∙ ap (λ n. lock_until thresholds n now)
          (omega (arith, ap (λ o. (record_or_none o).failed_attempts) free))

  allowed-lock_until :
      (n now at : ℕ) (limit : Option RateLimitResult) (key : String) (st : Attempts)
      → now ≤ at
      → (read key st).locked_until ≡ lock_until thresholds n now
      → (check_key thresholds key at limit st).1.allowed
        ≡ (not (limited limit) && leb (now + lock_duration_ms n thresholds) at)
  unfolding check_key
  allowed-lock_until n now at limit key st h l = ground arith

-- After a run of failures on a key of which nothing was stored, a check that is not earlier than
-- the last failure allows an attempt exactly when the rate limiter does not refuse it and the
-- duration of the lock for that many failures has passed since the last of them.
pub check_key-fail_all :
    (thresholds : BruteForceThresholds) (key : String) (times : List ℕ) (now at : ℕ)
    (limit : Option RateLimitResult) (st : Attempts)
    → get key st ≡ none
    → now ≤ at
    → (check_key thresholds key at limit (fail_all thresholds key (times ++ now ∷ []) st)).1.allowed
      ≡ (not (limited limit) && leb (now + lock_duration_ms (length times + 1) thresholds) at)
check_key-fail_all thresholds key times now at limit st free h =
    allowed-lock_until thresholds (length times + 1) now at limit key
      (fail_all thresholds key (times ++ now ∷ []) st) h
      (stored-fail_all thresholds key times now st free)

get_other :
    (thresholds : BruteForceThresholds) (key other : String) (now : ℕ) (st : Attempts)
    → key ≢ other
    → get other (record_failure_key thresholds key now st) ≡ get other st
unfolding record_failure_key
get_other thresholds key other now st d = ground (
  arith,
  eq_iff key other,
  get-set key other (failed thresholds ((read key st).failed_attempts + 1) now) st,
)

read_other :
    (thresholds : BruteForceThresholds) (key other : String) (times : List ℕ) (st : Attempts)
    → key ≢ other
    → read other (fail_all thresholds key times st) ≡ read other st
unfolding fail_all record_failure_key
read_other thresholds key other [] st d = refl
read_other thresholds key other (now ∷ times) st d =
    read_other thresholds key other times (record_failure_key thresholds key now st) d
    ∙ ap record_or_none (get_other thresholds key other now st d)

-- Failures on one key do not change the decision on another key.
pub check_key_isolated :
    (thresholds : BruteForceThresholds) (key other : String) (times : List ℕ) (at : ℕ)
    (limit : Option RateLimitResult) (st : Attempts)
    → key ≢ other
    → (check_key thresholds other at limit (fail_all thresholds key times st)).1
      ≡ (check_key thresholds other at limit st).1
unfolding check_key
check_key_isolated thresholds key other times at limit st d =
    rw (read_other thresholds key other times st d)

-- A check of a key whose lock is over at the time of the check leaves nothing stored of the key.
pub check_forgets :
    (thresholds : BruteForceThresholds) (key : String) (at : ℕ) (limit : Option RateLimitResult)
    (st : Attempts) (until : ℕ)
    → (read key st).locked_until ≡ some until
    → until ≤ at
    → get key (check_key thresholds key at limit st).0 ≡ none
unfolding check_key
check_forgets thresholds key at limit st until l h =
    ground (arith, get-delete key key st, eq_iff key key)
