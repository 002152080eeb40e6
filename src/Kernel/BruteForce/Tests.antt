-- ===== src/Kernel/BruteForce/Tests.antt =====
-- Two wrong passwords against a threshold of two.
use verixa.Prelude.{
  ◌+◌, String, not, ◌&&◌, [], ◌∷◌, none, some, ◌≡◌, ◌≢◌, refl, arith, eq_iff, leb, false,
}
use verixa.Prelude.Dict.{get, set, delete}
use verixa.Kernel.BruteForce.{
  BruteForceThresholds, Attempts, default_brute_force_thresholds, login, lock_duration_ms, limited,
  attempt_key, check_key, check, record_failure, record_failure_key, record_success,
}
use verixa.Kernel.BruteForce.Gate.{fail_all, check_key-fail_all}

abbrev strict : BruteForceThresholds
strict = record default_brute_force_thresholds { threshold = 2 }

abbrev ann_key : String
ann_key = attempt_key (λ i. i) login "ann"

abbrev bob_key : String
bob_key = attempt_key (λ i. i) login "bob"

abbrev locked : Attempts
locked = (ann_key, record { failed_attempts = 2; locked_until = some 60020 }) ∷ []

two_failures_lock :
    record_failure strict (λ i. i) login "ann" 20 (record_failure strict (λ i. i) login "ann" 10 [])
    ≡ locked
unfolding record_failure record_failure_key lock_duration_ms get set
two_failures_lock = refl

refused_while_locked : (check strict (λ i. i) login "ann" 30 none locked).1.allowed ≡ false
unfolding check check_key get
refused_while_locked = refl

success_forgets : record_success strict (λ i. i) login "ann" locked ≡ []
unfolding record_success delete
success_forgets = refl

ann_is_not_bob : ann_key ≢ bob_key
ann_is_not_bob e = ground (arith, eq_iff ann_key bob_key)

check_key-fail_all_example :
    (check_key strict ann_key 30 none (fail_all strict ann_key (10 ∷ 20 ∷ []) [])).1.allowed
    ≡ (not (limited none) && leb (20 + lock_duration_ms 2 strict) 30)
unfolding get
check_key-fail_all_example =
    check_key-fail_all strict ann_key (10 ∷ []) 20 30 none [] refl (omega arith)
