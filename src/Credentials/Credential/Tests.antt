-- ===== src/Credentials/Credential/Tests.antt =====
-- A credential with three failures against a threshold of two, and two password changes.
use verixa.Prelude.{true, false, [], ◌∷◌, none, some, ◌≡◌, refl, arith}
use verixa.Credentials.Lockout.{LockoutPolicy, lock_duration_ms, default_lockout_policy}
use verixa.Credentials.Credential.{
  Credential, PasswordHistoryPolicy, create, is_locked_at, record_failed_attempt,
}
use verixa.Credentials.Credential.Locking.{
  fail_at, IsLocking, IsClear, lock_of, locked_until-fail_at, lock_not_shortened,
}

abbrev strict : LockoutPolicy
strict = record default_lockout_policy { threshold = 2 }

strict-IsLocking : IsLocking strict
strict-IsLocking = omega arith

abbrev fresh : Credential
fresh = record {
  id = "c1";
  user_id = "u1";
  password_hash = "h0";
  failed_attempts = 0;
  locked_until = none;
  password_history = [];
  created_at = 0;
  updated_at = 0;
}

fresh_created : create "c1" "u1" "h0" 0 ≡ fresh
unfolding create
fresh_created = refl

fresh-IsClear : IsClear fresh
fresh-IsClear = record { failed_attempts = refl; locked_until = refl }

locked_until-fail_at_example :
    (fail_at strict (10 ∷ 20 ∷ 30 ∷ []) fresh).locked_until ≡ lock_of strict 3 30
locked_until-fail_at_example =
    locked_until-fail_at strict fresh strict-IsLocking fresh-IsClear (10 ∷ 20 ∷ []) 30

lock_after_three : (fail_at strict (10 ∷ 20 ∷ 30 ∷ []) fresh).locked_until ≡ some 120030
unfolding fail_at record_failed_attempt lock_duration_ms
lock_after_three = refl

locked_at_two : is_locked_at (fail_at strict (10 ∷ 20 ∷ []) fresh) 60019 ≡ true
unfolding fail_at is_locked_at record_failed_attempt lock_duration_ms
locked_at_two = refl

lock_not_shortened_example : is_locked_at (fail_at strict (10 ∷ 20 ∷ 30 ∷ []) fresh) 60019 ≡ true
lock_not_shortened_example =
    lock_not_shortened strict fresh strict-IsLocking fresh-IsClear (10 ∷ []) 20 30 60019
      (omega arith) locked_at_two

fresh_free : is_locked_at fresh 5 ≡ false
unfolding is_locked_at
fresh_free = refl

abbrev depth_1 : PasswordHistoryPolicy
depth_1 = record { depth = 1 }
