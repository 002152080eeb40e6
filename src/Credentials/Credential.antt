-- ===== src/Credentials/Credential.antt =====
-- packages/credentials/domain/entities/credential.ts: the password credential of a user. A hash is an
-- opaque text; the password hasher's `verify` is an argument. `new Date()` is an argument.
pub mod Locking
pub mod History
mod Tests
use verixa.Prelude.{
  ℕ, ◌+◌, String, Bool, true, false, ◌&&◌, ◌||◌, List, [], ◌∷◌, Option, none, some, ltb, eqb,
  if◌then◌else◌, take,
}
use verixa.Credentials.Lockout.{LockoutPolicy, lock_duration_ms}

pub record Credential : Type 0 where
  pub id : String
  pub user_id : String
  pub password_hash : String
  pub failed_attempts : ℕ
  pub locked_until : Option ℕ
  pub password_history : List String
  pub created_at : ℕ
  pub updated_at : ℕ

pub record PasswordHistoryPolicy : Type 0 where
  pub depth : ℕ

-- `"[DELETED]"`, stored in the place of a hash.
abbrev pub deleted_sentinel : String
deleted_sentinel = "[DELETED]"

unfoldable pub create : String → String → String → ℕ → Credential
create id user_id password_hash now = record {
  id = id;
  user_id = user_id;
  password_hash = password_hash;
  failed_attempts = 0;
  locked_until = none;
  password_history = [];
  created_at = now;
  updated_at = now;
}

pub with_password_hash : String → ℕ → Credential → Credential
with_password_hash password_hash now c = record c {
  password_hash = password_hash;
  failed_attempts = 0;
  locked_until = none;
  updated_at = now;
}

abbrev pub in_future : Option ℕ → ℕ → Bool
in_future none now = false
in_future (some until) now = ltb now until

unfoldable pub is_locked_at : Credential → ℕ → Bool
is_locked_at c now = in_future c.locked_until now

unfoldable pub record_failed_attempt : LockoutPolicy → ℕ → Credential → Credential
record_failed_attempt policy now c =
    let failed_attempts = c.failed_attempts + 1 in
    let duration = lock_duration_ms failed_attempts policy in
    record c {
      failed_attempts = failed_attempts;
      locked_until = if eqb duration 0 then c.locked_until else some (now + duration);
      updated_at = now;
    }

pub invalidate_for_deleted_user : ℕ → Credential → Credential
invalidate_for_deleted_user now c = record c {
  password_hash = deleted_sentinel;
  failed_attempts = 0;
  locked_until = none;
  password_history = [];
  updated_at = now;
}

abbrev pub is_none {ℓ} : {A : Type ℓ} → Option A → Bool
is_none none = true
is_none (some _) = false

unfoldable pub record_successful_attempt : ℕ → Credential → Credential
record_successful_attempt now c =
    if eqb c.failed_attempts 0 && is_none c.locked_until
    then c
    else record c { failed_attempts = 0; locked_until = none; updated_at = now }

unfoldable pub matches_any : (String → String → Bool) → String → List String → Bool
matches_any verify candidate [] = false
matches_any verify candidate (hash ∷ hashes) =
    let rest = matches_any verify candidate hashes in if verify candidate hash then true else rest

unfoldable pub is_password_reused : (String → String → Bool) → String → Credential → Bool
unfolding matches_any
is_password_reused verify candidate c =
    if verify candidate c.password_hash
    then true
    else matches_any verify candidate c.password_history

unfoldable pub rotate_password : String → PasswordHistoryPolicy → ℕ → Credential → Credential
rotate_password new_password_hash policy now c = record c {
  password_hash = new_password_hash;
  password_history = take policy.depth (c.password_hash ∷ c.password_history);
  failed_attempts = 0;
  locked_until = none;
  updated_at = now;
}
