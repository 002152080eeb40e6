-- ===== src/Mfa/Backup.antt =====
-- packages/mfa/application/use-cases/consume-backup-code.ts and generate-backup-codes.ts,
-- domain/services/backup-code-set.ts, recover-mfa-access.ts: single-use codes, kept as a list of
-- hashes, and the recovery that clears every method. `argon2Verify` is an argument, and so are the
-- generated codes with their hashes. A code is a list of code points.
pub mod SingleUse
mod Tests
use verixa.Prelude.{
  ℕ, ◌+◌, ◌-◌, String, Bool, true, false, not, ◌&&◌, ◌||◌, List, [], ◌∷◌, ◌++◌, Option, none, some,
  ltb, leb, eqb, ◌==◌, if◌then◌else◌, length, take, drop, filter,
}
use verixa.Prelude.Text.{Text}
use verixa.Mfa.Method.{
  MfaMethod, MfaMethodType, totp, webauthn, backup_codes, Secret, plain, json, create, activate,
  update_secret,
}
use verixa.Mfa.Store.{
  Methods, save, find_active_by_user_id, find_pending_by_user_id, find_all_by_user_id, delete_each,
}

-- `toUpperCase` and `replace(/[^A-Z0-9]/g, "")`. The few letters outside ASCII with an upper case in
-- it, such as the sharp s, are not represented.
abbrev pub upper : ℕ → ℕ
upper c = if leb 97 c && leb c 122 then c - 32 else c

abbrev pub is_code_char : ℕ → Bool
is_code_char c = leb 65 c && leb c 90 || (leb 48 c && leb c 57)

unfoldable pub normalized : Text → Text
normalized [] = []
normalized (c ∷ s) =
    let rest = normalized s in if is_code_char (upper c) then upper c ∷ rest else rest

abbrev pub expected_format : Text → Text
expected_format raw = take 5 (normalized raw) ++ 45 ∷ drop 5 (normalized raw)

-- `argon2Verify`
abbrev pub Verifier : Type 0
Verifier = String → Text → Bool

-- `BackupCodeSet.verify`
abbrev pub verify : Verifier → Text → String → Bool
verify argon2_verify raw hash = argon2_verify hash (expected_format raw)

pub data Outcome : Type 0 where
  ok : ℕ → Outcome
  exhausted : Outcome
  failed : Outcome

abbrev pub is_backup : MfaMethodType → Bool
is_backup totp = false
is_backup webauthn = false
is_backup backup_codes = true

unfoldable pub find_backup : List MfaMethod → Option MfaMethod
find_backup [] = none
find_backup (m ∷ ms) = if is_backup m.type then some m else find_backup ms

-- `parseStoredHashes`
abbrev pub parse_stored_hashes : Option Secret → Option (List String)
parse_stored_hashes none = none
parse_stored_hashes (some (plain s)) = none
parse_stored_hashes (some (json hashes)) = some hashes

-- The loop over the hashes and `splice`: what is left when the first hash that fits is taken.
abbrev pub keep_head : String → Option (List String) → Option (List String)
keep_head hash none = none
keep_head hash (some hashes) = some (hash ∷ hashes)

unfoldable pub take_match : (String → Bool) → List String → Option (List String)
take_match fits [] = none
take_match fits (hash ∷ hashes) =
    let rest = take_match fits hashes in if fits hash then some hashes else keep_head hash rest

abbrev pub outcome_of : List String → Outcome
outcome_of [] = exhausted
outcome_of (hash ∷ hashes) = ok (length (hash ∷ hashes))

-- The events for the audit logger, in order.
pub data AuditEvent : Type 0 where
  backup_code_failed : String → AuditEvent
  backup_code_consumed : String → ℕ → AuditEvent
  backup_codes_generated : String → ℕ → AuditEvent
  mfa_recovery_performed : String → String → ℕ → ℕ → AuditEvent

pub record Consumed : Type 0 where
  pub methods : Methods
  pub audit : List AuditEvent
  pub outcome : Outcome

abbrev pub spend : String → ℕ → MfaMethod → Methods → Option (List String) → Consumed
spend user_id now m st none = record {
  methods = st;
  audit = backup_code_failed user_id ∷ [];
  outcome = failed;
}
spend user_id now m st (some left) = record {
  methods = save (update_secret (json left) now m) st;
  audit = backup_code_consumed user_id (length left) ∷ [];
  outcome = outcome_of left;
}

abbrev pub match_hashes :
    Verifier → String → Text → ℕ → MfaMethod → Methods → Option (List String) → Consumed
match_hashes v user_id code now m st none = record { methods = st; audit = []; outcome = failed }
match_hashes v user_id code now m st (some hashes) =
    spend user_id now m st (take_match (verify v code) hashes)

abbrev pub consume_found : Verifier → String → Text → ℕ → Methods → Option MfaMethod → Consumed
consume_found v user_id code now st none = record { methods = st; audit = []; outcome = failed }
consume_found v user_id code now st (some m) =
    match_hashes v user_id code now m st (parse_stored_hashes m.secret)

-- `ConsumeBackupCode.execute`
unfoldable pub consume : Verifier → String → Text → ℕ → Methods → Consumed
consume v user_id code now st =
    consume_found v user_id code now st (find_backup (find_active_by_user_id user_id st))

abbrev pub save_some : Option MfaMethod → Methods → Methods
save_some none st = st
save_some (some m) st = save m st

abbrev pub existing_codes : String → Methods → List MfaMethod
existing_codes user_id st =
    filter (λ m. is_backup m.type)
      (find_active_by_user_id user_id st ++ find_pending_by_user_id user_id st)

-- `GenerateBackupCodes.execute`: the methods that held codes go, and a fresh one holds the hashes.
unfoldable pub generate : String → String → List String → ℕ → Methods → Methods
generate id user_id hashes now st =
    save_some (activate now (create id user_id backup_codes (some (json hashes)) now))
      (delete_each (existing_codes user_id st) st)

pub data RecoveryError : Type 0 where
  self_triggered : RecoveryError
  not_authorized : RecoveryError

-- `RecoverMfaAccess.execute`: the methods that are left, unless it is refused. The authorizer's answer
-- is an argument; the sessions are revoked by their own package.
unfoldable pub recover :
    Bool → String → String → Methods → verixa.Kernel.Result.Result Methods RecoveryError
recover authorized actor_id target_user_id st =
    if actor_id == target_user_id
    then verixa.Kernel.Result.err self_triggered
    else if not authorized
    then verixa.Kernel.Result.err not_authorized
    else verixa.Kernel.Result.ok (delete_each (find_all_by_user_id target_user_id st) st)
