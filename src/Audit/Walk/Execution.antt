-- ===== src/Audit/Walk/Execution.antt =====
-- The verification that a caller asks for reports the first break of the window that it names.
use verixa.Prelude.{ℕ, ◌≤◌, List, Option, none, some, ◌≡◌, refl, arith, length, [], ◌∷◌}
use verixa.Kernel.Result.{ok}
use verixa.Audit.Entry.{Platform, AuditLogEntry, next_sequence, verify_chain_from}
use verixa.Audit.Walk.{
  AnchorRecord, AnchorVerifier, VerifyAuditChainCommand, VerifyAuditChainResult, or_else, is_none,
  remaining, seed, started, walk_fuel, validate_command, execute, result_of, anchor_records_of,
  default_max_anchor_checks, default_verify_batch_size,
}
use verixa.Audit.Walk.Rows.{Ascending, window, rows_from}
use verixa.Audit.Walk.Paging.{walk_loop-Walked}

length-rows_from : (from : ℕ) (log : List AuditLogEntry) → length (rows_from from log) ≤ length log
length-rows_from from [] = omega arith
length-rows_from from (e ∷ log) = ground (arith, length-rows_from from log)

valid_batch_size :
    (c : VerifyAuditChainCommand)
    → validate_command c ≡ none
    → 1 ≤ or_else c.batch_size default_verify_batch_size
unfolding validate_command
valid_batch_size c h = ground arith

module _ (p : Platform) (log : List AuditLogEntry) (stored : Option (List AnchorRecord))
    (verifier : Option AnchorVerifier) (c : VerifyAuditChainCommand) where
  abbrev from : ℕ
  from = or_else c.from_sequence 1

  abbrev size : ℕ
  size = or_else c.batch_size default_verify_batch_size

  abbrev wanted : List AnchorRecord
  wanted =
      anchor_records_of c.check_anchors stored
        (or_else c.max_anchor_checks default_max_anchor_checks)

  -- For a log in strictly ascending order of sequence, a command that passes validation, and a
  -- window whose predecessor, if it needs one, is the row before it, the paged verification ends
  -- with a result; its first break is the one that a check of the whole window in one piece
  -- reports, at any page size, and it is valid exactly when there is no break.
  pub execute-verify_chain_from :
      (bound : ℕ)
      → Ascending bound log
      → next_sequence (seed log from) ≡ from
      → validate_command c ≡ none
      → (r : VerifyAuditChainResult) × (execute p log stored verifier c ≡ some (ok r))
        × (r.first_break
            ≡ verify_chain_from p
                (seed log from)
                (window (remaining c.to_sequence from) (rows_from from log)))
        × (r.valid ≡ is_none r.first_break)
  unfolding execute
  execute-verify_chain_from bound sorted seeded valid =
      let walked =
        walk_loop-Walked p c.organization_id wanted log c.to_sequence size bound sorted
          (valid_batch_size c valid) (walk_fuel log) from (started (seed log from)) refl seeded
          (unfold walk_fuel in omega (arith, length-rows_from from log)) in
      (
        result_of c stored verifier wanted from walked.0,
        rw (valid, walked.1, execute),
        walked.2,
        refl,
      )
