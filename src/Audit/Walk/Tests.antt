-- ===== src/Audit/Walk/Tests.antt =====
-- A walk over a log of three entries, one entry to a page.
use verixa.Prelude.{false, List, [], ◌∷◌, none, some, ◌≡◌, refl, arith}
use verixa.Kernel.Result.{ok}
use verixa.Audit.Entry.{append, AuditLogEntry, next_sequence, verify_chain_from}
use verixa.Audit.Entry.Tests.{plain, first, second, third}
use verixa.Audit.Walk.{
  VerifyAuditChainCommand, VerifyAuditChainResult, is_none, remaining, seed, validate_command,
  execute,
}
use verixa.Audit.Walk.Rows.{Ascending, window, rows_from}
use verixa.Audit.Walk.Execution.{execute-verify_chain_from}

abbrev log : List AuditLogEntry
log = first ∷ second ∷ third ∷ []

abbrev by_ones : VerifyAuditChainCommand
by_ones = record {
  from_sequence = some 2;
  to_sequence = some 3;
  organization_id = none;
  batch_size = some 1;
  check_anchors = false;
  max_anchor_checks = none;
}

log-Ascending : Ascending 1 log
unfolding append
log-Ascending = omega arith

seeded : next_sequence (seed log 2) ≡ 2
unfolding seed append
seeded = refl

by_ones_valid : validate_command by_ones ≡ none
unfolding validate_command
by_ones_valid = refl

execute-verify_chain_from_example :
    (r : VerifyAuditChainResult) × (execute plain log none none by_ones ≡ some (ok r))
    × (r.first_break
        ≡ verify_chain_from plain (seed log 2) (window (remaining (some 3) 2) (rows_from 2 log)))
    × (r.valid ≡ is_none r.first_break)
execute-verify_chain_from_example =
    execute-verify_chain_from plain log none none by_ones 1 log-Ascending seeded by_ones_valid
