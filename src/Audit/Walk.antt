-- ===== src/Audit/Walk.antt =====
-- packages/audit/application/use-cases/verify-audit-chain.ts: the verification of a stored log in
-- pages. `findFrom` is that of the repositories in packages/audit/infrastructure. The log is the list
-- of its rows by ascending sequence. Sequences and sizes are integers.
pub mod Rows
pub mod Paging
pub mod Execution
mod Tests
use verixa.Prelude.{
  ℕ, zero, suc, ◌+◌, ◌-◌, min, Bool, true, false, not, List, [], ◌∷◌, ◌&&◌, ◌||◌, Option, none,
  some, leb, ltb, eqb, if◌then◌else◌, length, take, filter,
}
use mathlib.Core.Option
use verixa.Prelude.Text.{Text, text_eq}
use verixa.Kernel.Result.{Result, ok, err}
use verixa.Audit.Metadata.{Metadata}
use verixa.Audit.Entry.{Platform, AuditLogEntry, ChainBreak, recomputed_hash, verify_chain_from}

abbrev pub default_verify_batch_size : ℕ
default_verify_batch_size = 500

abbrev pub max_verify_batch_size : ℕ
max_verify_batch_size = 5000

abbrev pub default_max_anchor_checks : ℕ
default_max_anchor_checks = 20

pub record AnchorRecord : Type 0 where
  pub sequence : ℕ
  pub chain_hash : Text
  pub anchor_ref : Text
  pub network : Text

pub record AnchorChainCheck : Type 0 where
  pub sequence : ℕ
  pub chain_hash : Text
  pub anchor_ref : Text
  pub network : Text
  pub matches_database_chain : Option Bool
  pub matches_ledger : Option Bool
  pub ledger_error : Option Text

-- The ledger: `verify(hash, anchorRef)`, or the message of its failure.
abbrev pub AnchorVerifier : Type 0
AnchorVerifier = Text → Text → Result Bool Text

abbrev pub is_some {ℓ} : {A : Type ℓ} → Option A → Bool
is_some none = false
is_some (some _) = true

abbrev pub is_empty {ℓ} : {A : Type ℓ} → List A → Bool
is_empty [] = true
is_empty (_ ∷ _) = false

unfoldable pub find_from : List AuditLogEntry → ℕ → ℕ → List AuditLogEntry
find_from log from limit = take limit (filter (λ e. leb from e.sequence) log)

-- The local variables of `walk`.
pub record Walk : Type 0 where
  pub previous : Option AuditLogEntry
  pub first_break : Option ChainBreak
  pub checked_entries : ℕ
  pub organization_entry_count : ℕ
  pub hashes_by_sequence : List (ℕ × Text)

-- `metadata["organizationId"] === organizationId`
abbrev has_value : Text → Text → Metadata → Bool
has_value key value [] = false
has_value key value ((k, v) ∷ m) = if text_eq k key then text_eq v value else has_value key value m

abbrev organization_id_key : Text
organization_id_key =
    b'o' ∷ b'r' ∷ b'g' ∷ b'a' ∷ b'n' ∷ b'i' ∷ b'z' ∷ b'a' ∷ b't' ∷ b'i' ∷ b'o' ∷ b'n' ∷ b'I' ∷ b'd'
    ∷ []

abbrev of_organization : Option Text → AuditLogEntry → Bool
of_organization none e = false
of_organization (some id) e = has_value organization_id_key id e.metadata

-- `wantedSequences.has(sequence)`
abbrev wanted : List AnchorRecord → ℕ → Bool
wanted [] s = false
wanted (r ∷ records) s = eqb r.sequence s || wanted records s

-- `hashesBySequence.get(sequence)`: the latest write is in front.
abbrev pub get_hash : List (ℕ × Text) → ℕ → Option Text
get_hash [] s = none
get_hash ((t, h) ∷ m) s = if eqb t s then some h else get_hash m s

-- The entries of a page that count: all, or those up to the break.
abbrev inspected : Option ChainBreak → List AuditLogEntry → List AuditLogEntry
inspected none page = page
inspected (some b) page = filter (λ e. leb e.sequence b.sequence) page

abbrev pub cursor_after : ℕ → List AuditLogEntry → ℕ
cursor_after cursor [] = cursor
cursor_after cursor (e ∷ page) = cursor_after (e.sequence + 1) page

abbrev pub last_of : Option AuditLogEntry → List AuditLogEntry → Option AuditLogEntry
last_of previous [] = previous
last_of previous (e ∷ page) = last_of (some e) page

-- `toSequence - cursor + 1`, where a result below 1 counts as 0.
abbrev pub remaining : Option ℕ → ℕ → Option ℕ
remaining none cursor = none
remaining (some to) cursor = some (to + 1 - cursor)

abbrev pub page_limit : ℕ → Option ℕ → ℕ
page_limit batch_size none = batch_size
page_limit batch_size (some n) = min batch_size n

module _ (p : Platform) (organization_id : Option Text) (records : List AnchorRecord) where
  inspect_entry : AuditLogEntry → Walk → Walk
  inspect_entry e w = record w {
    checked_entries = w.checked_entries + 1;
    organization_entry_count =
        if of_organization organization_id e
        then w.organization_entry_count + 1
        else w.organization_entry_count;
    hashes_by_sequence =
        if wanted records e.sequence
        then (e.sequence, recomputed_hash p e) ∷ w.hashes_by_sequence
        else w.hashes_by_sequence;
  }

  inspect_page : List AuditLogEntry → Walk → Walk
  unfolding inspect_entry
  inspect_page [] w = w
  inspect_page (e ∷ page) w = inspect_page page (inspect_entry e w)

  -- What one round does with the page that it read.
  read_page : List AuditLogEntry → Walk → Walk
  unfolding inspect_page
  read_page page w =
      let found = verify_chain_from p w.previous page in
      let w' = inspect_page (inspected found page) w in
      record w' { previous = last_of w.previous page; first_break = found }

  module _ (log : List AuditLogEntry) (to_sequence : Option ℕ) (batch_size : ℕ) where
    -- The `while` loop; `none` when the fuel runs out.
    pub walk_loop : ℕ → ℕ → Walk → Option Walk
    unfolding find_from read_page
    walk_loop zero cursor w = none
    walk_loop (suc fuel) cursor w =
        let limit = page_limit batch_size (remaining to_sequence cursor) in
        let page = find_from log cursor limit in
        let w' = read_page page w in
        let next =
          if ltb (length page) limit
          then some w'
          else walk_loop fuel (cursor_after cursor page) w' in
        if is_some w.first_break || eqb limit 0 || is_empty page then some w else next

pub record VerifyAuditChainCommand : Type 0 where
  pub from_sequence : Option ℕ
  pub to_sequence : Option ℕ
  pub organization_id : Option Text
  pub batch_size : Option ℕ
  pub check_anchors : Bool
  pub max_anchor_checks : Option ℕ

pub data ValidationError : Type 0 where
  from_sequence_below_1 to_sequence_before_from batch_size_out_of_range : ValidationError

pub record VerifyAuditChainResult : Type 0 where
  pub valid : Bool
  pub from_sequence : ℕ
  pub to_sequence : Option ℕ
  pub checked_entries : ℕ
  pub organization_entry_count : ℕ
  pub head_hash : Option Text
  pub first_break : Option ChainBreak
  pub seeded_from_window_start : Bool
  pub organization_id : Option Text
  pub anchor_checks : List AnchorChainCheck
  pub anchors_skipped : Bool

abbrev pub or_else {ℓ} : {A : Type ℓ} → Option A → A → A
or_else none d = d
or_else (some a) d = a

abbrev precedes : Option ℕ → ℕ → Bool
precedes none from = false
precedes (some to) from = ltb to from

pub validate_command : VerifyAuditChainCommand → Option ValidationError
validate_command c =
    let from = or_else c.from_sequence 1 in
    let size = or_else c.batch_size default_verify_batch_size in
    if ltb from 1
    then some from_sequence_below_1
    else if precedes c.to_sequence from
    then some to_sequence_before_from
    else if ltb size 1 || ltb max_verify_batch_size size
    then some batch_size_out_of_range
    else none

abbrev head {ℓ} : {A : Type ℓ} → List A → Option A
head [] = none
head (x ∷ _) = some x

-- The predecessor of a window that starts in the middle.
pub seed : List AuditLogEntry → ℕ → Option AuditLogEntry
unfolding find_from
seed log from = if ltb 1 from then head (find_from log (from - 1) 1) else none

abbrev pub started : Option AuditLogEntry → Walk
started previous = record {
  previous = previous;
  first_break = none;
  checked_entries = 0;
  organization_entry_count = 0;
  hashes_by_sequence = [];
}

-- What the ledger says of one receipt: nothing without a verifier or a recomputed hash.
abbrev ask_ledger : Option AnchorVerifier → Option Text → AnchorRecord → Option Bool × Option Text
ask_ledger none _ r = (none, none)
ask_ledger (some verify) none r = (none, none)
ask_ledger (some verify) (some _) r = elim (verify r.chain_hash r.anchor_ref) [
  | ok b ↦ (some b, none)
  | err message ↦ (none, some message)
]

abbrev agrees : Option Text → Text → Option Bool
agrees none chain_hash = none
agrees (some h) chain_hash = some (text_eq h chain_hash)

pub check_anchor : Option AnchorVerifier → List (ℕ × Text) → AnchorRecord → AnchorChainCheck
check_anchor verifier hashes r =
    let database_hash = get_hash hashes r.sequence in
    let ledger = ask_ledger verifier database_hash r in
    record {
      sequence = r.sequence;
      chain_hash = r.chain_hash;
      anchor_ref = r.anchor_ref;
      network = r.network;
      matches_database_chain = agrees database_hash r.chain_hash;
      matches_ledger = ledger.0;
      ledger_error = ledger.1;
    }

pub check_anchors :
    Option AnchorVerifier → List (ℕ × Text) → List AnchorRecord → List AnchorChainCheck
unfolding check_anchor
check_anchors verifier hashes [] = []
check_anchors verifier hashes (r ∷ records) =
    check_anchor verifier hashes r ∷ check_anchors verifier hashes records

abbrev pub is_none {ℓ} : {A : Type ℓ} → Option A → Bool
is_none none = true
is_none (some _) = false

abbrev pub anchor_records_of : Bool → Option (List AnchorRecord) → ℕ → List AnchorRecord
anchor_records_of true (some stored) limit = take limit stored
anchor_records_of true none limit = []
anchor_records_of false stored limit = []

abbrev pub result_of :
    VerifyAuditChainCommand
    → Option (List AnchorRecord)
    → Option AnchorVerifier
    → List AnchorRecord
    → ℕ
    → Walk
    → VerifyAuditChainResult
result_of c stored verifier records from w = record {
  valid = is_none w.first_break;
  from_sequence = from;
  to_sequence = Option.map (λ (e : AuditLogEntry). e.sequence) w.previous;
  checked_entries = w.checked_entries;
  organization_entry_count = w.organization_entry_count;
  head_hash = Option.map (λ (e : AuditLogEntry). e.hash) w.previous;
  first_break = w.first_break;
  seeded_from_window_start = ltb 1 from;
  organization_id = c.organization_id;
  anchor_checks =
      if c.check_anchors then check_anchors verifier w.hashes_by_sequence records else [];
  anchors_skipped = c.check_anchors && not (is_some stored && is_some verifier);
}

-- One round for each entry, and one that finds the end, are enough.
pub walk_fuel : List AuditLogEntry → ℕ
walk_fuel log = length log + 1

-- `execute`, over a log, the stored receipts and the ledger, where they are wired. `none` would be
-- a walk that does not end.
pub execute :
    Platform
    → List AuditLogEntry
    → Option (List AnchorRecord)
    → Option AnchorVerifier
    → VerifyAuditChainCommand
    → Option (Result VerifyAuditChainResult ValidationError)
execute p log stored verifier c =
    let from = or_else c.from_sequence 1 in
    let size = or_else c.batch_size default_verify_batch_size in
    let records =
      anchor_records_of c.check_anchors stored
        (or_else c.max_anchor_checks default_max_anchor_checks) in
    let walked =
      walk_loop p c.organization_id records log c.to_sequence size (walk_fuel log) from
        (started (seed log from)) in
    elim (validate_command c) [
      | some e ↦ some (err e)
      | none ↦ Option.map (λ w. ok (result_of c stored verifier records from w)) walked
    ]
