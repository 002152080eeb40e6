-- ===== src/Audit/Entry.antt =====
-- packages/audit/domain/entities/audit-log-entry.ts: one entry of the log, its hash, and the
-- verification of a chain. SHA-256 (`node:crypto`) and `Date.prototype.toISOString` are given.
pub mod Chain
pub mod Tampering
pub mod Tests
use verixa.Prelude.{
  ℕ, zero, suc, ◌+◌, Bool, true, false, not, List, [], ◌∷◌, ◌++◌, map, Option, none, some, eqb,
  if◌then◌else◌, length, ◌≡◌,
}
use verixa.Prelude.Text.{Text, text_eq, to_decimal, join}
use verixa.Audit.Metadata.{Metadata, frame, canonical_form}

-- What the log takes from the platform: the hex digest of the UTF-8 form of a text, and the printed
-- form of a time, which is documented to tell times apart.
pub record Platform : Type 0 where
  pub sha256_hex : Text → Text
  pub to_iso_string : ℕ → Text
  pub to_iso_string_injective : (s t : ℕ) → to_iso_string s ≡ to_iso_string t → s ≡ t

-- The fields of an entry under the hash: `Omit<AuditLogEntryProps, "hash" | "id">`. The action is its
-- string.
pub record Content : Type 0 where
  pub sequence : ℕ
  pub action : Text
  pub actor_id : Option Text
  pub subject_id : Option Text
  pub metadata : Metadata
  pub occurred_at : ℕ
  pub previous_hash : Text

pub record AuditLogEntry : Type 0 where
  pub id : Text
  pub content : Content
  pub open content use *
  pub hash : Text

-- `"verixa-audit-v2"`
abbrev pub canonical_form_version : Text
canonical_form_version =
    b'v' ∷ b'e' ∷ b'r' ∷ b'i' ∷ b'x' ∷ b'a' ∷ b'-' ∷ b'a' ∷ b'u' ∷ b'd' ∷ b'i' ∷ b't' ∷ b'-' ∷ b'v'
    ∷ b'2' ∷ []

abbrev pub zeros : ℕ → Text
zeros zero = []
zeros (suc n) = b'0' ∷ zeros n

-- `"0".repeat(64)`
pub genesis_hash : Text
genesis_hash = zeros 64

-- `value ?? ""`
abbrev pub or_empty : Option Text → Text
or_empty none = []
or_empty (some t) = t

abbrev pub next_sequence : Option AuditLogEntry → ℕ
next_sequence none = 1
next_sequence (some e) = e.sequence + 1

abbrev pub head_hash : Option AuditLogEntry → Text
head_hash none = genesis_hash
head_hash (some e) = e.hash

pub data Reason : Type 0 where
  content_altered link_broken sequence_gap : Reason

pub record ChainBreak : Type 0 where
  pub sequence : ℕ
  pub reason : Reason

module _ (platform : Platform) where
  open platform use {sha256_hex, to_iso_string}

  abbrev pub fields : Content → List Text
  fields c =
      to_decimal c.sequence
      ∷ c.action
      ∷ or_empty c.actor_id
      ∷ or_empty c.subject_id
      ∷ to_iso_string c.occurred_at
      ∷ c.previous_hash
      ∷ canonical_form c.metadata
      ∷ []

  pub canonicalize : Content → Text
  canonicalize c =
      canonical_form_version
      ++ b' ' ∷ (to_decimal (length (fields c)) ++ b' ' ∷ join (b'|' ∷ []) (map frame (fields c)))

  unfoldable pub compute_hash : Content → Text
  compute_hash c = sha256_hex (canonicalize c)

  -- `append`, at an id and a time that the caller's defaults have filled in.
  unfoldable pub append :
      Text → Text → Option Text → Option Text → Metadata → Option AuditLogEntry → ℕ → AuditLogEntry
  unfolding compute_hash
  append id action actor_id subject_id metadata previous occurred_at =
      let body : Content = record {
        sequence = next_sequence previous;
        action = action;
        actor_id = actor_id;
        subject_id = subject_id;
        metadata = metadata;
        occurred_at = occurred_at;
        previous_hash = head_hash previous;
      } in
      record { id = id; content = body; hash = compute_hash body }

  pub recomputed_hash : AuditLogEntry → Text
  recomputed_hash e = compute_hash e.content

  pub has_valid_hash : AuditLogEntry → Bool
  unfolding recomputed_hash
  has_valid_hash e = text_eq e.hash (recomputed_hash e)

  abbrev check_entry : Option AuditLogEntry → AuditLogEntry → Option Reason
  check_entry predecessor e =
      if not (has_valid_hash e)
      then some content_altered
      else if not (text_eq e.previous_hash (head_hash predecessor))
      then some link_broken
      else if not (eqb e.sequence (next_sequence predecessor))
      then some sequence_gap
      else none

  pub verify_chain_from : Option AuditLogEntry → List AuditLogEntry → Option ChainBreak
  unfolding has_valid_hash
  verify_chain_from predecessor [] = none
  verify_chain_from predecessor (e ∷ entries) = elim (check_entry predecessor e) [
    | some reason ↦ some (record { sequence = e.sequence; reason = reason })
    | none ↦ verify_chain_from (some e) entries
  ]

  pub verify_chain : List AuditLogEntry → Option ChainBreak
  unfolding verify_chain_from
  verify_chain entries = verify_chain_from none entries
