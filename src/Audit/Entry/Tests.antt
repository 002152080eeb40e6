-- ===== src/Audit/Entry/Tests.antt =====
-- A log of three entries, over a platform whose hash is the text itself.
use verixa.Prelude.{[], ◌∷◌, none, some, ◌≡◌, ◌⊎◌, refl}
use verixa.Prelude.Text.{to_decimal, to_decimal-injective}
use verixa.Audit.Entry.{
  Platform, AuditLogEntry, Reason, link_broken, sequence_gap, append, verify_chain,
}
use verixa.Audit.Entry.Chain.{verify_chain-append, verify_chain-deleted}
use verixa.Audit.Entry.Tampering.{
  SameContent, Collision, SameLog, newest_first, canonicalize-injective, head_hash_commits,
}

abbrev pub plain : Platform
plain = record {
  sha256_hex = λ t. t;
  to_iso_string = to_decimal;
  to_iso_string_injective = to_decimal-injective;
}

abbrev pub first : AuditLogEntry
first = append plain [] (b'a' ∷ []) (some (b'u' ∷ [])) none [] none 5

abbrev pub second : AuditLogEntry
second = append plain [] (b'b' ∷ []) none none ((b'k' ∷ [], b'v' ∷ []) ∷ []) (some first) 6

abbrev pub third : AuditLogEntry
third = append plain [] (b'c' ∷ []) none none [] (some second) 7

empty_verifies : verify_chain plain [] ≡ none
unfolding verify_chain
empty_verifies = refl

one_verifies : verify_chain plain (first ∷ []) ≡ none
one_verifies =
    verify_chain-append plain [] (b'a' ∷ []) (some (b'u' ∷ [])) none [] 5 [] empty_verifies

two_verify : verify_chain plain (first ∷ second ∷ []) ≡ none
two_verify =
    verify_chain-append plain [] (b'b' ∷ []) none none ((b'k' ∷ [], b'v' ∷ []) ∷ []) 6 (first ∷ [])
      one_verifies

three_verify : verify_chain plain (first ∷ second ∷ third ∷ []) ≡ none
three_verify =
    verify_chain-append plain [] (b'c' ∷ []) none none [] 7 (first ∷ second ∷ []) two_verify

verify_chain-deleted_example :
    (reason : Reason) × (verify_chain plain (first ∷ third ∷ [])
      ≡ some (record { sequence = third.sequence; reason = reason }))
    × ((reason ≡ link_broken) ⊎ (reason ≡ sequence_gap))
verify_chain-deleted_example =
    verify_chain-deleted plain (first ∷ []) second [] third [] three_verify

head_hash_commits_example :
    SameLog (newest_first (first ∷ second ∷ []) []) (newest_first (first ∷ second ∷ []) [])
    ⊎ Collision (λ t. t)
head_hash_commits_example =
    head_hash_commits plain (first ∷ []) (first ∷ []) second second two_verify two_verify refl

canonicalize-injective_example : SameContent first.content first.content
canonicalize-injective_example = canonicalize-injective plain first.content first.content refl

verify_chain-append_example : verify_chain plain (first ∷ second ∷ third ∷ []) ≡ none
verify_chain-append_example =
    verify_chain-append plain [] (b'c' ∷ []) none none [] 7 (first ∷ second ∷ []) two_verify
