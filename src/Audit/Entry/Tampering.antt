-- ===== src/Audit/Entry/Tampering.antt =====
-- What the hash of the newest entry commits to: the content of the whole log behind it.
use verixa.Prelude.{
  suc, List, [], ◌∷◌, ◌++◌, Option, none, some, ◌≡◌, ◌≢◌, refl, arith, length, ap, sym, ◌∙◌,
  Bool-cases, inl, inr, ◌⊎◌,
}
use mathlib.Core.Path.{subst, subst₂}
use verixa.Prelude.Text.{
  Text, text_eq, text_eq→≡, text_eq_refl, to_decimal, to_decimal-injective, append_cancel,
}
use verixa.Audit.Metadata.{sort_entries, canonical_form}
use verixa.Audit.Metadata.Framing.{canonical_form-injective, join-frame-injective}
use verixa.Audit.Entry.{
  Platform, Content, AuditLogEntry, or_empty, canonicalize, next_sequence, head_hash, compute_hash,
  verify_chain, verify_chain_from, canonical_form_version,
}
use verixa.Audit.Entry.Chain.{Linked, verify_chain_from-Linked}

-- Contents that the canonical form does not tell apart: an actor or subject that is absent and one
-- that is the empty text are one, and the order of the metadata does not matter.
pub record SameContent (c d : Content) : Type 0 where
  pub sequence : c.sequence ≡ d.sequence
  pub action : c.action ≡ d.action
  pub actor_id : or_empty c.actor_id ≡ or_empty d.actor_id
  pub subject_id : or_empty c.subject_id ≡ or_empty d.subject_id
  pub occurred_at : c.occurred_at ≡ d.occurred_at
  pub previous_hash : c.previous_hash ≡ d.previous_hash
  pub metadata : sort_entries c.metadata ≡ sort_entries d.metadata

-- Two texts that one function takes to one value.
pub data Collision (hash : Text → Text) : Type 0 where
  collide : (s t : Text) → s ≢ t → hash s ≡ hash t → Collision hash

-- Logs that agree entry by entry.
abbrev pub SameLog : List AuditLogEntry → List AuditLogEntry → Type 0
SameLog [] [] = Unit
SameLog [] (_ ∷ _) = ⊥
SameLog (_ ∷ _) [] = ⊥
SameLog (d ∷ xs) (e ∷ ys) = SameContent d.content e.content × (d.hash ≡ e.hash) × SameLog xs ys

-- The entries in the opposite order, before others.
abbrev pub newest_first : List AuditLogEntry → List AuditLogEntry → List AuditLogEntry
newest_first [] older = older
newest_first (e ∷ entries) older = newest_first entries (e ∷ older)

abbrev newest : List AuditLogEntry → Option AuditLogEntry
newest [] = none
newest (e ∷ _) = some e

newest_first-snoc :
    (xs : List AuditLogEntry) (e : AuditLogEntry) (older : List AuditLogEntry)
    → newest_first (xs ++ e ∷ []) older ≡ e ∷ newest_first xs older
newest_first-snoc [] e older = refl
newest_first-snoc (x ∷ xs) e older = newest_first-snoc xs e (x ∷ older)

-- The text before the framed fields.
abbrev header : Text
header = canonical_form_version ++ b' ' ∷ (to_decimal 7 ++ b' ' ∷ [])

module _ (p : Platform) where
  -- The fields behind the sequence number.
  abbrev later_fields : Content → List Text
  later_fields c =
      c.action
      ∷ or_empty c.actor_id
      ∷ or_empty c.subject_id
      ∷ p.to_iso_string c.occurred_at
      ∷ c.previous_hash
      ∷ canonical_form c.metadata
      ∷ []

  -- When two contents have the same canonical form, they agree in sequence, action, time,
  -- previous hash, and metadata up to order, and in actor and subject up to an absent one
  -- against an empty one.
  pub canonicalize-injective :
      (c d : Content) → canonicalize p c ≡ canonicalize p d → SameContent c d
  unfolding canonicalize to_decimal
  canonicalize-injective c d e =
      let parts : (to_decimal c.sequence ≡ to_decimal d.sequence)
          × (later_fields c ≡ later_fields d) =
        join-frame-injective (b'|' ∷ []) (to_decimal c.sequence) (to_decimal d.sequence)
          (later_fields c) (later_fields d) refl (append_cancel header _ _ e) in
      record {
        sequence = to_decimal-injective _ _ parts.0;
        action = cc (parts.1);
        actor_id = cc (parts.1);
        subject_id = cc (parts.1);
        occurred_at = p.to_iso_string_injective _ _ (cc (parts.1));
        previous_hash = cc (parts.1);
        metadata = canonical_form-injective _ _ (cc (parts.1));
      }

  abbrev LinkedBack : List AuditLogEntry → Type 0
  LinkedBack [] = Unit
  LinkedBack (e ∷ older) =
      (e.hash ≡ compute_hash p e.content)
      × (e.previous_hash ≡ head_hash (newest older))
      × (e.sequence ≡ next_sequence (newest older))
      × LinkedBack older

  Linked-LinkedBack :
      (entries older : List AuditLogEntry)
      → Linked p (newest older) entries
      → LinkedBack older
      → LinkedBack (newest_first entries older)
  Linked-LinkedBack [] older h k = k
  Linked-LinkedBack (e ∷ entries) older h k =
      Linked-LinkedBack entries (e ∷ older) h.3 (h.0, h.1, h.2, k)

  LinkedBack-sequence :
      (older : List AuditLogEntry)
      → LinkedBack older
      → next_sequence (newest older) ≡ suc (length older)
  LinkedBack-sequence [] h = refl
  LinkedBack-sequence (e ∷ older) h = omega (arith, h.2, LinkedBack-sequence older h.3)

  same_content :
      (c d : Content)
      → compute_hash p c ≡ compute_hash p d
      → SameContent c d ⊎ Collision p.sha256_hex
  unfolding compute_hash
  same_content c d h = elim (Bool-cases (text_eq (canonicalize p c) (canonicalize p d))) [
    | inl same ↦ inl (canonicalize-injective c d (text_eq→≡ _ _ same))
    | inr differ ↦ inr (
        collide (canonicalize p c) (canonicalize p d)
          (λ e. cc (differ, ap (text_eq (canonicalize p c)) e, text_eq_refl (canonicalize p c))) h)
  ]

  same_back :
      (d : AuditLogEntry) (xs : List AuditLogEntry) (e : AuditLogEntry) (ys : List AuditLogEntry)
      → LinkedBack (d ∷ xs)
      → LinkedBack (e ∷ ys)
      → d.hash ≡ e.hash
      → SameLog (d ∷ xs) (e ∷ ys) ⊎ Collision p.sha256_hex
  same_back d [] e [] h k q = elim (same_content d.content e.content (sym h.0 ∙ q ∙ k.0)) [
    | inl s ↦ inl (s, q, tt)
    | inr c ↦ inr c
  ]
  same_back d [] e (y ∷ ys) h k q = elim (same_content d.content e.content (sym h.0 ∙ q ∙ k.0)) [
    | inl s ↦ absurd (omega (arith, s.sequence, h.2, k.2, LinkedBack-sequence (y ∷ ys) k.3))
    | inr c ↦ inr c
  ]
  same_back d (x ∷ xs) e [] h k q = elim (same_content d.content e.content (sym h.0 ∙ q ∙ k.0)) [
    | inl s ↦ absurd (omega (arith, s.sequence, h.2, k.2, LinkedBack-sequence (x ∷ xs) h.3))
    | inr c ↦ inr c
  ]
  same_back d (x ∷ xs) e (y ∷ ys) h k q =
      let rest = same_back x xs y ys h.3 k.3 in
      elim (same_content d.content e.content (sym h.0 ∙ q ∙ k.0)) [
        | inl s ↦ elim (rest (sym h.1 ∙ s.previous_hash ∙ k.1)) [
          | inl l ↦ inl (s, q, l)
          | inr c ↦ inr c
        ]
        | inr c ↦ inr c
      ]

  -- When two logs that are not empty both verify and their newest entries have the same hash,
  -- then the logs agree entry by entry, from the newest to the oldest, in their hashes and their
  -- content, up to the order of metadata and an absent actor or subject against an empty one, or
  -- two different texts with one digest are at hand.
  pub head_hash_commits :
      (xs ys : List AuditLogEntry) (d e : AuditLogEntry)
      → verify_chain p (xs ++ d ∷ []) ≡ none
      → verify_chain p (ys ++ e ∷ []) ≡ none
      → d.hash ≡ e.hash
      → SameLog (newest_first (xs ++ d ∷ []) []) (newest_first (ys ++ e ∷ []) [])
        ⊎ Collision p.sha256_hex
  unfolding verify_chain
  head_hash_commits xs ys d e h k q =
      subst₂ (λ l m. SameLog l m ⊎ Collision p.sha256_hex) (sym (newest_first-snoc xs d []))
        (sym (newest_first-snoc ys e []))
        (same_back d (newest_first xs []) e (newest_first ys []) (back xs d h) (back ys e k) q)
    where
      back :
          (zs : List AuditLogEntry) (f : AuditLogEntry)
          → verify_chain_from p none (zs ++ f ∷ []) ≡ none
          → LinkedBack (f ∷ newest_first zs [])
      back zs f v = subst LinkedBack (newest_first-snoc zs f []) (
          Linked-LinkedBack (zs ++ f ∷ []) [] (verify_chain_from-Linked p none (zs ++ f ∷ []) v) tt)
