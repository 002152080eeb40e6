-- ===== src/Audit/Entry/Chain.antt =====
-- Chains that verify: their links, how they grow, and where a check stops.
use verixa.Prelude.{
  ℕ, ◌+◌, List, [], ◌∷◌, ◌++◌, Option, none, some, ◌<◌, ◌⊎◌, ◌≡◌, refl, arith, length, ap, sym, ◌∙◌,
  Bool-cases, inl, inr,
}
use verixa.Prelude.Text.{Text, text_eq, text_eq→≡, text_eq_refl}
use verixa.Audit.Metadata.{Metadata}
use verixa.Audit.Entry.{
  Platform, AuditLogEntry, ChainBreak, Reason, link_broken, sequence_gap, next_sequence, head_hash,
  compute_hash, append, verify_chain_from, verify_chain,
}

-- The entry that a further one is checked against, after a run of entries.
abbrev pub last_from : Option AuditLogEntry → List AuditLogEntry → Option AuditLogEntry
last_from previous [] = previous
last_from previous (e ∷ entries) = last_from (some e) entries

module _ (p : Platform) where
  -- The links of a chain, entry by entry: each hashes its own content, names its predecessor's hash
  -- and has the next number.
  abbrev pub Linked : Option AuditLogEntry → List AuditLogEntry → Type 0
  Linked previous [] = Unit
  Linked previous (e ∷ entries) =
      (e.hash ≡ compute_hash p e.content)
      × (e.previous_hash ≡ head_hash previous)
      × (e.sequence ≡ next_sequence previous)
      × Linked (some e) entries

  pub verify_chain_from-Linked :
      (previous : Option AuditLogEntry) (entries : List AuditLogEntry)
      → verify_chain_from p previous entries ≡ none
      → Linked previous entries
  unfolding verify_chain_from
  verify_chain_from-Linked previous [] h = tt
  verify_chain_from-Linked previous (e ∷ entries) h = (
    ground (arith, text_eq→≡ e.hash (compute_hash p e.content)),
    ground (arith, text_eq→≡ e.previous_hash (head_hash previous)),
    ground arith,
    verify_chain_from-Linked (some e) entries (ground arith),
  )

  pub Linked-verify_chain_from :
      (previous : Option AuditLogEntry) (entries : List AuditLogEntry)
      → Linked previous entries
      → verify_chain_from p previous entries ≡ none
  unfolding verify_chain_from
  Linked-verify_chain_from previous [] h = refl
  Linked-verify_chain_from previous (e ∷ entries) h = ground (
    arith,
    ap (text_eq e.hash) h.0,
    ap (text_eq e.previous_hash) h.1,
    text_eq_refl e.hash,
    text_eq_refl e.previous_hash,
    Linked-verify_chain_from (some e) entries h.3,
  )

  -- A check of two runs is a check of the first, and then of the second after the first's last.
  pub verify_chain_from-append :
      (previous : Option AuditLogEntry) (xs ys : List AuditLogEntry)
      → verify_chain_from p previous xs ≡ none
      → verify_chain_from p previous (xs ++ ys) ≡ verify_chain_from p (last_from previous xs) ys
  unfolding verify_chain_from
  verify_chain_from-append previous [] ys h = refl
  verify_chain_from-append previous (e ∷ xs) ys h =
      ground (arith, verify_chain_from-append (some e) xs ys)

  pub verify_chain_from-append_break :
      (previous : Option AuditLogEntry) (xs ys : List AuditLogEntry) {b : ChainBreak}
      → verify_chain_from p previous xs ≡ some b
      → verify_chain_from p previous (xs ++ ys) ≡ some b
  unfolding verify_chain_from
  verify_chain_from-append_break previous [] ys h = cc
  verify_chain_from-append_break previous (e ∷ xs) ys {b} h =
      ground (arith, verify_chain_from-append_break (some e) xs ys {b = b})

  -- Appending an entry with any content to a log that verifies, on its last entry, gives a log
  -- that verifies.
  pub verify_chain-append :
      (id action : Text) (actor_id subject_id : Option Text) (metadata : Metadata) (now : ℕ)
      (entries : List AuditLogEntry)
      → verify_chain p entries ≡ none
      → verify_chain p (
          entries
          ++ append p id action actor_id subject_id metadata (last_from none entries) now ∷ [])
        ≡ none
  unfolding verify_chain append
  verify_chain-append id action actor_id subject_id metadata now entries h =
      let e = append p id action actor_id subject_id metadata (last_from none entries) now in
      verify_chain_from-append none entries (e ∷ []) h
      ∙ Linked-verify_chain_from (last_from none entries) (e ∷ []) (refl, refl, refl, tt)

  -- The number after the last of a linked run.
  pub next_sequence-last_from :
      (previous : Option AuditLogEntry) (entries : List AuditLogEntry)
      → Linked previous entries
      → next_sequence (last_from previous entries) ≡ next_sequence previous + length entries
  next_sequence-last_from previous [] h = omega arith
  next_sequence-last_from previous (e ∷ entries) h =
      omega (arith, next_sequence-last_from (some e) entries h.3, h.2)

  Linked-append :
      (previous : Option AuditLogEntry) (xs ys : List AuditLogEntry)
      → Linked previous (xs ++ ys)
      → Linked previous xs × Linked (last_from previous xs) ys
  Linked-append previous [] ys h = (tt, h)
  Linked-append previous (e ∷ xs) ys h =
      let r = Linked-append (some e) xs ys h.3 in ((h.0, h.1, h.2, r.0), r.1)

  gap_seen :
      (previous : Option AuditLogEntry) (next : AuditLogEntry) (rest : List AuditLogEntry)
      → next.hash ≡ compute_hash p next.content
      → next_sequence previous < next.sequence
      → (reason : Reason) × (verify_chain_from p previous (next ∷ rest)
          ≡ some (record { sequence = next.sequence; reason = reason }))
        × ((reason ≡ link_broken) ⊎ (reason ≡ sequence_gap))
  unfolding verify_chain_from
  gap_seen previous next rest h lt =
      let valid = ap (text_eq next.hash) (sym h) ∙ text_eq_refl next.hash in
      elim (Bool-cases (text_eq next.previous_hash (head_hash previous))) [
        | inl linked ↦ (sequence_gap, ground arith, inr refl)
        | inr broken ↦ (link_broken, ground arith, inl refl)
      ]

  -- When one or more successive entries are taken out of a log that verifies, and an entry
  -- follows them, then the check of what is left breaks at that entry, by its link or by its
  -- number.
  pub verify_chain-deleted :
      (before : List AuditLogEntry) (gone : AuditLogEntry) (more : List AuditLogEntry)
      (next : AuditLogEntry) (rest : List AuditLogEntry)
      → verify_chain p (before ++ (gone ∷ more ++ next ∷ rest)) ≡ none
      → (reason : Reason) × (verify_chain p (before ++ next ∷ rest)
          ≡ some (record { sequence = next.sequence; reason = reason }))
        × ((reason ≡ link_broken) ⊎ (reason ≡ sequence_gap))
  unfolding verify_chain
  verify_chain-deleted before gone more next rest h =
      let whole =
        Linked-append none before (gone ∷ more ++ next ∷ rest)
          (verify_chain_from-Linked none _ h) in
      let tail = Linked-append (last_from none before) (gone ∷ more) (next ∷ rest) whole.1 in
      let number = next_sequence-last_from (last_from none before) (gone ∷ more) tail.0 in
      let seen = gap_seen (last_from none before) next rest tail.1.0 (omega arith) in
      (
        seen.0,
        verify_chain_from-append none before (next ∷ rest)
              (Linked-verify_chain_from none before whole.0)
            ∙ seen.1,
        seen.2,
      )
