-- ===== src/Mfa/Cbor/Distinct.antt =====
-- The entries of maps as the decoder collects them, and the values that the encoder takes.
use verixa.Prelude.{Bool, true, not, ◌&&◌, ◌≡◌, refl, arith, Bool-cases, inl, inr}
use verixa.Mfa.Cbor.{Cbor, Entries, no_entries, entry_and, same_key, set_entry}

-- No key of the entries is the same as this one.
unfoldable pub is_fresh : Cbor → Entries → Bool
is_fresh k no_entries = true
is_fresh k (entry_and k2 v es) = not (same_key k2 k) && is_fresh k es

-- No key of the second entries is the same as one of the first.
unfoldable pub is_apart : Entries → Entries → Bool
is_apart old no_entries = true
is_apart old (entry_and k v es) = is_fresh k old && is_apart old es

unfoldable pub snoc : Entries → Cbor → Cbor → Entries
snoc no_entries k v = entry_and k v no_entries
snoc (entry_and k2 w es) k v = entry_and k2 w (snoc es k v)

unfoldable pub append_entries : Entries → Entries → Entries
append_entries no_entries new = new
append_entries (entry_and k v es) new = entry_and k v (append_entries es new)

-- The keys of a `Map`: each differs from those before it.
unfoldable pub is_distinct : Entries → Entries → Bool
is_distinct old no_entries = true
is_distinct old (entry_and k v es) = is_fresh k old && is_distinct (snoc old k v) es

pub set_entry-fresh :
    (k v : Cbor) (es : Entries) → is_fresh k es ≡ true → set_entry k v es ≡ snoc es k v
unfolding set_entry snoc is_fresh
set_entry-fresh k v no_entries h = refl
set_entry-fresh k v (entry_and k2 w es) h =
    let rest = set_entry-fresh k v es (ground arith) in
    elim (Bool-cases (same_key k2 k)) [
      | inl same ↦ absurd (ground (arith, same))
      | inr other ↦ rw other (rw rest refl)
    ]

pub append_entries-snoc :
    (old : Entries) (k v : Cbor) (new : Entries)
    → append_entries (snoc old k v) new ≡ append_entries old (entry_and k v new)
unfolding append_entries snoc
append_entries-snoc no_entries k v new = refl
append_entries-snoc (entry_and k2 w old) k v new = rw (append_entries-snoc old k v new) refl

pub append_entries-nil : (es : Entries) → append_entries es no_entries ≡ es
unfolding append_entries
append_entries-nil no_entries = refl
append_entries-nil (entry_and k v es) = rw (append_entries-nil es) refl
