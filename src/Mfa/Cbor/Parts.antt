-- ===== src/Mfa/Cbor/Parts.antt =====
-- Reading the parts of an encoded value: its head, its bytes, and the items after it.
use verixa.Prelude.{
  ℕ, zero, suc, ◌+◌, ◌<◌, ◌≤◌, true, false, List, [], ◌∷◌, ◌++◌, Option, none, some, ◌≡◌, refl, sym,
  ap, ◌∙◌, arith, length, take, drop, length-append,
}
use mathlib.Core.Path.{subst}
use mathlib.Core.List.{append_assoc, append-nil}
use verixa.Prelude.Number.{pos, negsuc}
use verixa.Mfa.Cbor.{
  TextCodec, Bytes, Read, Cbor, boolean, null, undefined, number, Items, no_items, item_and,
  Entries, no_entries, entry_and, write_uint, joined, read_length_or_value, as_number, as_negative,
  read_bytes, read_items, read_entries, read_major, read,
}
use verixa.Mfa.Cbor.Head.{
  info_of, argument_bytes, write_uint-cons, read_length_or_value-argument, info_of_lt, major_byte,
}
use verixa.Mfa.Cbor.ReadBack.{limit}
use verixa.Mfa.Cbor.Distinct.{
  is_fresh, snoc, append_entries, is_distinct, set_entry-fresh, append_entries-snoc,
  append_entries-nil,
}

pub joined-some :
    (x y : Option Bytes) (z : Bytes)
    → joined x y ≡ some z
    → (a : Bytes) × (b : Bytes) × (x ≡ some a) × (y ≡ some b) × (a ++ b ≡ z)
joined-some none y z e = absurd (ground arith)
joined-some (some a) none z e = absurd (ground arith)
joined-some (some a) (some b) z e = (a, b, refl, refl, ground arith)

pub some_injective : {A : Type 0} (a b : A) → some a ≡ some b → a ≡ b
some_injective a b e = ground arith

take-append : {A : Type 0} (xs ys : List A) → take (length xs) (xs ++ ys) ≡ xs
take-append [] ys = refl
take-append (x ∷ xs) ys = rw (take-append xs ys)

drop-append : {A : Type 0} (xs ys : List A) → drop (length xs) (xs ++ ys) ≡ ys
drop-append [] ys = refl
drop-append (x ∷ xs) ys = drop-append xs ys

pub read_bytes-append : (xs ys : Bytes) → read_bytes (length xs) (xs ++ ys) ≡ some (xs, ys)
read_bytes-append xs ys =
    rw (take-append xs ys) (rw (drop-append xs ys) (ground (arith, length-append xs ys)))

read-head :
    (codec : TextCodec) (f major n : ℕ) (rest : Bytes)
    → n < limit
    → read codec (suc f) (write_uint major n ++ rest)
      ≡ read_major codec (read codec f) major (info_of n) n rest
unfolding read
read-head codec f major n rest h =
    let b = major_byte major (info_of n) (info_of_lt n) in
    rw (write_uint-cons major n)
      (rw (b.0) (rw (b.1) (rw (read_length_or_value-argument n rest h) refl)))

length-write_uint : (major n : ℕ) → length (write_uint major n) ≡ suc (length (argument_bytes n))
length-write_uint major n = ap length (write_uint-cons major n)

head_pos : (major n : ℕ) (xs bs : Bytes) → write_uint major n ++ xs ≡ bs → length xs + 1 ≤ length bs
head_pos major n xs bs e =
    subst (λ x. length xs + 1 ≤ length x) e
      (omega (arith, length-append (write_uint major n) xs, length-write_uint major n))

-- A value whose encoding is its head and then some bytes.
pub read_body :
    (codec : TextCodec) (f major n : ℕ) (xs bs rest : Bytes) (v : Cbor)
    → n < limit
    → write_uint major n ++ xs ≡ bs
    → length bs ≤ f
    → ((g : ℕ)
        → length xs ≤ g
        → read_major codec (read codec g) major (info_of n) n (xs ++ rest) ≡ some (v, rest))
    → read codec f (bs ++ rest) ≡ some (v, rest)
read_body codec zero major n xs bs rest v h e l k = absurd (omega (arith, head_pos major n xs bs e))
read_body codec (suc f) major n xs bs rest v h e l k =
    ap (λ x. read codec (suc f) (x ++ rest)) (sym e)
    ∙ ap (read codec (suc f)) (append_assoc (write_uint major n) xs rest)
    ∙ read-head codec f major n (xs ++ rest) h
    ∙ k f (omega (arith, head_pos major n xs bs e))

pub read_simple :
    (codec : TextCodec) (f b : ℕ) (bs rest : Bytes) (v : Cbor)
    → b ∷ [] ≡ bs
    → length bs ≤ f
    → ((g : ℕ) → read codec (suc g) (b ∷ rest) ≡ some (v, rest))
    → read codec f (bs ++ rest) ≡ some (v, rest)
read_simple codec zero b bs rest v e l k = absurd (omega (arith, ap length e))
read_simple codec (suc f) b bs rest v e l k = ap (λ x. read codec (suc f) (x ++ rest)) (sym e) ∙ k f

pub read_number :
    (codec : TextCodec) (f major n : ℕ) (bs rest : Bytes) (v : Cbor)
    → n < limit
    → write_uint major n ≡ bs
    → length bs ≤ f
    → ((g : ℕ) → read_major codec (read codec g) major (info_of n) n rest ≡ some (v, rest))
    → read codec f (bs ++ rest) ≡ some (v, rest)
read_number codec f major n bs rest v h e l k =
    read_body codec f major n [] bs rest v h (append-nil (write_uint major n) ∙ e) l (λ g _. k g)

pub parts_le :
    (a b bs : Bytes) (f : ℕ) → a ++ b ≡ bs → length bs ≤ f → (length a ≤ f) × (length b ≤ f)
parts_le a b bs f e l =
    (omega (arith, length-append a b, ap length e), omega (arith, length-append a b, ap length e))

pub distinct_cons :
    (old : Entries) (k v : Cbor) (es : Entries)
    → is_distinct old (entry_and k v es) ≡ true
    → (is_fresh k old ≡ true) × (is_distinct (snoc old k v) es ≡ true)
unfolding is_distinct
distinct_cons old k v es d = ground arith

module _ (reader : Bytes → Read Cbor) where
  pub read_items-nil : (rest : Bytes) → read_items reader 0 rest ≡ some (no_items, rest)
  unfolding read_items
  read_items-nil rest = refl

  pub read_items-cons :
      (v : Cbor) (vs : Items) (n : ℕ) (a b rest : Bytes)
      → reader (a ++ (b ++ rest)) ≡ some (v, b ++ rest)
      → read_items reader n (b ++ rest) ≡ some (vs, rest)
      → read_items reader (suc n) ((a ++ b) ++ rest) ≡ some (item_and v vs, rest)
  unfolding read_items
  read_items-cons v vs n a b rest e g = rw (append_assoc a b rest) (rw e (rw g refl))

  pub read_entries-nil :
      (old : Entries) (rest : Bytes)
      → read_entries reader 0 old rest ≡ some (append_entries old no_entries, rest)
  unfolding read_entries
  read_entries-nil old rest = ap (λ x. some (x, rest)) (sym (append_entries-nil old))

  pub read_entries-cons :
      (k v : Cbor) (es old : Entries) (n : ℕ) (a b c rest : Bytes)
      → is_fresh k old ≡ true
      → reader (a ++ ((b ++ c) ++ rest)) ≡ some (k, (b ++ c) ++ rest)
      → reader (b ++ (c ++ rest)) ≡ some (v, c ++ rest)
      → read_entries reader n (snoc old k v) (c ++ rest)
        ≡ some (append_entries (snoc old k v) es, rest)
      → read_entries reader (suc n) old ((a ++ (b ++ c)) ++ rest)
        ≡ some (append_entries old (entry_and k v es), rest)
  unfolding read_entries
  read_entries-cons k v es old n a b c rest d e g h = rw (append_assoc a (b ++ c) rest) (
      rw e (
        rw (append_assoc b c rest) (
          rw g (
            rw (set_entry-fresh k v old d)
              (h ∙ ap (λ x. some (x, rest)) (append_entries-snoc old k v es))))))

pub simple_read :
    (codec : TextCodec) (g : ℕ) (rest : Bytes)
    → (read codec (suc g) (244 ∷ rest) ≡ some (boolean false, rest))
      × (read codec (suc g) (245 ∷ rest) ≡ some (boolean true, rest))
      × (read codec (suc g) (246 ∷ rest) ≡ some (null, rest))
      × (read codec (suc g) (247 ∷ rest) ≡ some (undefined, rest))
unfolding read read_length_or_value
simple_read codec g rest = (refl, refl, refl, refl)

pub as_number-small :
    (n : ℕ) → n < limit → (as_number n ≡ number (pos n)) × (as_negative n ≡ number (negsuc n))
as_number-small n h = (ground arith, ground arith)
