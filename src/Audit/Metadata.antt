-- ===== src/Audit/Metadata.antt =====
-- packages/audit/domain/value-objects/audit-metadata.ts: the metadata bag of an audit entry, its
-- validation and its canonical form. A `Record<string, string>` is the list of its entries.
pub mod Framing
use mathlib.Core.List.{map}
use verixa.Prelude.{
  ℕ, zero, suc, ◌+◌, ◌-◌, ◌/◌, ◌%◌, ◌*◌, Bool, true, false, List, [], ◌∷◌, ◌++◌, ltb, eqb,
  if◌then◌else◌, length, filter, Option, none, some,
}
use verixa.Prelude.Text.{Text, utf8_byte_length, to_decimal, join, text_eq}
use verixa.Kernel.Result.{Result, ok, err, ◌>>=◌}

pub data RejectionReason : Type 0 where
  too_many_fields empty_key key_too_long non_string_value value_too_long unclassified :
      RejectionReason

abbrev pub max_metadata_entries : ℕ
max_metadata_entries = 32

abbrev pub max_metadata_key_length : ℕ
max_metadata_key_length = 64

abbrev pub max_metadata_value_length : ℕ
max_metadata_value_length = 1024

abbrev pub Metadata : Type 0
Metadata = List (Text × Text)

-- The value of a property of an `unknown` record: a string, or anything else.
pub data Unknown : Type 0 where
  string : Text → Unknown
  other : Unknown

-- The UTF-16 code units of a code point.
abbrev code_units : ℕ → List ℕ
code_units c =
    if ltb c 65536 then c ∷ [] else (55296 + (c - 65536) / 1024) ∷ (56320 + (c - 65536) % 1024) ∷ []

utf16 : Text → List ℕ
utf16 [] = []
utf16 (c ∷ cs) = code_units c ++ utf16 cs

-- `String.length`
pub string_length : Text → ℕ
unfolding utf16
string_length s = length (utf16 s)

check_entry : Text → Unknown → Result Text RejectionReason
unfolding string_length
check_entry key value =
    if eqb (string_length key) 0
    then err empty_key
    else if ltb max_metadata_key_length (string_length key)
    then err key_too_long
    else elim value [
      | other ↦ err non_string_value
      | string v ↦
          if ltb max_metadata_value_length (string_length v) then err value_too_long else ok v
    ]

-- `"__proto__"`
abbrev proto_key : Text
proto_key = b'_' ∷ b'_' ∷ b'p' ∷ b'r' ∷ b'o' ∷ b't' ∷ b'o' ∷ b'_' ∷ b'_' ∷ []

-- `values[key] = value` in an object literal: to `__proto__` a text cannot be assigned, and no entry
-- is made.
abbrev assign_value : Text → Text → Metadata → Metadata
assign_value key value values = if text_eq key proto_key then values else (key, value) ∷ values

check_entries : List (Text × Unknown) → Result Metadata RejectionReason
unfolding check_entry
check_entries [] = ok []
check_entries ((key, value) ∷ input) =
    check_entry key value >>= λ v. check_entries input >>= λ rest. ok (assign_value key v rest)

pub create : List (Text × Unknown) → Result Metadata RejectionReason
unfolding check_entries
create input =
    if ltb max_metadata_entries (length input) then err too_many_fields else check_entries input

-- Keys in the order of `Array.prototype.sort`, by UTF-16 code units.
units_le : List ℕ → List ℕ → Bool
units_le [] t = true
units_le (a ∷ s) [] = false
units_le (a ∷ s) (b ∷ t) = if ltb a b then true else if ltb b a then false else units_le s t

insert_sorted : Text × Text → Metadata → Metadata
unfolding units_le utf16
insert_sorted e [] = e ∷ []
insert_sorted e (f ∷ m) =
    let rest = insert_sorted e m in if units_le (utf16 e.0) (utf16 f.0) then e ∷ f ∷ m else f ∷ rest

unfoldable pub sort_entries : Metadata → Metadata
unfolding insert_sorted
sort_entries [] = []
sort_entries (e ∷ m) = insert_sorted e (sort_entries m)

-- `${utf8ByteLength(field)}:${field}`
unfoldable pub frame : Text → Text
frame field = to_decimal (utf8_byte_length field) ++ b':' ∷ field

abbrev pub segment : Text × Text → Text
segment e = frame e.0 ++ b'=' ∷ frame e.1

pub canonical_form : Metadata → Text
canonical_form m =
    let sorted = sort_entries m in
    join (b';' ∷ []) (to_decimal (length sorted) ∷ map segment sorted)
