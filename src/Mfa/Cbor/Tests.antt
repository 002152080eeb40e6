-- ===== src/Mfa/Cbor/Tests.antt =====
-- The codec on concrete values, with UTF-8.
use verixa.Prelude.{[], ◌∷◌, ◌++◌, true, some, ◌≡◌, refl, arith}
use verixa.Prelude.Number.{pos, negsuc}
use verixa.Prelude.Search.{every}
use verixa.Mfa.Cbor.{
  Bytes, Cbor, boolean, number, text_string, array, map_of, object_of, no_items, item_and,
  no_entries, entry_and, no_properties, property_and, encode, write_uint, decode, read,
  read_length_or_value,
}
use verixa.Mfa.Cbor.RoundTrip.{decode-encode}
use verixa.Mfa.Cbor.Distinct.{is_distinct, is_fresh}
use verixa.Mfa.Cbor.ReadBack.{IsSmall, as_read, is_plain}
use verixa.Mfa.Cbor.Fuel.{decode_enough}
use verixa.Mfa.Cbor.Utf8.{utf8, encode_chars, decode_chars, utf8-KeepsText}

-- [new Map([["k", -7]]), { "é": true }]
abbrev value : Cbor
value = array (
    item_and (map_of (entry_and (text_string (107 ∷ [])) (number (negsuc 6)) no_entries))
      (item_and (object_of (property_and (233 ∷ []) (boolean true) no_properties)) no_items))

abbrev bytes : Bytes
bytes = 130 ∷ 161 ∷ 97 ∷ 107 ∷ 38 ∷ 161 ∷ 98 ∷ 195 ∷ 169 ∷ 245 ∷ []

encoded : encode utf8 value ≡ some bytes
unfolding encode write_uint encode_chars
encoded = refl

-- The plain object comes back as a `Map`.
abbrev back : Cbor
back = array (
    item_and (map_of (entry_and (text_string (107 ∷ [])) (number (negsuc 6)) no_entries))
      (item_and (map_of (entry_and (text_string (233 ∷ [])) (boolean true) no_entries)) no_items))

value_back : as_read value ≡ back
unfolding as_read
value_back = refl

small : IsSmall utf8 value
unfolding IsSmall is_distinct is_fresh as_read is_plain every encode_chars
small = (
  omega arith,
  (
    (omega arith, refl, ((refl, omega arith), omega arith, tt)),
    ((omega arith, refl, ((refl, omega arith), tt, tt)), tt),
  ),
)

-- From 2^32 on a number is written with its high bits lost.
truncated : encode utf8 (number (pos 4294967297)) ≡ some (26 ∷ 0 ∷ 0 ∷ 0 ∷ 1 ∷ [])
unfolding encode write_uint
truncated = refl

-- A byte order mark in front of a text is lost.
mark_lost : decode utf8 (100 ∷ 239 ∷ 187 ∷ 191 ∷ 97 ∷ []) ≡ some (text_string (97 ∷ []), [])
unfolding decode read read_length_or_value decode_chars
mark_lost = refl

decode-encode_example : decode utf8 (bytes ++ 0 ∷ []) ≡ some (as_read value, 0 ∷ [])
decode-encode_example = decode-encode utf8 value bytes (0 ∷ []) utf8-KeepsText small encoded

decode_enough_example : read utf8 11 bytes ≡ decode utf8 bytes
decode_enough_example = decode_enough utf8 11 bytes (omega arith)
