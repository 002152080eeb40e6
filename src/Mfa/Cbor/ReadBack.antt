-- ===== src/Mfa/Cbor/ReadBack.antt =====
-- The values that the encoder takes without loss, and what the decoder makes of them: a plain object
-- comes back as a `Map`.
use verixa.Prelude.{ℕ, ◌<◌, Bool, true, false, not, ◌&&◌, ◌||◌, [], ◌∷◌, ◌≡◌, length, ltb, leb, eqb}
use verixa.Prelude.Number.{pos, negsuc}
use verixa.Prelude.Search.{every}
use verixa.Prelude.Text.{Text}
use verixa.Mfa.Cbor.{
  TextCodec, Cbor, boolean, null, undefined, number, big, big_negative, byte_string, text_string,
  array, map_of, object_of, Items, no_items, item_and, Entries, no_entries, entry_and, Properties,
  no_properties, property_and, count_items, count_entries, count_properties,
}
use verixa.Mfa.Cbor.Distinct.{is_distinct}

abbrev pub limit : ℕ
limit = 4294967296

-- A code point that is no surrogate.
abbrev pub is_scalar : ℕ → Bool
is_scalar c = ltb c 55296 || (leb 57344 c && ltb c 1114112)

abbrev pub begins_with_mark : Text → Bool
begins_with_mark [] = false
begins_with_mark (c ∷ s) = eqb c 65279

-- A well-formed text that does not begin with a byte order mark.
unfoldable pub is_plain : Text → Bool
unfolding every
is_plain s = every is_scalar s && not (begins_with_mark s)

-- What UTF-8 promises: a plain text is decoded from its encoding.
abbrev pub KeepsText : TextCodec → Type 0
KeepsText codec = (s : Text) → is_plain s ≡ true → codec.decode_text (codec.encode_text s) ≡ s

abbrev pub IsSmallText : TextCodec → Text → Type 0
IsSmallText codec s = (is_plain s ≡ true) × (length (codec.encode_text s) < limit)

unfoldable mutual
  pub as_read : Cbor → Cbor
  as_read (boolean b) = boolean b
  as_read null = null
  as_read undefined = undefined
  as_read (number n) = number n
  as_read (big n) = big n
  as_read (big_negative n) = big_negative n
  as_read (byte_string bytes) = byte_string bytes
  as_read (text_string s) = text_string s
  as_read (array vs) = array (as_read_items vs)
  as_read (map_of es) = map_of (as_read_entries es)
  as_read (object_of ps) = map_of (as_read_properties ps)

  pub as_read_items : Items → Items
  as_read_items no_items = no_items
  as_read_items (item_and v vs) = item_and (as_read v) (as_read_items vs)

  pub as_read_entries : Entries → Entries
  as_read_entries no_entries = no_entries
  as_read_entries (entry_and k v es) = entry_and (as_read k) (as_read v) (as_read_entries es)

  pub as_read_properties : Properties → Entries
  as_read_properties no_properties = no_entries
  as_read_properties (property_and key v ps) =
      entry_and (text_string key) (as_read v) (as_read_properties ps)

-- Numbers and lengths below 2^32, plain texts, and maps and objects whose keys are distinct.
unfoldable mutual
  pub IsSmall : TextCodec → Cbor → Type 0
  IsSmall codec (number (pos n)) = n < limit
  IsSmall codec (number (negsuc n)) = n < limit
  IsSmall codec (byte_string bytes) = length bytes < limit
  IsSmall codec (text_string s) = IsSmallText codec s
  IsSmall codec (array vs) = (count_items vs < limit) × AllSmall codec vs
  IsSmall codec (map_of es) =
      (count_entries es < limit)
      × (is_distinct no_entries (as_read_entries es) ≡ true)
      × EachSmall codec es
  IsSmall codec (object_of ps) =
      (count_properties ps < limit)
      × (is_distinct no_entries (as_read_properties ps) ≡ true)
      × PropertiesSmall codec ps
  IsSmall codec _ = Unit

  pub AllSmall : TextCodec → Items → Type 0
  AllSmall codec no_items = Unit
  AllSmall codec (item_and v vs) = IsSmall codec v × AllSmall codec vs

  pub EachSmall : TextCodec → Entries → Type 0
  EachSmall codec no_entries = Unit
  EachSmall codec (entry_and k v es) = IsSmall codec k × IsSmall codec v × EachSmall codec es

  pub PropertiesSmall : TextCodec → Properties → Type 0
  PropertiesSmall codec no_properties = Unit
  PropertiesSmall codec (property_and key v ps) =
      IsSmallText codec key × IsSmall codec v × PropertiesSmall codec ps
