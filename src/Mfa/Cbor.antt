-- ===== src/Mfa/Cbor.antt =====
-- packages/mfa/infrastructure/webauthn/cbor.ts: the CBOR codec of the security keys' messages. A byte
-- is a number below 256. `TextEncoder` and `TextDecoder` are the fields of an argument, on texts as
-- lists of code points. A plain object is its properties in the order of `Object.entries`. An error is
-- none.
pub mod Parts
pub mod Distinct
pub mod ReadBack
pub mod Head
pub mod RoundTrip
pub mod Fuel
mod Utf8
mod Tests
use verixa.Prelude.{
  ℕ, zero, suc, ◌+◌, ◌*◌, ◌/◌, ◌%◌, Bool, true, false, ◌&&◌, ◌||◌, not, List, [], ◌∷◌, ◌++◌, Option,
  none, some, ltb, leb, eqb, if◌then◌else◌, length, take, drop,
}
use verixa.Prelude.Number.{ℤ, pos, negsuc}
use verixa.Prelude.Text.{Text, text_eq}

abbrev pub Bytes : Type 0
Bytes = List ℕ

-- `TextEncoder.encode`, and `TextDecoder.decode` for UTF-8.
pub record TextCodec : Type 0 where
  pub encode_text : Text → Bytes
  pub decode_text : Bytes → Text

-- `big n` is a BigInt; `big_negative n` is `-1 - Number(n)` for such an `n`, a rounded number.
mutual
  pub data Cbor : Type 0 where
    boolean : Bool → Cbor
    null : Cbor
    undefined : Cbor
    number : ℤ → Cbor
    big : ℕ → Cbor
    big_negative : ℕ → Cbor
    byte_string : Bytes → Cbor
    text_string : Text → Cbor
    array : Items → Cbor
    map_of : Entries → Cbor
    object_of : Properties → Cbor

  pub data Items : Type 0 where
    no_items : Items
    item_and : Cbor → Items → Items

  pub data Entries : Type 0 where
    no_entries : Entries
    entry_and : Cbor → Cbor → Entries → Entries

  pub data Properties : Type 0 where
    no_properties : Properties
    property_and : Text → Cbor → Properties → Properties

abbrev pub count_items : Items → ℕ
count_items no_items = 0
count_items (item_and v items) = suc (count_items items)

abbrev pub count_entries : Entries → ℕ
count_entries no_entries = 0
count_entries (entry_and k v entries) = suc (count_entries entries)

abbrev pub count_properties : Properties → ℕ
count_properties no_properties = 0
count_properties (property_and key v properties) = suc (count_properties properties)

-- `writeUint`: a number from 2^32 on loses its high bits.
unfoldable pub write_uint : ℕ → ℕ → Bytes
write_uint major num =
    if ltb num 24
    then (major * 32 + num) ∷ []
    else if ltb num 256
    then (major * 32 + 24) ∷ num ∷ []
    else if ltb num 65536
    then (major * 32 + 25) ∷ (num / 256 % 256) ∷ (num % 256) ∷ []
    else (major * 32 + 26)
      ∷ (num / 16777216 % 256)
      ∷ (num / 65536 % 256)
      ∷ (num / 256 % 256)
      ∷ (num % 256)
      ∷ []

abbrev pub joined : Option Bytes → Option Bytes → Option Bytes
joined none _ = none
joined (some a) none = none
joined (some a) (some b) = some (a ++ b)

abbrev pub encoded_text : TextCodec → Text → Bytes
encoded_text codec s = write_uint 3 (length (codec.encode_text s)) ++ codec.encode_text s

unfoldable mutual
  pub encode : TextCodec → Cbor → Option Bytes
  encode codec (boolean false) = some (244 ∷ [])
  encode codec (boolean true) = some (245 ∷ [])
  encode codec null = some (246 ∷ [])
  encode codec undefined = some (247 ∷ [])
  encode codec (number (pos n)) = some (write_uint 0 n)
  encode codec (number (negsuc n)) = some (write_uint 1 n)
  encode codec (big _) = none
  encode codec (big_negative _) = none
  encode codec (text_string s) = some (encoded_text codec s)
  encode codec (byte_string bytes) = some (write_uint 2 (length bytes) ++ bytes)
  encode codec (array items) =
      joined (some (write_uint 4 (count_items items))) (encode_items codec items)
  encode codec (map_of entries) =
      joined (some (write_uint 5 (count_entries entries))) (encode_entries codec entries)
  encode codec (object_of properties) =
      joined (some (write_uint 5 (count_properties properties)))
        (encode_properties codec properties)

  pub encode_items : TextCodec → Items → Option Bytes
  encode_items codec no_items = some []
  encode_items codec (item_and v items) = joined (encode codec v) (encode_items codec items)

  pub encode_entries : TextCodec → Entries → Option Bytes
  encode_entries codec no_entries = some []
  encode_entries codec (entry_and k v entries) =
      joined (encode codec k) (joined (encode codec v) (encode_entries codec entries))

  pub encode_properties : TextCodec → Properties → Option Bytes
  encode_properties codec no_properties = some []
  encode_properties codec (property_and key v properties) =
      joined (some (encoded_text codec key))
        (joined (encode codec v) (encode_properties codec properties))

abbrev pub Read : Type 0 → Type 0
Read A = Option (A × Bytes)

infixl 5 ◌>>-◌
abbrev pub ◌>>-◌ : {A B : Type 0} → Read A → (A → Bytes → Read B) → Read B
none >>- f = none
(some (a, rest)) >>- f = f a rest

-- A number of so many bytes, the highest first.
unfoldable pub read_big_endian : ℕ → ℕ → Bytes → Read ℕ
read_big_endian zero value bytes = some (value, bytes)
read_big_endian (suc k) value [] = none
read_big_endian (suc k) value (b ∷ bytes) = read_big_endian k (value * 256 + b) bytes

-- `readLengthOrValue`
unfoldable pub read_length_or_value : ℕ → Bytes → Read ℕ
read_length_or_value info bytes =
    if ltb info 24
    then some (info, bytes)
    else if eqb info 24
    then read_big_endian 1 0 bytes
    else if eqb info 25
    then read_big_endian 2 0 bytes
    else if eqb info 26
    then read_big_endian 4 0 bytes
    else if eqb info 27
    then read_big_endian 8 0 bytes
    else none

abbrev pub max_safe_integer : ℕ
max_safe_integer = 9007199254740991

abbrev pub as_number : ℕ → Cbor
as_number n = if leb n max_safe_integer then number (pos n) else big n

abbrev pub as_negative : ℕ → Cbor
as_negative n = if leb n max_safe_integer then number (negsuc n) else big_negative n

-- `subarray`, where the buffer is long enough.
abbrev pub read_bytes : ℕ → Bytes → Read Bytes
read_bytes len bytes =
    if ltb (length bytes) len then none else some (take len bytes, drop len bytes)

-- The loop over the items of an array, from the reader of one value.
unfoldable pub read_items : (Bytes → Read Cbor) → ℕ → Bytes → Read Items
read_items reader zero bytes = some (no_items, bytes)
read_items reader (suc n) bytes =
    reader bytes
    >>- (λ v rest. read_items reader n rest >>- (λ items end. some (item_and v items, end)))

abbrev pub same_bool : Bool → Bool → Bool
same_bool true b = b
same_bool false b = not b

abbrev pub same_int : ℤ → ℤ → Bool
same_int (pos a) (pos b) = eqb a b
same_int (negsuc a) (negsuc b) = eqb a b
same_int (pos _) (negsuc _) = false
same_int (negsuc _) (pos _) = false

-- Equality of the keys of a `Map`: an object is itself only.
abbrev pub same_key : Cbor → Cbor → Bool
same_key (boolean a) (boolean b) = same_bool a b
same_key null null = true
same_key undefined undefined = true
same_key (number a) (number b) = same_int a b
same_key (big a) (big b) = eqb a b
same_key (text_string a) (text_string b) = text_eq a b
same_key _ _ = false

-- `Map.set`
unfoldable pub set_entry : Cbor → Cbor → Entries → Entries
set_entry k v no_entries = entry_and k v no_entries
set_entry k v (entry_and k2 w entries) =
    let rest = set_entry k v entries in
    if same_key k2 k then entry_and k2 v entries else entry_and k2 w rest

-- The loop over the entries of a map, with those read so far.
unfoldable pub read_entries : (Bytes → Read Cbor) → ℕ → Entries → Bytes → Read Entries
read_entries reader zero entries bytes = some (entries, bytes)
read_entries reader (suc n) entries bytes =
    reader bytes
    >>- (λ k rest. reader rest >>- (λ v end. read_entries reader n (set_entry k v entries) end))

abbrev pub simple_value : ℕ → ℕ → Cbor
simple_value info value =
    if eqb info 20
    then boolean false
    else if eqb info 21
    then boolean true
    else if eqb info 22
    then null
    else if eqb info 23
    then undefined
    else as_number value

-- The `switch` on the major type, with the reader for what is inside.
abbrev pub read_major : TextCodec → (Bytes → Read Cbor) → ℕ → ℕ → ℕ → Bytes → Read Cbor
read_major codec reader major info value rest =
    if eqb major 0
    then some (as_number value, rest)
    else if eqb major 1
    then some (as_negative value, rest)
    else if eqb major 2
    then read_bytes value rest >>- (λ bytes end. some (byte_string bytes, end))
    else if eqb major 3
    then read_bytes value rest >>- (λ bytes end. some (text_string (codec.decode_text bytes), end))
    else if eqb major 4
    then read_items reader value rest >>- (λ items end. some (array items, end))
    else if eqb major 5
    then read_entries reader value no_entries rest >>- (λ entries end. some (map_of entries, end))
    else if eqb major 6
    then reader rest
    else if eqb major 7
    then some (simple_value info value, rest)
    else none

-- `CborReader.read`, on fuel: a value inside another is read with one less.
unfoldable pub read : TextCodec → ℕ → Bytes → Read Cbor
read codec zero bytes = none
read codec (suc fuel) [] = none
read codec (suc fuel) (b ∷ bytes) =
    read_length_or_value (b % 32) bytes
    >>- (λ value rest. read_major codec (read codec fuel) (b / 32) (b % 32) value rest)

-- `decodeCbor`; what follows the value is not looked at.
unfoldable pub decode : TextCodec → Bytes → Read Cbor
decode codec bytes = read codec (suc (length bytes)) bytes
