-- ===== src/Mfa/Cbor/Head.antt =====
-- The first bytes of an encoded value, against `readLengthOrValue`.
use verixa.Prelude.{ℕ, ◌+◌, ◌*◌, ◌/◌, ◌%◌, ◌<◌, [], ◌∷◌, ◌++◌, some, ltb, if◌then◌else◌, ◌≡◌, arith}
use verixa.Mfa.Cbor.{Bytes, write_uint, read_big_endian, read_length_or_value}

-- The byte that starts the encoding.
abbrev pub info_of : ℕ → ℕ
info_of n = if ltb n 24 then n else if ltb n 256 then 24 else if ltb n 65536 then 25 else 26

abbrev pub argument_bytes : ℕ → Bytes
argument_bytes n =
    if ltb n 24
    then []
    else if ltb n 256
    then n ∷ []
    else if ltb n 65536
    then (n / 256 % 256) ∷ (n % 256) ∷ []
    else (n / 16777216 % 256) ∷ (n / 65536 % 256) ∷ (n / 256 % 256) ∷ (n % 256) ∷ []

pub write_uint-cons :
    (major n : ℕ) → write_uint major n ≡ (major * 32 + info_of n) ∷ argument_bytes n
unfolding write_uint
write_uint-cons major n = ground arith

pub read_length_or_value-argument :
    (n : ℕ) (rest : Bytes)
    → n < 4294967296
    → read_length_or_value (info_of n) (argument_bytes n ++ rest) ≡ some (n, rest)
unfolding read_length_or_value read_big_endian
read_length_or_value-argument n rest h = ground arith

pub info_of_lt : (n : ℕ) → info_of n < 32
info_of_lt n = ground arith

pub major_byte :
    (major i : ℕ) → i < 32 → ((major * 32 + i) / 32 ≡ major) × ((major * 32 + i) % 32 ≡ i)
major_byte major i h = (omega arith, omega arith)
