-- ===== src/Mfa/Cbor/Utf8.antt =====
-- UTF-8 for the tests of the codec. The decoder drops a byte order mark in front; what it makes of
-- ill-formed bytes is arbitrary.
use verixa.Prelude.{
  ℕ, zero, suc, ◌+◌, ◌-◌, ◌*◌, ◌/◌, ◌%◌, ◌<◌, ◌≤◌, true, false, [], ◌∷◌, ◌++◌, ◌≡◌, refl, ap, ◌∙◌,
  arith, ltb, eqb, if◌then◌else◌, Bool-cases, inl, inr,
}
use verixa.Prelude.Search.{every}
use verixa.Prelude.Text.{Text}
use verixa.Mfa.Cbor.{Bytes, TextCodec}
use verixa.Mfa.Cbor.ReadBack.{is_scalar, is_plain, KeepsText, begins_with_mark}

abbrev encode_char : ℕ → Bytes
encode_char c =
    if ltb c 128
    then c ∷ []
    else if ltb c 2048
    then (192 + c / 64) ∷ (128 + c % 64) ∷ []
    else if ltb c 65536
    then (224 + c / 4096) ∷ (128 + c / 64 % 64) ∷ (128 + c % 64) ∷ []
    else (240 + c / 262144) ∷ (128 + c / 4096 % 64) ∷ (128 + c / 64 % 64) ∷ (128 + c % 64) ∷ []

unfoldable pub encode_chars : Text → Bytes
encode_chars [] = []
encode_chars (c ∷ s) = encode_char c ++ encode_chars s

-- How many bytes follow a leading byte, and the bits that it carries.
abbrev lead : ℕ → ℕ × ℕ
lead b =
    if ltb b 128
    then (0, 0)
    else if ltb b 224
    then (1, b - 192)
    else if ltb b 240
    then (2, b - 224)
    else (3, b - 240)

unfoldable pub decode_chars : ℕ → ℕ → Bytes → Text
decode_chars need bits [] = []
decode_chars zero bits (b ∷ bytes) =
    let rest = decode_chars (lead b).0 (lead b).1 bytes in if ltb b 128 then b ∷ rest else rest
decode_chars (suc zero) bits (b ∷ bytes) = (bits * 64 + (b - 128)) ∷ decode_chars 0 0 bytes
decode_chars (suc (suc need)) bits (b ∷ bytes) =
    decode_chars (suc need) (bits * 64 + (b - 128)) bytes

abbrev without_mark : Text → Text
without_mark [] = []
without_mark (c ∷ s) = if eqb c 65279 then s else c ∷ s

abbrev pub utf8 : TextCodec
utf8 = record {
  encode_text = encode_chars;
  decode_text = λ bytes. without_mark (decode_chars 0 0 bytes);
}

lead-cases :
    (b : ℕ)
    → (128 ≤ b → b < 224 → lead b ≡ (1, b - 192))
      × (224 ≤ b → b < 240 → lead b ≡ (2, b - 224))
      × (240 ≤ b → lead b ≡ (3, b - 240))
lead-cases b = (λ h k. ground arith, λ h k. ground arith, λ h. ground arith)

decode_chars-one :
    (c : ℕ) (bytes : Bytes) → c < 128 → decode_chars 0 0 (c ∷ bytes) ≡ c ∷ decode_chars 0 0 bytes
unfolding decode_chars
decode_chars-one c bytes h = rw ((λ (x : ltb c 128 ≡ true). x) (ground arith)) refl

decode_chars-lead :
    (b : ℕ) (bytes : Bytes)
    → 128 ≤ b
    → decode_chars 0 0 (b ∷ bytes) ≡ decode_chars (lead b).0 (lead b).1 bytes
unfolding decode_chars
decode_chars-lead b bytes h = rw ((λ (x : ltb b 128 ≡ false). x) (ground arith)) refl

-- A leading byte, as the state after it.
after_lead :
    (b need bits : ℕ) (bytes : Bytes)
    → 128 ≤ b
    → lead b ≡ (need, bits)
    → decode_chars 0 0 (b ∷ bytes) ≡ decode_chars need bits bytes
after_lead b need bits bytes h e =
    decode_chars-lead b bytes h ∙ ap (λ p. decode_chars p.0 p.1 bytes) e

decode_chars-last :
    (bits c y : ℕ) (bytes : Bytes)
    → bits * 64 + y ≡ c
    → decode_chars 1 bits ((128 + y) ∷ bytes) ≡ c ∷ decode_chars 0 0 bytes
unfolding decode_chars
decode_chars-last bits c y bytes e =
    ap (λ x. x ∷ decode_chars 0 0 bytes)
      ((λ (p : bits * 64 + (128 + y - 128) ≡ c). p) (omega arith))

decode_chars-more :
    (need bits y : ℕ) (bytes : Bytes)
    → decode_chars (suc (suc need)) bits ((128 + y) ∷ bytes)
      ≡ decode_chars (suc need) (bits * 64 + y) bytes
unfolding decode_chars
decode_chars-more need bits y bytes =
    ap (λ x. decode_chars (suc need) x bytes)
      ((λ (p : bits * 64 + (128 + y - 128) ≡ bits * 64 + y). p) (omega arith))

two_bytes :
    (c : ℕ) (bytes : Bytes)
    → 128 ≤ c
    → c < 2048
    → decode_chars 0 0 ((192 + c / 64) ∷ (128 + c % 64) ∷ bytes) ≡ c ∷ decode_chars 0 0 bytes
two_bytes c bytes h k =
    let b = 192 + c / 64 in
    after_lead b 1 (b - 192) _ (omega arith) ((lead-cases b).0 (omega arith) (omega arith))
    ∙ decode_chars-last (b - 192) c (c % 64) bytes (omega arith)

three_bytes :
    (c : ℕ) (bytes : Bytes)
    → 2048 ≤ c
    → c < 65536
    → decode_chars 0 0 ((224 + c / 4096) ∷ (128 + c / 64 % 64) ∷ (128 + c % 64) ∷ bytes)
      ≡ c ∷ decode_chars 0 0 bytes
three_bytes c bytes h k =
    let b = 224 + c / 4096 in
    after_lead b 2 (b - 224) _ (omega arith) ((lead-cases b).1 (omega arith) (omega arith))
    ∙ decode_chars-more 0 (b - 224) (c / 64 % 64) ((128 + c % 64) ∷ bytes)
    ∙ decode_chars-last ((b - 224) * 64 + c / 64 % 64) c (c % 64) bytes (omega arith)

four_bytes :
    (c : ℕ) (bytes : Bytes)
    → 65536 ≤ c
    → c < 1114112
    → decode_chars 0 0
        ((240 + c / 262144) ∷ (128 + c / 4096 % 64) ∷ (128 + c / 64 % 64) ∷ (128 + c % 64) ∷ bytes)
      ≡ c ∷ decode_chars 0 0 bytes
four_bytes c bytes h k =
    let b = 240 + c / 262144 in
    let high = (b - 240) * 64 + c / 4096 % 64 in
    after_lead b 3 (b - 240) _ (omega arith) ((lead-cases b).2 (omega arith))
    ∙ decode_chars-more 1 (b - 240) (c / 4096 % 64) _
    ∙ decode_chars-more 0 high (c / 64 % 64) ((128 + c % 64) ∷ bytes)
    ∙ decode_chars-last (high * 64 + c / 64 % 64) c (c % 64) bytes (omega arith)

decode_chars-encode_char :
    (c : ℕ) (bytes : Bytes)
    → is_scalar c ≡ true
    → decode_chars 0 0 (encode_char c ++ bytes) ≡ c ∷ decode_chars 0 0 bytes
decode_chars-encode_char c bytes h = elim (Bool-cases (ltb c 128)) [
  | inl a ↦ rw a (decode_chars-one c bytes (ground arith))
  | inr a ↦ elim (Bool-cases (ltb c 2048)) [
    | inl b ↦ rw a (rw b (two_bytes c bytes (ground (arith, a)) (ground (arith, b))))
    | inr b ↦ elim (Bool-cases (ltb c 65536)) [
      | inl d ↦ rw a (rw b (rw d (three_bytes c bytes (ground (arith, b)) (ground (arith, d)))))
      | inr d ↦ rw a (rw b (rw d (four_bytes c bytes (ground (arith, d)) (ground (arith, h, d)))))
    ]
  ]
]

decode_chars-encode_chars :
    (s : Text) → every is_scalar s ≡ true → decode_chars 0 0 (encode_chars s) ≡ s
unfolding encode_chars every decode_chars
decode_chars-encode_chars [] h = refl
decode_chars-encode_chars (c ∷ s) h =
    decode_chars-encode_char c (encode_chars s) (ground arith)
    ∙ ap (λ x. c ∷ x) (decode_chars-encode_chars s (ground arith))

without_mark_plain : (s : Text) → begins_with_mark s ≡ false → without_mark s ≡ s
without_mark_plain [] h = refl
without_mark_plain (c ∷ s) h = rw h refl

pub utf8-KeepsText : KeepsText utf8
unfolding is_plain
utf8-KeepsText s h =
    ap without_mark (decode_chars-encode_chars s (ground arith))
    ∙ without_mark_plain s (ground arith)
