-- ===== src/Mfa/Cbor/Fuel.antt =====
-- The reader's fuel, against the number of bytes.
use verixa.Prelude.{
  ℕ, zero, suc, ◌+◌, ◌*◌, ◌/◌, ◌%◌, ◌<◌, ◌≤◌, Bool, true, false, [], ◌∷◌, none, some, ltb, eqb,
  if◌then◌else◌, ◌≡◌, refl, ap, ◌∙◌, arith, length, take, drop, length-drop,
}
use verixa.Mfa.Cbor.{
  TextCodec, Bytes, Read, Cbor, item_and, Entries, no_entries, ◌>>-◌, read_big_endian,
  read_length_or_value, read_bytes, read_items, set_entry, read_entries, read_major, read, decode,
}

-- What is left of the bytes is not longer than so many.
abbrev Within : {A : Type 0} → ℕ → Read A → Type 0
Within n none = Unit
Within n (some (a, rest)) = length rest ≤ n

Within-bind :
    {A B : Type 0} (n : ℕ) (r : Read A) (f : A → Bytes → Read B)
    → Within n r
    → ((a : A) (rest : Bytes) → length rest ≤ n → Within n (f a rest))
    → Within n (r >>- f)
Within-bind n none f w k = tt
Within-bind n (some (a, rest)) f w k = k a rest w

Within-mono : {A : Type 0} (m n : ℕ) (r : Read A) → m ≤ n → Within m r → Within n r
Within-mono m n none h w = tt
Within-mono m n (some (a, rest)) h w = omega arith

Within-if :
    {A : Type 0} (n : ℕ) (b : Bool) (x y : Read A)
    → Within n x
    → Within n y
    → Within n (if b then x else y)
Within-if n true x y v w = v
Within-if n false x y v w = w

read_big_endian-Within :
    (k value : ℕ) (bytes : Bytes) → Within (length bytes) (read_big_endian k value bytes)
unfolding read_big_endian
read_big_endian-Within zero value bytes = omega arith
read_big_endian-Within (suc k) value [] = tt
read_big_endian-Within (suc k) value (b ∷ bytes) =
    Within-mono (length bytes) (suc (length bytes)) (read_big_endian k (value * 256 + b) bytes)
      (omega arith) (read_big_endian-Within k (value * 256 + b) bytes)

read_length_or_value-Within :
    (info : ℕ) (bytes : Bytes) → Within (length bytes) (read_length_or_value info bytes)
unfolding read_length_or_value
read_length_or_value-Within info bytes =
    let n = length bytes in
    Within-if n (ltb info 24) _ _ (omega arith) (
      Within-if n (eqb info 24) _ _ (read_big_endian-Within 1 0 bytes) (
        Within-if n (eqb info 25) _ _ (read_big_endian-Within 2 0 bytes) (
          Within-if n (eqb info 26) _ _ (read_big_endian-Within 4 0 bytes)
            (Within-if n (eqb info 27) _ _ (read_big_endian-Within 8 0 bytes) tt))))

read_bytes-Within : (len : ℕ) (bytes : Bytes) → Within (length bytes) (read_bytes len bytes)
read_bytes-Within len bytes =
    Within-if (length bytes) (ltb (length bytes) len) none (some (take len bytes, drop len bytes))
      tt (omega (arith, length-drop len bytes))

module _ (reader : Bytes → Read Cbor)
    (w : (bytes : Bytes) → Within (length bytes) (reader bytes)) where
  read_items-Within :
      (n : ℕ) (bytes : Bytes) (limit : ℕ)
      → length bytes ≤ limit
      → Within limit (read_items reader n bytes)
  unfolding read_items
  read_items-Within zero bytes limit h = h
  read_items-Within (suc n) bytes limit h =
      Within-bind limit (reader bytes) _
        (Within-mono (length bytes) limit (reader bytes) h (w bytes))
        (λ v rest g.
          Within-bind limit (read_items reader n rest) _ (read_items-Within n rest limit g)
            (λ vs end e. e))

  read_entries-Within :
      (n : ℕ) (es : Entries) (bytes : Bytes) (limit : ℕ)
      → length bytes ≤ limit
      → Within limit (read_entries reader n es bytes)
  unfolding read_entries
  read_entries-Within zero es bytes limit h = h
  read_entries-Within (suc n) es bytes limit h =
      Within-bind limit (reader bytes) _
        (Within-mono (length bytes) limit (reader bytes) h (w bytes))
        (λ k rest g.
          Within-bind limit (reader rest) _
            (Within-mono (length rest) limit (reader rest) g (w rest))
            (λ v end e. read_entries-Within n (set_entry k v es) end limit e))

  read_major-Within :
      (codec : TextCodec) (major info value : ℕ) (rest : Bytes) (limit : ℕ)
      → length rest ≤ limit
      → Within limit (read_major codec reader major info value rest)
  read_major-Within codec major info value rest limit h =
      let slice =
        Within-mono (length rest) limit (read_bytes value rest) h (read_bytes-Within value rest) in
      Within-if limit (eqb major 0) _ _ h (
        Within-if limit (eqb major 1) _ _ h (
          Within-if limit (eqb major 2) _ _
            (Within-bind limit (read_bytes value rest) _ slice (λ b end e. e))
            (Within-if limit (eqb major 3) _ _
              (Within-bind limit (read_bytes value rest) _ slice (λ b end e. e))
              (Within-if limit (eqb major 4) _ _
                (Within-bind limit (read_items reader value rest) _
                  (read_items-Within value rest limit h) (λ b end e. e))
                (Within-if limit (eqb major 5) _ _
                  (Within-bind limit (read_entries reader value no_entries rest) _
                    (read_entries-Within value no_entries rest limit h) (λ b end e. e))
                  (Within-if limit (eqb major 6) _ _
                    (Within-mono (length rest) limit (reader rest) h (w rest))
                    (Within-if limit (eqb major 7) _ _ h tt)))))))

read-Within :
    (codec : TextCodec) (f : ℕ) (bytes : Bytes) → Within (length bytes) (read codec f bytes)
unfolding read
read-Within codec zero bytes = tt
read-Within codec (suc f) [] = tt
read-Within codec (suc f) (b ∷ bytes) =
    Within-bind (suc (length bytes)) (read_length_or_value (b % 32) bytes) _
      (Within-mono (length bytes) (suc (length bytes)) (read_length_or_value (b % 32) bytes)
        (omega arith) (read_length_or_value-Within (b % 32) bytes))
      (λ value rest h.
        read_major-Within (read codec f) (read-Within codec f) codec (b / 32) (b % 32) value rest
          (suc (length bytes)) h)

-- Two chains are one when their links are, as far as the bytes go.
bind_congr :
    {A B : Type 0} (n : ℕ) (r s : Read A) (f g : A → Bytes → Read B)
    → r ≡ s
    → Within n r
    → ((a : A) (rest : Bytes) → length rest ≤ n → f a rest ≡ g a rest)
    → r >>- f ≡ s >>- g
bind_congr n none s f g e w k = ap (λ x. x >>- g) e
bind_congr n (some (a, rest)) s f g e w k = k a rest w ∙ ap (λ x. x >>- g) e

if_congr :
    {A : Type 0} (b : Bool) (x x2 y y2 : A)
    → x ≡ x2
    → y ≡ y2
    → (if b then x else y) ≡ (if b then x2 else y2)
if_congr true x x2 y y2 e g = e
if_congr false x x2 y y2 e g = g

module _ (one two : Bytes → Read Cbor) (limit : ℕ)
    (w : (bytes : Bytes) → Within (length bytes) (one bytes))
    (same : (bytes : Bytes) → length bytes ≤ limit → one bytes ≡ two bytes) where
  read_items_congr :
      (n : ℕ) (bytes : Bytes)
      → length bytes ≤ limit
      → read_items one n bytes ≡ read_items two n bytes
  unfolding read_items
  read_items_congr zero bytes h = refl
  read_items_congr (suc n) bytes h =
      bind_congr limit (one bytes) (two bytes) _ _ (same bytes h)
        (Within-mono (length bytes) limit (one bytes) h (w bytes))
        (λ v rest g.
          ap (λ r. r >>- (λ vs end. some (item_and v vs, end))) (read_items_congr n rest g))

  read_entries_congr :
      (n : ℕ) (es : Entries) (bytes : Bytes)
      → length bytes ≤ limit
      → read_entries one n es bytes ≡ read_entries two n es bytes
  unfolding read_entries
  read_entries_congr zero es bytes h = refl
  read_entries_congr (suc n) es bytes h =
      bind_congr limit (one bytes) (two bytes) _ _ (same bytes h)
        (Within-mono (length bytes) limit (one bytes) h (w bytes))
        (λ k rest g.
          bind_congr limit (one rest) (two rest) _ _ (same rest g)
            (Within-mono (length rest) limit (one rest) g (w rest))
            (λ v end e. read_entries_congr n (set_entry k v es) end e))

  read_major_congr :
      (codec : TextCodec) (major info value : ℕ) (rest : Bytes)
      → length rest ≤ limit
      → read_major codec one major info value rest ≡ read_major codec two major info value rest
  read_major_congr codec major info value rest h =
      rw (read_items_congr value rest h)
        (rw (read_entries_congr value no_entries rest h) (rw (same rest h) refl))

read_enough :
    (codec : TextCodec) (f g : ℕ) (bytes : Bytes)
    → length bytes < f
    → length bytes < g
    → read codec f bytes ≡ read codec g bytes
unfolding read
read_enough codec zero g bytes h k = absurd (omega arith)
read_enough codec (suc f) zero bytes h k = absurd (omega arith)
read_enough codec (suc f) (suc g) [] h k = refl
read_enough codec (suc f) (suc g) (b ∷ bytes) h k =
    bind_congr (length bytes) (read_length_or_value (b % 32) bytes)
      (read_length_or_value (b % 32) bytes) _ _ refl (read_length_or_value-Within (b % 32) bytes)
      (λ value rest e.
        read_major_congr (read codec f) (read codec g) (length bytes) (read-Within codec f)
          (λ bs l. read_enough codec f g bs (omega arith) (omega arith)) codec (b / 32) (b % 32)
          value rest e)

-- The reader never lacks fuel: for any text codec, with any fuel above the number of bytes it
-- answers as the decoder does, with a value or with an error.
pub decode_enough :
    (codec : TextCodec) (f : ℕ) (bytes : Bytes)
    → length bytes < f
    → read codec f bytes ≡ decode codec bytes
unfolding decode
decode_enough codec f bytes h = read_enough codec f (suc (length bytes)) bytes h (omega arith)
