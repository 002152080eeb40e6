-- ===== src/Mfa/Cbor/RoundTrip.antt =====
-- What the decoder reads from an encoded value.
use verixa.Prelude.{
  ℕ, suc, ◌≤◌, true, false, [], ◌++◌, some, ◌≡◌, refl, sym, ap, ◌∙◌, arith, length, length-append,
}
use verixa.Prelude.Number.{pos, negsuc}
use verixa.Prelude.Text.{Text}
use verixa.Mfa.Cbor.ReadBack.{
  KeepsText, IsSmallText, IsSmall, AllSmall, EachSmall, PropertiesSmall, as_read, as_read_items,
  as_read_entries, as_read_properties,
}
use verixa.Mfa.Cbor.{
  TextCodec, object_of, Properties, no_properties, property_and, count_properties, encoded_text,
  encode_properties, Bytes, Cbor, boolean, null, undefined, number, big, big_negative, byte_string,
  text_string, array, map_of, Items, no_items, item_and, Entries, no_entries, entry_and,
  count_items, count_entries, write_uint, joined, encode, encode_items, encode_entries, ◌>>-◌,
  read_items, read_entries, read, decode,
}
use verixa.Mfa.Cbor.Distinct.{snoc, append_entries, is_distinct}
use verixa.Mfa.Cbor.Parts.{
  joined-some, some_injective, read_bytes-append, read_body, read_simple, read_number, parts_le,
  distinct_cons, read_items-nil, read_items-cons, read_entries-nil, read_entries-cons, simple_read,
  as_number-small,
}

append_entries_empty : (es : Entries) → append_entries no_entries es ≡ es
unfolding append_entries
append_entries_empty es = refl

module _ (codec : TextCodec) (keeps : KeepsText codec) where
  read_text :
      (f : ℕ) (t : Text) (bs rest : Bytes)
      → IsSmallText codec t
      → encoded_text codec t ≡ bs
      → length bs ≤ f
      → read codec f (bs ++ rest) ≡ some (text_string t, rest)
  read_text f t bs rest s e l =
      let xs = codec.encode_text t in
      read_body codec f 3 (length xs) xs bs rest (text_string t) s.1 e l (λ g _.
        ap (λ r. r >>- (λ b end. some (text_string (codec.decode_text b), end)))
          (read_bytes-append xs rest)
        ∙ ap (λ x. some (text_string x, rest)) (keeps t s.0))

  mutual
    unfolding encode IsSmall as_read

    read-encode :
        (v : Cbor) (f : ℕ) (bs rest : Bytes)
        → IsSmall codec v
        → encode codec v ≡ some bs
        → length bs ≤ f
        → read codec f (bs ++ rest) ≡ some (as_read v, rest)
    read-encode (boolean false) f bs rest s e l =
        read_simple codec f 244 bs rest _ (some_injective _ bs e) l
          (λ g. (simple_read codec g rest).0)
    read-encode (boolean true) f bs rest s e l =
        read_simple codec f 245 bs rest _ (some_injective _ bs e) l
          (λ g. (simple_read codec g rest).1)
    read-encode null f bs rest s e l =
        read_simple codec f 246 bs rest _ (some_injective _ bs e) l
          (λ g. (simple_read codec g rest).2)
    read-encode undefined f bs rest s e l =
        read_simple codec f 247 bs rest _ (some_injective _ bs e) l
          (λ g. (simple_read codec g rest).3)
    read-encode (number (pos n)) f bs rest s e l =
        read_number codec f 0 n bs rest _ s (some_injective _ bs e) l
          (λ g. ap (λ x. some (x, rest)) (as_number-small n s).0)
    read-encode (number (negsuc n)) f bs rest s e l =
        read_number codec f 1 n bs rest _ s (some_injective _ bs e) l
          (λ g. ap (λ x. some (x, rest)) (as_number-small n s).1)
    read-encode (big n) f bs rest s e l = absurd (ground arith)
    read-encode (big_negative n) f bs rest s e l = absurd (ground arith)
    read-encode (byte_string xs) f bs rest s e l =
        read_body codec f 2 (length xs) xs bs rest _ s (some_injective _ bs e) l
          (λ g _. ap (λ r. r >>- (λ b end. some (byte_string b, end))) (read_bytes-append xs rest))
    read-encode (text_string t) f bs rest s e l = read_text f t bs rest s (some_injective _ bs e) l
    read-encode (array vs) f bs rest s e l =
        let r = joined-some (some (write_uint 4 (count_items vs))) (encode_items codec vs) bs e in
        read_body codec f 4 (count_items vs) r.1 bs rest _ s.0
          (ap (λ x. x ++ r.1) (some_injective _ _ r.2) ∙ r.4) l
          (λ g m.
            ap (λ o. o >>- (λ x end. some (array x, end)))
              (read_items-encode vs g r.1 rest s.1 r.3 m))
    read-encode (map_of es) f bs rest s e l =
        let r =
          joined-some (some (write_uint 5 (count_entries es))) (encode_entries codec es) bs e in
        read_body codec f 5 (count_entries es) r.1 bs rest _ s.0
          (ap (λ x. x ++ r.1) (some_injective _ _ r.2) ∙ r.4) l
          (λ g m.
            ap (λ o. o >>- (λ x end. some (map_of x, end)))
              (read_entries-encode es no_entries g r.1 rest s.2 s.1 r.3 m
                ∙ ap (λ x. some (x, rest)) (append_entries_empty (as_read_entries es))))
    read-encode (object_of ps) f bs rest s e l =
        let r =
          joined-some (some (write_uint 5 (count_properties ps))) (encode_properties codec ps) bs
            e in
        read_body codec f 5 (count_properties ps) r.1 bs rest _ s.0
          (ap (λ x. x ++ r.1) (some_injective _ _ r.2) ∙ r.4) l
          (λ g m.
            ap (λ o. o >>- (λ x end. some (map_of x, end)))
              (read_properties-encode ps no_entries g r.1 rest s.2 s.1 r.3 m
                ∙ ap (λ x. some (x, rest)) (append_entries_empty (as_read_properties ps))))

    read_items-encode :
        (vs : Items) (f : ℕ) (bs rest : Bytes)
        → AllSmall codec vs
        → encode_items codec vs ≡ some bs
        → length bs ≤ f
        → read_items (read codec f) (count_items vs) (bs ++ rest) ≡ some (as_read_items vs, rest)
    read_items-encode no_items f bs rest s e l =
        ap (λ x. read_items (read codec f) 0 (x ++ rest)) (sym (some_injective [] bs e))
        ∙ read_items-nil (read codec f) rest
    read_items-encode (item_and v vs) f bs rest s e l =
        let r = joined-some (encode codec v) (encode_items codec vs) bs e in
        let p = parts_le r.0 r.1 bs f r.4 l in
        ap (λ x. read_items (read codec f) (suc (count_items vs)) (x ++ rest)) (sym r.4)
        ∙ read_items-cons (read codec f) (as_read v) (as_read_items vs) (count_items vs) r.0 r.1
            rest (read-encode v f r.0 (r.1 ++ rest) s.0 r.2 p.0)
            (read_items-encode vs f r.1 rest s.1 r.3 p.1)

    read_entries-encode :
        (es old : Entries) (f : ℕ) (bs rest : Bytes)
        → EachSmall codec es
        → is_distinct old (as_read_entries es) ≡ true
        → encode_entries codec es ≡ some bs
        → length bs ≤ f
        → read_entries (read codec f) (count_entries es) old (bs ++ rest)
          ≡ some (append_entries old (as_read_entries es), rest)
    read_entries-encode no_entries old f bs rest s d e l =
        ap (λ x. read_entries (read codec f) 0 old (x ++ rest)) (sym (some_injective [] bs e))
        ∙ read_entries-nil (read codec f) old rest
    read_entries-encode (entry_and k v es) old f bs rest s d e l =
        let r =
          joined-some (encode codec k) (joined (encode codec v) (encode_entries codec es)) bs e in
        let q = joined-some (encode codec v) (encode_entries codec es) r.1 r.3 in
        let p = parts_le r.0 r.1 bs f r.4 l in
        let p2 = parts_le q.0 q.1 r.1 f q.4 p.1 in
        let fresh = distinct_cons old (as_read k) (as_read v) (as_read_entries es) d in
        ap (λ x. read_entries (read codec f) (suc (count_entries es)) old (x ++ rest)) (sym r.4)
        ∙ ap (λ x. read_entries (read codec f) (suc (count_entries es)) old ((r.0 ++ x) ++ rest))
            (sym q.4)
        ∙ read_entries-cons (read codec f) (as_read k) (as_read v) (as_read_entries es) old
            (count_entries es) r.0 q.0 q.1 rest fresh.0
            (read-encode k f r.0 ((q.0 ++ q.1) ++ rest) s.0 r.2 p.0)
            (read-encode v f q.0 (q.1 ++ rest) s.1 q.2 p2.0)
            (read_entries-encode es (snoc old (as_read k) (as_read v)) f q.1 rest s.2 fresh.1 q.3
              p2.1)

    read_properties-encode :
        (ps : Properties) (old : Entries) (f : ℕ) (bs rest : Bytes)
        → PropertiesSmall codec ps
        → is_distinct old (as_read_properties ps) ≡ true
        → encode_properties codec ps ≡ some bs
        → length bs ≤ f
        → read_entries (read codec f) (count_properties ps) old (bs ++ rest)
          ≡ some (append_entries old (as_read_properties ps), rest)
    read_properties-encode no_properties old f bs rest s d e l =
        ap (λ x. read_entries (read codec f) 0 old (x ++ rest)) (sym (some_injective [] bs e))
        ∙ read_entries-nil (read codec f) old rest
    read_properties-encode (property_and key v ps) old f bs rest s d e l =
        let r =
          joined-some (some (encoded_text codec key))
            (joined (encode codec v) (encode_properties codec ps)) bs e in
        let q = joined-some (encode codec v) (encode_properties codec ps) r.1 r.3 in
        let p = parts_le r.0 r.1 bs f r.4 l in
        let p2 = parts_le q.0 q.1 r.1 f q.4 p.1 in
        let fresh = distinct_cons old (text_string key) (as_read v) (as_read_properties ps) d in
        let n = count_properties ps in
        ap (λ x. read_entries (read codec f) (suc n) old (x ++ rest)) (sym r.4)
        ∙ ap (λ x. read_entries (read codec f) (suc n) old ((r.0 ++ x) ++ rest)) (sym q.4)
        ∙ read_entries-cons (read codec f) (text_string key) (as_read v) (as_read_properties ps) old
            n r.0 q.0 q.1 rest fresh.0
            (read_text f key r.0 ((q.0 ++ q.1) ++ rest) s.0 (some_injective _ r.0 r.2) p.0)
            (read-encode v f q.0 (q.1 ++ rest) s.1 q.2 p2.0)
            (read_properties-encode ps (snoc old (text_string key) (as_read v)) f q.1 rest s.2
              fresh.1 q.3 p2.1)

-- For every pair of a text encoder and a text decoder by which a well-formed text without a byte
-- order mark in front is decoded from its encoding: when a value is encoded whose numbers and
-- lengths are below 2^32, whose texts are such texts, and whose maps and objects have distinct
-- keys, the decoder reads the value back, with a map in the place of each plain object, whatever
-- bytes follow, and leaves those.
pub decode-encode :
    (codec : TextCodec) (v : Cbor) (bs rest : Bytes)
    → KeepsText codec
    → IsSmall codec v
    → encode codec v ≡ some bs
    → decode codec (bs ++ rest) ≡ some (as_read v, rest)
unfolding decode
decode-encode codec v bs rest keeps s e =
    read-encode codec keeps v (suc (length (bs ++ rest))) bs rest s e
      (omega (arith, length-append bs rest))
