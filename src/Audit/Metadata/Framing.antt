-- ===== src/Audit/Metadata/Framing.antt =====
-- The length-prefixed fields of the canonical forms can be read back: equal texts have equal fields.
use mathlib.Core.List.{map, append_assoc}
use verixa.Prelude.{List, [], ◌∷◌, ◌++◌, ◌≡◌, refl, sym, ◌∙◌, arith, length}
use verixa.Prelude.Text.{
  Text, utf8_byte_length, to_decimal, to_decimal-injective, to_decimal-All, each_after,
  digits_split, bytes_split, append_cancel, join, NoDigit,
}
use verixa.Audit.Metadata.{Metadata, frame, segment, sort_entries, canonical_form}

pub frame_split : (a b x y : Text) → frame a ++ x ≡ frame b ++ y → (a ≡ b) × (x ≡ y)
unfolding frame
frame_split a b x y e =
    let da = to_decimal (utf8_byte_length a) in
    let db = to_decimal (utf8_byte_length b) in
    let r =
      digits_split da db (b':' ∷ (a ++ x)) (b':' ∷ (b ++ y)) (to_decimal-All _) (to_decimal-All _)
        (omega arith) (omega arith)
        (sym (append_assoc da (b':' ∷ a) x) ∙ e ∙ append_assoc db (b':' ∷ b) y) in
    bytes_split a b x y (to_decimal-injective _ _ r.0) (cc (r.1))

segment_split :
    (e f : Text × Text) (x y : Text) → segment e ++ x ≡ segment f ++ y → (e ≡ f) × (x ≡ y)
segment_split (k, v) (j, w) x y p =
    let key = frame_split k j (b'=' ∷ (frame v ++ x)) (b'=' ∷ (frame w ++ y)) (
      sym (append_assoc (frame k) (b'=' ∷ frame v) x)
      ∙ p
      ∙ append_assoc (frame j) (b'=' ∷ frame w) y) in
    let value = frame_split v w x y (cc (key.1)) in (cc (key.0, value.0), value.1)

segments_injective :
    (m n : Metadata)
    → each_after (b';' ∷ []) (map segment m) ≡ each_after (b';' ∷ []) (map segment n)
    → m ≡ n
segments_injective [] [] p = refl
segments_injective [] (f ∷ n) p = cc
segments_injective (e ∷ m) [] p = cc
segments_injective (e ∷ m) (f ∷ n) p =
    let r = segment_split e f _ _ (cc (p)) in cc (r.0, segments_injective m n r.1)

segments-NoDigit : (m : Metadata) → NoDigit (each_after (b';' ∷ []) (map segment m))
segments-NoDigit [] = tt
segments-NoDigit (e ∷ m) = omega arith

pub canonical_form-injective :
    (m n : Metadata) → canonical_form m ≡ canonical_form n → sort_entries m ≡ sort_entries n
unfolding canonical_form join
canonical_form-injective m n p =
    segments_injective _ _
      (digits_split (to_decimal (length (sort_entries m))) (to_decimal (length (sort_entries n))) _
        _ (to_decimal-All _) (to_decimal-All _) (segments-NoDigit _) (segments-NoDigit _) p).1

-- Lists of framed fields, joined by a separator.
frames_tail :
    (sep : Text) (fs gs : List Text)
    → each_after sep (map frame fs) ≡ each_after sep (map frame gs)
    → length fs ≡ length gs
    → fs ≡ gs
frames_tail sep [] [] p l = refl
frames_tail sep [] (g ∷ gs) p l = absurd (omega arith)
frames_tail sep (f ∷ fs) [] p l = absurd (omega arith)
frames_tail sep (f ∷ fs) (g ∷ gs) p l =
    let r = frame_split f g _ _ (append_cancel sep _ _ p) in
    cc (r.0, frames_tail sep fs gs r.1 (omega arith))

pub join-frame-injective :
    (sep : Text) (f g : Text) (fs gs : List Text)
    → length fs ≡ length gs
    → join sep (map frame (f ∷ fs)) ≡ join sep (map frame (g ∷ gs))
    → (f ≡ g) × (fs ≡ gs)
unfolding join
join-frame-injective sep f g fs gs l p =
    let r = frame_split f g _ _ p in (r.0, frames_tail sep fs gs r.1 l)
