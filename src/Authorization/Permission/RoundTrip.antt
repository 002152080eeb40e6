-- ===== src/Authorization/Permission/RoundTrip.antt =====
-- Permissions created from a resource and an action, against their identifiers.
use verixa.Prelude.{ℕ, true, false, [], ◌∷◌, ◌++◌, map, ◌≡◌, refl, sym, ap, ◌∙◌, eqb, arith}
use verixa.Prelude.Text.{Text}
use verixa.Prelude.Blank.{is_white}
use verixa.Kernel.Result.{ok}
use verixa.Authorization.Permission.{
  Permission, create, split, trim, trim_start, trim_end, lower, colon, all_permission_chars,
  is_permission_char, is_empty, from_parts, from_normalized, normalize,
}
use verixa.Authorization.Permission.Shape.{IsValid, create-IsValid}

-- A character that `trim` and `toLowerCase` leave alone.
abbrev IsPlain : ℕ → Type 0
IsPlain c = (is_white c ≡ false) × (lower c ≡ c)

is_permission_char-IsPlain : (c : ℕ) → is_permission_char c ≡ true → IsPlain c
unfolding is_permission_char lower
is_permission_char-IsPlain c h = (ground arith, ground arith)

is_permission_char-colon : (c : ℕ) → is_permission_char c ≡ true → eqb c colon ≡ false
unfolding is_permission_char
is_permission_char-colon c h = ground arith

colon-IsPlain : IsPlain colon
unfolding lower
colon-IsPlain = (refl, refl)

trim_start-plain : (c : ℕ) (s : Text) → is_white c ≡ false → trim_start (c ∷ s) ≡ c ∷ s
unfolding trim_start
trim_start-plain c s h = ground arith

abbrev AllPlain : Text → Type 0
AllPlain [] = Unit
AllPlain (c ∷ s) = IsPlain c × AllPlain s

trim_end-plain : (s : Text) → AllPlain s → trim_end s ≡ s
unfolding trim_end
trim_end-plain [] h = refl
trim_end-plain (c ∷ []) h = ground (arith, h.0)
trim_end-plain (c ∷ d ∷ s) h = rw (trim_end-plain (d ∷ s) h.1)

lower-plain : (s : Text) → AllPlain s → map lower s ≡ s
lower-plain [] h = refl
lower-plain (c ∷ s) h = rw (h.0.1) (rw (lower-plain s h.1))

normalize-plain : (s : Text) → AllPlain s → normalize s ≡ s
unfolding trim_start trim_end
normalize-plain [] h = refl
normalize-plain (c ∷ s) h =
    rw (trim_start-plain c s h.0.0) (rw (trim_end-plain (c ∷ s) h) (lower-plain (c ∷ s) h))

AllPlain-append : (a b : Text) → all_permission_chars a ≡ true → AllPlain b → AllPlain (a ++ b)
unfolding all_permission_chars
AllPlain-append [] b h k = k
AllPlain-append (c ∷ a) b h k =
    (is_permission_char-IsPlain c (ground arith), AllPlain-append a b (ground arith) k)

split-one : (b : Text) → all_permission_chars b ≡ true → split colon b ≡ b ∷ []
unfolding all_permission_chars split
split-one [] h = refl
split-one (c ∷ b) h = ground (arith, split-one b, is_permission_char-colon c)

split-two :
    (a b : Text)
    → all_permission_chars a ≡ true
    → all_permission_chars b ≡ true
    → split colon (a ++ colon ∷ b) ≡ a ∷ b ∷ []
unfolding all_permission_chars split
split-two [] b h k = ground (arith, split-one b)
split-two (c ∷ a) b h k = ground (arith, split-two a b, is_permission_char-colon c)

All-plain : (s : Text) → all_permission_chars s ≡ true → AllPlain s
unfolding all_permission_chars
All-plain [] h = tt
All-plain (c ∷ s) h = (is_permission_char-IsPlain c (ground arith), All-plain s (ground arith))

is_empty-plain :
    (s : Text) → all_permission_chars s ≡ true → is_empty s ≡ false → is_empty (trim s) ≡ false
unfolding all_permission_chars
is_empty-plain [] h e = absurd (ground arith)
is_empty-plain (c ∷ s) h e =
    let plain : AllPlain (c ∷ s) = All-plain (c ∷ s) h in
    rw (trim_start-plain c s plain.0.0) (rw (trim_end-plain (c ∷ s) plain) refl)

from_parts-valid :
    (n a b : Text)
    → is_empty a ≡ false
    → is_empty b ≡ false
    → all_permission_chars a ≡ true
    → all_permission_chars b ≡ true
    → from_parts n (a ∷ b ∷ []) ≡ ok (record { value = n; resource = a; action = b })
from_parts-valid n a b ea eb ha hb = ground (arith, is_empty-plain a, is_empty-plain b)

create_some :
    (raw n : Text)
    → normalize raw ≡ n
    → is_empty n ≡ false
    → create raw ≡ from_parts n (split colon n)
unfolding create
create_some raw [] e h = absurd (ground arith)
create_some raw (c ∷ s) e h = ap from_normalized e

is_empty-colon : (a b : Text) → is_empty (a ++ colon ∷ b) ≡ false
is_empty-colon [] b = refl
is_empty-colon (c ∷ a) b = refl

pub create-valid :
    (a b : Text)
    → is_empty a ≡ false
    → is_empty b ≡ false
    → all_permission_chars a ≡ true
    → all_permission_chars b ≡ true
    → create (a ++ colon ∷ b) ≡ ok (record { value = a ++ colon ∷ b; resource = a; action = b })
create-valid a b ea eb ha hb =
    let n = a ++ colon ∷ b in
    create_some n n
      (normalize-plain n (AllPlain-append a (colon ∷ b) ha (colon-IsPlain, All-plain b hb)))
      (is_empty-colon a b)
    ∙ ap (from_parts n) (split-two a b ha hb)
    ∙ from_parts-valid n a b ea eb ha hb

-- When a text is accepted as a permission, the stored identifier is its resource, a colon and
-- its action, both of them not empty and of allowed characters, and it is accepted again as the
-- same permission.
pub create-value :
    (raw : Text) (p : Permission) → create raw ≡ ok p → IsValid p × (create p.value ≡ ok p)
create-value raw p h =
    let v = create-IsValid raw p h in
    (
      v,
      ap create v.0
          ∙ create-valid p.resource p.action v.1 v.2 v.3 v.4
          ∙ ap (λ v. ok (record p { value = v })) (sym v.0),
    )
