-- ===== src/Prelude/Text.antt =====
-- Texts that the program takes apart or measures: lists of Unicode code points. Lone surrogates are
-- not texts here. `String(n)`, `Array.prototype.join`, and the lengths of the UTF-8 encoding.
use Prim.Native.Nat.{ℕ, zero, suc, ◌+◌, ◌*◌, ◌-◌, ◌/◌, ◌%◌, ◌≤◌, ◌<◌}
use mathlib.Core.Path.{◌≡◌, refl, ap, ◌∙◌, sym}
use mathlib.Core.Bool.{Bool, true, false, ◌&&◌}
use mathlib.Core.List.{List, [], ◌∷◌, ◌++◌}
use native.Mathlib.Omega.{arith}
use mathlib.Core.Logic.{inl, inr}
use verixa.Prelude.Tests.{Bool-cases, ltb, eqb, if◌then◌else◌}
use verixa.Prelude.Lists.{All}

abbrev pub Text : Type 0
Text = List ℕ

-- The number of bytes of a code point in UTF-8.
abbrev pub utf8_width : ℕ → ℕ
utf8_width c = if ltb c 128 then 1 else if ltb c 2048 then 2 else if ltb c 65536 then 3 else 4

abbrev pub utf8_byte_length : Text → ℕ
utf8_byte_length [] = 0
utf8_byte_length (c ∷ cs) = utf8_width c + utf8_byte_length cs

unfoldable pub text_eq : Text → Text → Bool
text_eq [] [] = true
text_eq [] (_ ∷ _) = false
text_eq (_ ∷ _) [] = false
text_eq (a ∷ s) (b ∷ t) = eqb a b && text_eq s t

pub text_eq→≡ : (a b : Text) → text_eq a b ≡ true → a ≡ b
unfolding text_eq
text_eq→≡ [] [] h = refl
text_eq→≡ [] (_ ∷ _) h = ground arith
text_eq→≡ (_ ∷ _) [] h = ground arith
text_eq→≡ (a ∷ s) (b ∷ t) h = ground (arith, text_eq→≡ s t)

pub text_eq_refl : (a : Text) → text_eq a a ≡ true
unfolding text_eq
text_eq_refl [] = refl
text_eq_refl (a ∷ s) = ground (arith, text_eq_refl s)

-- The decimal digits of a number; as many rounds as the number itself are enough.
digits : ℕ → ℕ → Text
digits zero n = (48 + n) ∷ []
digits (suc f) n = elim (ltb n 10) [
  | true ↦ (48 + n) ∷ []
  | false ↦ digits f (n / 10) ++ (48 + n % 10) ∷ []
]

-- `String(n)` of an integer that is not negative.
unfoldable pub to_decimal : ℕ → Text
unfolding digits
to_decimal n = digits n n

pub read_from : ℕ → Text → ℕ
read_from acc [] = acc
read_from acc (c ∷ cs) = read_from (acc * 10 + (c - 48)) cs

read_from-append :
    (acc : ℕ) (s : Text) (c : ℕ) → read_from acc (s ++ c ∷ []) ≡ read_from acc s * 10 + (c - 48)
unfolding read_from
read_from-append acc [] c = refl
read_from-append acc (d ∷ s) c = read_from-append (acc * 10 + (d - 48)) s c

read_from-digits : (f n : ℕ) → n ≤ f → read_from 0 (digits f n) ≡ n
unfolding digits read_from
read_from-digits zero n h = omega arith
read_from-digits (suc f) n h = elim (Bool-cases (ltb n 10)) [
  | inl small ↦ ground arith
  | inr big ↦ ground (
    arith,
    read_from-append 0 (digits f (n / 10)) (48 + n % 10),
    read_from-digits f (n / 10) (ground arith),
  )
]

pub read_from-to_decimal : (n : ℕ) → read_from 0 (to_decimal n) ≡ n
unfolding to_decimal
read_from-to_decimal n = read_from-digits n n (omega arith)

pub to_decimal-injective : (m n : ℕ) → to_decimal m ≡ to_decimal n → m ≡ n
to_decimal-injective m n e =
    sym (read_from-to_decimal m) ∙ ap (read_from 0) e ∙ read_from-to_decimal n

abbrev pub IsDigit : ℕ → Type 0
IsDigit c = (48 ≤ c) × (c ≤ 57)

All-digits-snoc : (s : Text) (c : ℕ) → All IsDigit s → IsDigit c → All IsDigit (s ++ c ∷ [])
All-digits-snoc [] c h d = (d, tt)
All-digits-snoc (x ∷ s) c h d = (h.0, All-digits-snoc s c h.1 d)

digits-All : (f n : ℕ) → n ≤ f → All IsDigit (digits f n)
unfolding digits
digits-All zero n h = (omega arith, tt)
digits-All (suc f) n h = elim (Bool-cases (ltb n 10)) [
  | inl small ↦ rw (small, All) ((ground arith), tt)
  | inr big ↦
      rw (big, All)
        (All-digits-snoc (digits f (n / 10)) (48 + n % 10) (digits-All f (n / 10) (ground arith))
          (omega arith))
]

pub to_decimal-All : (n : ℕ) → All IsDigit (to_decimal n)
unfolding to_decimal
to_decimal-All n = digits-All n n (omega arith)

-- What may follow a number in a text without being read as part of it.
abbrev pub NoDigit : Text → Type 0
NoDigit [] = Unit
NoDigit (c ∷ s) = 57 < c

pub digits_split :
    (d e x y : Text)
    → All IsDigit d
    → All IsDigit e
    → NoDigit x
    → NoDigit y
    → d ++ x ≡ e ++ y
    → (d ≡ e) × (x ≡ y)
digits_split [] [] x y hd he hx hy p = (refl, p)
digits_split [] (c ∷ e) [] y hd he hx hy p = cc
digits_split [] (c ∷ e) (a ∷ x) y hd he hx hy p = ground arith
digits_split (c ∷ d) [] x [] hd he hx hy p = cc
digits_split (c ∷ d) [] x (a ∷ y) hd he hx hy p = ground arith
digits_split (c ∷ d) (b ∷ e) x y hd he hx hy p =
    let r = digits_split d e x y hd.1 he.1 hx hy (cc) in (cc (r.0), r.1)

pub append_cancel : (p x y : Text) → p ++ x ≡ p ++ y → x ≡ y
append_cancel [] x y e = e
append_cancel (c ∷ p) x y e = append_cancel p x y (cc)

-- Two prefixes of one text that have the same number of bytes are one prefix.
pub bytes_split :
    (a b x y : Text) → utf8_byte_length a ≡ utf8_byte_length b → a ++ x ≡ b ++ y → (a ≡ b) × (x ≡ y)
bytes_split [] [] x y h p = (refl, p)
bytes_split [] (c ∷ b) x y h p = absurd (ground arith)
bytes_split (c ∷ a) [] x y h p = absurd (ground arith)
bytes_split (c ∷ a) (d ∷ b) x y h p =
    let r = bytes_split a b x y (ground arith) (cc) in (cc (r.0), r.1)

abbrev pub each_after : Text → List Text → Text
each_after sep [] = []
each_after sep (y ∷ ys) = sep ++ (y ++ each_after sep ys)

-- `xs.join(sep)`
unfoldable pub join : Text → List Text → Text
join sep [] = []
join sep (x ∷ xs) = x ++ each_after sep xs
