-- ===== src/Authorization/Permission/Matching.antt =====
-- When a granted permission covers a needed one.
use verixa.Prelude.{true, [], ◌∷◌, ◌++◌, ◌≡◌, refl, sym, ap, ◌∙◌, arith, ◌↔◌, ◌⊎◌}
use verixa.Prelude.Text.{Text, text_eq, text_eq→≡, text_eq_refl}
use verixa.Authorization.Permission.{
  Permission, matches, wildcard, colon, all_permission_chars, is_permission_char,
}
use verixa.Authorization.Permission.Shape.{IsValid}

-- A component of a granted permission covers one that is needed.
abbrev pub Covers : Text → Text → Type 0
Covers granted needed = (granted ≡ wildcard) ⊎ (granted ≡ needed)

before_colon :
    (a b x y : Text)
    → all_permission_chars a ≡ true
    → all_permission_chars b ≡ true
    → a ++ colon ∷ x ≡ b ++ colon ∷ y
    → (a ≡ b) × (x ≡ y)
unfolding all_permission_chars is_permission_char
before_colon [] [] x y h k e = (refl, cc)
before_colon [] (c ∷ b) x y h k e = ground arith
before_colon (c ∷ a) [] x y h k e = ground arith
before_colon (c ∷ a) (d ∷ b) x y h k e =
    let r = before_colon a b x y (ground arith) (ground arith) (cc) in (cc (r.0), r.1)

value_split :
    (p q : Permission)
    → IsValid p
    → IsValid q
    → p.value ≡ q.value
    → (p.resource ≡ q.resource) × (p.action ≡ q.action)
value_split p q v w e =
    before_colon p.resource q.resource p.action q.action v.3 w.3 (sym v.0 ∙ e ∙ w.0)

value_join :
    (p q : Permission)
    → IsValid p
    → IsValid q
    → p.resource ≡ q.resource
    → p.action ≡ q.action
    → p.value ≡ q.value
value_join p q v w r a =
    v.0 ∙ ap (λ x. x ++ colon ∷ p.action) r ∙ ap (λ y. q.resource ++ colon ∷ y) a ∙ sym w.0

≡→text_eq : (a b : Text) → a ≡ b → text_eq a b ≡ true
≡→text_eq a b e = rw e (text_eq_refl b)

pub text_eq_iff : (a b : Text) → (text_eq a b ≡ true) ↔ (a ≡ b)
text_eq_iff a b = (text_eq→≡ a b, ≡→text_eq a b)

pub matches_iff :
    (p q : Permission)
    → IsValid p
    → IsValid q
    → (matches p q ≡ true) ↔ (Covers p.resource q.resource × Covers p.action q.action)
unfolding matches
matches_iff p q v w = ground (
  arith,
  value_split p q v w,
  value_join p q v w,
  text_eq_iff p.value q.value,
  text_eq_iff p.resource q.resource,
  text_eq_iff p.action q.action,
  text_eq_iff p.resource wildcard,
  text_eq_iff p.action wildcard,
)
