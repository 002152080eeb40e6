-- ===== src/Mfa/Store/Indexed.antt =====
-- A repository whose entries stand once, each under its method's id, and searches in it.
use verixa.Prelude.{
  String, Bool, true, false, ◌&&◌, List, [], ◌∷◌, Option, none, some, ◌==◌, eq_iff, if◌then◌else◌,
  ◌≡◌, ◌≢◌, refl, sym, ap, ◌∙◌, arith, Bool-cases, inl, inr, filter,
}
use mathlib.Core.Path.{subst}
use verixa.Prelude.Dict.{get, set, values, get-set}
use verixa.Mfa.Method.{MfaMethod}
use verixa.Mfa.Store.{Methods}

abbrev pub IsIndexed : Methods → Type 0
IsIndexed [] = Unit
IsIndexed ((key, m) ∷ st) = (key ≡ m.id) × (get key st ≡ none) × IsIndexed st

-- The first method that passes a test.
unfoldable pub first : (MfaMethod → Bool) → List MfaMethod → Option MfaMethod
first p [] = none
first p (m ∷ ms) = if p m then some m else first p ms

pub first-filter :
    (p q : MfaMethod → Bool) (ms : List MfaMethod)
    → first p (filter q ms) ≡ first (λ m. q m && p m) ms
unfolding first
first-filter p q [] = refl
first-filter p q (m ∷ ms) = ground (arith, first-filter p q ms)

pub first-holds :
    (p : MfaMethod → Bool) (ms : List MfaMethod) (m : MfaMethod) → first p ms ≡ some m → p m ≡ true
unfolding first
first-holds p [] m e = absurd (ground arith)
first-holds p (x ∷ ms) m e = ground (arith, first-holds p ms m, λ (q : x ≡ m). ap p q)

some-none : {A : Type 0} (a : A) → some a ≢ none
some-none a h = ground arith

clashes : {b : Bool} → b ≡ false → b ≢ true
clashes h k = ground arith

differs : (a b : String) → b == a ≡ false → a == b ≡ false
differs a b h = ground (arith, eq_iff a b, eq_iff b a)

pub first-get :
    (p : MfaMethod → Bool) (st : Methods) (m : MfaMethod)
    → IsIndexed st
    → first p (values st) ≡ some m
    → get m.id st ≡ some m
unfolding first get
first-get p [] m k e = absurd (ground arith)
first-get p ((key, x) ∷ st) m k e = elim (Bool-cases (p x)) [
  | inl here ↦
      let found : x ≡ m = ground (arith, here) in
      rw ((eq_iff key m.id).1 (k.0 ∙ ap (λ y. y.id) found)) (ap some found)
  | inr later ↦
      let r = first-get p st m k.2 (ground (arith, later)) in
      elim (Bool-cases (key == m.id)) [
        | inl same ↦
            absurd (some-none m (sym r ∙ ap (λ y. get y st) (sym ((eq_iff key m.id).0 same)) ∙ k.1))
        | inr other ↦ rw other r
      ]
]

pub set-IsIndexed : (m : MfaMethod) (st : Methods) → IsIndexed st → IsIndexed (set m.id m st)
unfolding set get
set-IsIndexed m [] k = (refl, refl, tt)
set-IsIndexed m ((key, x) ∷ st) k = elim (Bool-cases (key == m.id)) [
  | inl same ↦ rw same (refl, subst (λ y. get y st ≡ none) ((eq_iff key m.id).0 same) k.1, k.2)
  | inr other ↦
      rw other
        (k.0, get-set m.id key m st ∙ rw (differs m.id key other) k.1, set-IsIndexed m st k.2)
]

pub first-set :
    (p : MfaMethod → Bool) (m n : MfaMethod) (st : Methods)
    → IsIndexed st
    → first p (values st) ≡ some m
    → n.id ≡ m.id
    → p n ≡ true
    → first p (values (set n.id n st)) ≡ some n
unfolding first set
first-set p m n [] k e i h = absurd (ground arith)
first-set p m n ((key, x) ∷ st) k e i h = elim (Bool-cases (key == n.id)) [
  | inl same ↦ rw same (rw h refl)
  | inr other ↦ rw other (elim (Bool-cases (p x)) [
    | inl here ↦
        let found : x ≡ m = ground (arith, here) in
        absurd (clashes other ((eq_iff key n.id).1 (k.0 ∙ ap (λ y. y.id) found ∙ sym i)))
    | inr later ↦ rw later (first-set p m n st k.2 (ground (arith, later)) i h)
  ])
]
