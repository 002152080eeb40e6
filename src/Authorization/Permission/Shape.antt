-- ===== src/Authorization/Permission/Shape.antt =====
-- The form of created permissions, and the parts of a text around one colon.
use verixa.Prelude.{
  ℕ, true, false, List, [], ◌∷◌, ◌++◌, ◌≡◌, refl, sym, ◌∙◌, inl, inr, eqb, arith, Bool-cases, ◌≢◌,
}
use verixa.Prelude.Text.{Text, join}
use mathlib.Core.List.{append-nil}
use verixa.Kernel.Result.{ok}
use verixa.Authorization.Permission.{
  Permission, create, split, trim, trim_start, trim_end, colon, to_head, all_permission_chars,
  is_empty, from_parts, from_normalized, normalize,
}

-- A permission as `create` leaves it: `resource:action`, both parts of allowed characters.
abbrev pub IsValid : Permission → Type 0
IsValid p =
    (p.value ≡ p.resource ++ colon ∷ p.action)
    × (is_empty p.resource ≡ false)
    × (is_empty p.action ≡ false)
    × (all_permission_chars p.resource ≡ true)
    × (all_permission_chars p.action ≡ true)

join-to_head :
    (sep : Text) (c : ℕ) (parts : List Text) → join sep (to_head c parts) ≡ c ∷ join sep parts
unfolding join
join-to_head sep c [] = refl
join-to_head sep c (part ∷ parts) = refl

to_head_some : (c : ℕ) (parts : List Text) → to_head c parts ≢ []
to_head_some c [] h = ground arith
to_head_some c (part ∷ parts) h = ground arith

split_some : (at : ℕ) (s : Text) → split at s ≢ []
unfolding split
split_some at [] h = ground arith
split_some at (c ∷ s) h = ground (arith, to_head_some c (split at s))

join-nil :
    (at : ℕ) (parts : List Text)
    → parts ≢ []
    → join (at ∷ []) ([] ∷ parts) ≡ at ∷ join (at ∷ []) parts
unfolding join
join-nil at [] h = absurd (h refl)
join-nil at (part ∷ parts) h = refl

join_empty : (at : ℕ) → join (at ∷ []) ([] ∷ []) ≡ []
unfolding join
join_empty at = refl

-- Taking a text apart at a character loses nothing.
join-split : (at : ℕ) (s : Text) → join (at ∷ []) (split at s) ≡ s
unfolding split
join-split at [] = join_empty at
join-split at (c ∷ s) = elim (Bool-cases (eqb c at)) [
  | inl same ↦
      rw same
        (rw (join-nil at (split at s) (split_some at s)) (rw (join-split at s) (ground arith)))
  | inr other ↦ rw other (rw (join-to_head (at ∷ []) c (split at s)) (rw (join-split at s)))
]

join_two : (at : ℕ) (a b : Text) → join (at ∷ []) (a ∷ b ∷ []) ≡ a ++ (at ∷ b)
unfolding join
join_two at a b = rw (append-nil b)

is_empty-trim : (s : Text) → is_empty (trim s) ≡ false → is_empty s ≡ false
unfolding trim_start trim_end
is_empty-trim [] h = h
is_empty-trim (c ∷ s) h = refl

from_parts_ok :
    (n a b : Text) (p : Permission)
    → from_parts n (a ∷ b ∷ []) ≡ ok p
    → (p ≡ record { value = n; resource = a; action = b })
      × (is_empty a ≡ false)
      × (is_empty b ≡ false)
      × (all_permission_chars a ≡ true)
      × (all_permission_chars b ≡ true)
from_parts_ok n a b p h = ground (arith, is_empty-trim a, is_empty-trim b)

from_parts-IsValid :
    (n : Text) (parts : List Text) (p : Permission)
    → join (colon ∷ []) parts ≡ n
    → from_parts n parts ≡ ok p
    → IsValid p
from_parts-IsValid n [] p j h = ground arith
from_parts-IsValid n (_ ∷ []) p j h = ground arith
from_parts-IsValid n (_ ∷ _ ∷ _ ∷ _) p j h = ground arith
from_parts-IsValid n (a ∷ b ∷ []) p j h =
    let r = from_parts_ok n a b p h in
    rw (r.0) (sym (sym (join_two colon a b) ∙ j), r.1, r.2, r.3, r.4)

create_parts :
    (n : Text) (p : Permission) → from_normalized n ≡ ok p → from_parts n (split colon n) ≡ ok p
create_parts [] p h = ground arith
create_parts (c ∷ s) p h = h

pub create-IsValid : (raw : Text) (p : Permission) → create raw ≡ ok p → IsValid p
unfolding create
create-IsValid raw p h =
    from_parts-IsValid (normalize raw) (split colon (normalize raw)) p
      (join-split colon (normalize raw)) (create_parts (normalize raw) p h)
