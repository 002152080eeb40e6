-- ===== src/Authorization/Role/Contained.antt =====
-- What a role may hold: readable permissions, and the global wildcard only if it is a system role.
use verixa.Prelude.{
  ℕ, String, Bool, true, false, not, ◌&&◌, ◌||◌, List, [], ◌∷◌, if◌then◌else◌, ◌≡◌, refl, ap, arith,
  All, inl, inr, Bool-cases,
}
use mathlib.Core.Path.{subst}
use verixa.Prelude.Dict.{set}
use verixa.Prelude.Search.{any, every, every-nil, every-append}
use verixa.Prelude.Text.{Text}
use verixa.Kernel.Result.{Result, ok, err, is_ok, bind_ok, if_ok, ok_injective}
use verixa.Authorization.Permission
use verixa.Authorization.Permission.{
  is_readable, is_global_text, read_global, Permission, PermissionError, is_empty, trim,
  is_global_wildcard,
}
use verixa.Authorization.Permission.RoundTrip.{create-value}
use verixa.Authorization.Role
use verixa.Authorization.Role.{
  Role, RoleError, name_required, system_role_immutable, CreateRoleParams, Wanted, raw, parsed, add,
  remove, has, add_all, from, or_throw,
}

-- What a role may hold, from whether it is a system role.
abbrev pub is_allowed : Bool → Text → Bool
is_allowed system v = is_readable v && (system || not (is_global_text v))

abbrev pub role_contained : Role → Bool
role_contained r = every (is_allowed r.is_system_role) r.permissions

-- A permission object has been made by `Permission.create`.
abbrev pub IsMade : Wanted → Type 0
IsMade (raw s) = Unit
IsMade (parsed p) = Permission.create p.value ≡ ok p

pub readable_made : (p : Permission) → Permission.create p.value ≡ ok p → is_readable p.value ≡ true
readable_made p e = ap is_ok e

pub global_made :
    (p : Permission)
    → Permission.create p.value ≡ ok p
    → is_global_text p.value ≡ is_global_wildcard p
global_made p e = ap read_global e

or_throw_ok :
    (r : Result Permission PermissionError) (p : Permission) → or_throw r ≡ ok p → r ≡ ok p
or_throw_ok (ok q) p h = ground arith
or_throw_ok (err e) p h = ground arith

from_made :
    (w : Wanted) (p : Permission) → IsMade w → from w ≡ ok p → Permission.create p.value ≡ ok p
unfolding from
from_made (raw s) p m h = (create-value s p (or_throw_ok (Permission.create s) p h)).1
from_made (parsed q) p m h = subst (λ x. Permission.create x.value ≡ ok x) (ok_injective q p h) m

module _ (allowed : Text → Bool) where
  every-add :
      (v : Text) (set : List Text)
      → every allowed set ≡ true
      → allowed v ≡ true
      → every allowed (add v set) ≡ true
  unfolding add every
  every-add v set h k = ground (arith, every-append allowed set (v ∷ []))

  every-remove :
      (v : Text) (set : List Text) → every allowed set ≡ true → every allowed (remove v set) ≡ true
  unfolding remove every
  every-remove v [] h = h
  every-remove v (x ∷ set) h = ground (arith, every-remove v set)

add_all-readable :
    (ws : List Wanted) (set set2 : List Text)
    → All IsMade ws
    → every is_readable set ≡ true
    → add_all ws set ≡ ok set2
    → every is_readable set2 ≡ true
unfolding add_all
add_all-readable [] set set2 m h e =
    subst (λ x. every is_readable x ≡ true) (ok_injective set set2 e) h
add_all-readable (w ∷ ws) set set2 m h e =
    let r = bind_ok (from w) _ set2 e in
    let readable = readable_made r.0 (from_made w r.0 m.0 r.1) in
    add_all-readable ws (add r.0.value set) set2 m.1
      (every-add is_readable r.0.value set h readable) r.2

pub every_allowed :
    (system : Bool) (vs : List Text)
    → every is_readable vs ≡ true
    → (not system && any is_global_text vs) ≡ false
    → every (is_allowed system) vs ≡ true
unfolding every any
every_allowed system [] h k = refl
every_allowed system (v ∷ vs) h k = ground (arith, every_allowed system vs)

pub create-readable :
    (id : String) (now : ℕ) (c : CreateRoleParams) (r : Role)
    → All IsMade c.permissions
    → Role.create id now c ≡ ok r
    → every is_readable r.permissions ≡ true
unfolding Role.create
create-readable id now c r m h =
    let set =
      bind_ok (add_all c.permissions []) _ r (if_ok (is_empty (trim c.name)) name_required _ r h) in
    subst (λ x. every is_readable x.permissions ≡ true) (ok_injective _ r set.2)
      (add_all-readable c.permissions [] set.0 m (every-nil is_readable) set.1)

pub grant-contained :
    (p : Permission) (now : ℕ) (role : Role)
    → Permission.create p.value ≡ ok p
    → (is_global_wildcard p && not role.is_system_role) ≡ false
    → role_contained role ≡ true
    → role_contained (Role.grant p now role) ≡ true
unfolding Role.grant
grant-contained p now role m g h =
    let allowed : is_allowed role.is_system_role p.value ≡ true =
      ground (arith, readable_made p m, global_made p m) in
    elim (Bool-cases (has p.value role.permissions)) [
      | inl held ↦ rw held h
      | inr new ↦
          rw new (every-add (is_allowed role.is_system_role) p.value role.permissions h allowed)
    ]

either-contained :
    (test : Bool) (x y revoked : Role)
    → ◌≡◌ {A = Result Role RoleError} (if test then ok x else ok y) (ok revoked)
    → role_contained x ≡ true
    → role_contained y ≡ true
    → role_contained revoked ≡ true
either-contained true x y revoked e h k =
    subst (λ r. role_contained r ≡ true) (ok_injective x revoked e) h
either-contained false x y revoked e h k =
    subst (λ r. role_contained r ≡ true) (ok_injective y revoked e) k

pub revoke-contained :
    (p : Permission) (now : ℕ) (role revoked : Role)
    → role_contained role ≡ true
    → Role.revoke p now role ≡ ok revoked
    → role_contained revoked ≡ true
unfolding Role.revoke
revoke-contained p now role revoked h e =
    either-contained (has p.value role.permissions) _ role revoked
      (if_ok role.is_system_role system_role_immutable _ revoked e)
      (every-remove (is_allowed role.is_system_role) p.value role.permissions h) h
