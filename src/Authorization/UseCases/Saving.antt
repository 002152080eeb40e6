-- ===== src/Authorization/UseCases/Saving.antt =====
-- Creating and cataloguing, in a store whose roles hold what they may.
use verixa.Prelude.{
  ℕ, String, true, not, ◌&&◌, Option, none, some, if◌then◌else◌, ◌≡◌, refl, All, inl, inr,
  Bool-cases,
}
use verixa.Prelude.Dict.{values}
use verixa.Prelude.Search.{any, every, every-set}
use verixa.Prelude.Text.{Text}
use verixa.Kernel.Result.{Result, ok, err, ◌>>=◌}
use verixa.Authorization.Permission.{
  is_readable, is_global_text, read_global, Permission, PermissionError, is_empty, trim,
  is_global_wildcard,
}
use verixa.Authorization.Role.{
  Role, RoleError, name_required, system_role_immutable, CreateRoleParams, Wanted, raw, parsed, add,
  remove, has, add_all, from, or_throw,
}
use verixa.Authorization.Store.{Store, find_role_by_name, save_role, append_unless, find_key}
use verixa.Authorization.UseCases.{
  UseCaseError, system_role_only, map_err, map_err_ok, save_fresh_role, create_role, or_conflict,
  register_permission, define_permission, after,
}
use verixa.Authorization.Role.Contained.{role_contained, IsMade, every_allowed, create-readable}
use verixa.Authorization.Permission
use verixa.Authorization.Role

-- A property of stores holds after a chain when it holds before and after whatever follows its first link.
abbrev pub IsContained : Store → Type 0
IsContained st = every role_contained (values st.roles) ≡ true

pub after-bind :
    {A B : Type 0} (P : Store → Type 0) (st : Store) (r : Result A UseCaseError)
    (f : A → Result (Store × B) UseCaseError)
    → P st
    → ((a : A) → r ≡ ok a → P (after st (f a)))
    → P (after st (r >>= f))
after-bind P st (ok a) f h k = k a refl
after-bind P st (err e) f h k = h

pub after-map_err :
    {A : Type 0} {X : Type 0} {B : Type 0} (g : X → UseCaseError) (st : Store) (r : Result A X)
    (f : A → Result (Store × B) UseCaseError)
    → IsContained st
    → ((a : A) → r ≡ ok a → IsContained (after st (f a)))
    → IsContained (after st (map_err g r >>= f))
after-map_err g st r f h k =
    after-bind IsContained st (map_err g r) f h (λ a e. k a (map_err_ok g r a e))

pub save_role-IsContained :
    (r : Role) (st : Store)
    → role_contained r ≡ true
    → IsContained st
    → IsContained (save_role r st)
save_role-IsContained r st k h = every-set role_contained r.id r st.roles h k

save_fresh_role-IsContained :
    (r : Role) (st : Store) (found : Option Role)
    → role_contained r ≡ true
    → IsContained st
    → IsContained (after st (save_fresh_role r st found))
save_fresh_role-IsContained r st none k h = save_role-IsContained r st k h
save_fresh_role-IsContained r st (some existing) k h = h

create_checked :
    (role : Role) (st : Store)
    → every is_readable role.permissions ≡ true
    → IsContained st
    → IsContained (
        after st (
          if not role.is_system_role && any is_global_text role.permissions
          then err system_role_only
          else save_fresh_role role st (find_role_by_name role.name st)))
create_checked role st k h =
    elim (Bool-cases (not role.is_system_role && any is_global_text role.permissions)) [
      | inl refused ↦ rw refused h
      | inr passed ↦ rw passed (
          save_fresh_role-IsContained role st (find_role_by_name role.name st)
            (every_allowed role.is_system_role role.permissions k passed) h)
    ]

pub create_role-IsContained :
    (id : String) (now : ℕ) (c : CreateRoleParams) (st : Store)
    → All IsMade c.permissions
    → IsContained st
    → IsContained (after st (create_role id now c st))
unfolding create_role
create_role-IsContained id now c st m h =
    after-map_err _ st (Role.create id now c) _ h
      (λ role e. create_checked role st (create-readable id now c role m e) h)

append_unless-IsContained :
    (p : Permission) (st : Store) (found : Option Permission)
    → IsContained st
    → IsContained (after st (or_conflict p (append_unless p st found)))
append_unless-IsContained p st none h = h
append_unless-IsContained p st (some existing) h = h

register_permission-IsContained :
    (p : Permission) (st : Store) (found : Option Permission)
    → IsContained st
    → IsContained (after st (register_permission p st found))
register_permission-IsContained p st none h =
    append_unless-IsContained p st (find_key p.value st.catalog) h
register_permission-IsContained p st (some existing) h = h

pub define_permission-IsContained :
    (key : Text) (st : Store) → IsContained st → IsContained (after st (define_permission key st))
unfolding define_permission
define_permission-IsContained key st h =
    after-map_err _ st (Permission.create key) _ h (λ p e. register_permission-IsContained p st _ h)
