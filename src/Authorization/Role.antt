-- ===== src/Authorization/Role.antt =====
-- packages/authorization/domain/entities/role.ts: roles, named sets of permissions. A set is the list
-- of its items in the order of insertion. `createId` and `new Date()` are arguments; what throws
-- returns an error.
pub mod Contained
use verixa.Prelude.{
  ℕ, String, Bool, true, false, ◌&&◌, ◌||◌, List, [], ◌∷◌, ◌++◌, Option, none, some, if◌then◌else◌,
}
use verixa.Prelude.Text.{Text, text_eq}
use verixa.Kernel.Result.{Result, ok, err, ◌>>=◌}
use verixa.Authorization.Permission
use verixa.Authorization.Permission.{Permission, PermissionError, trim, is_empty, colon, wildcard}

pub record Role : Type 0 where
  pub id : String
  pub name : Text
  pub description : Option Text
  pub is_system_role : Bool
  pub permissions : List Text
  pub created_at : ℕ
  pub updated_at : ℕ

pub data RoleError : Type 0 where
  name_required : RoleError
  -- `SystemRoleImmutableError`
  system_role_immutable : RoleError
  -- What `Permission.from` throws.
  invalid_permission : PermissionError → RoleError

-- `Permission | string`
pub data Wanted : Type 0 where
  parsed : Permission → Wanted
  raw : Text → Wanted

pub record CreateRoleParams : Type 0 where
  pub name : Text
  pub description : Option Text
  pub is_system_role : Option Bool
  pub permissions : List Wanted

-- `Set.has` and `Set.add`
unfoldable pub has : Text → List Text → Bool
has wanted [] = false
has wanted (v ∷ vs) = text_eq v wanted || has wanted vs

unfoldable pub add : Text → List Text → List Text
add v set = if has v set then set else set ++ v ∷ []

unfoldable pub remove : Text → List Text → List Text
remove gone [] = []
remove gone (v ∷ vs) = let rest = remove gone vs in if text_eq v gone then rest else v ∷ rest

abbrev pub or_throw : Result Permission PermissionError → Result Permission RoleError
or_throw (ok p) = ok p
or_throw (err e) = err (invalid_permission e)

-- `typeof p === "string" ? Permission.from(p) : p`
unfoldable pub from : Wanted → Result Permission RoleError
from (parsed p) = ok p
from (raw s) = or_throw (Permission.create s)

unfoldable pub add_all : List Wanted → List Text → Result (List Text) RoleError
add_all [] set = ok set
add_all (w ∷ ws) set = from w >>= (λ p. add_all ws (add p.value set))

abbrev pub trim_description : Option Text → Option Text
trim_description none = none
trim_description (some d) = some (trim d)

abbrev pub or_false : Option Bool → Bool
or_false none = false
or_false (some b) = b

unfoldable pub create : String → ℕ → CreateRoleParams → Result Role RoleError
create id now params =
    if is_empty (trim params.name)
    then err name_required
    else add_all params.permissions [] >>= (λ initial_permissions. ok (record {
      id = id;
      name = trim params.name;
      description = trim_description params.description;
      is_system_role = or_false params.is_system_role;
      permissions = initial_permissions;
      created_at = now;
      updated_at = now;
    }))

unfoldable pub grant : Permission → ℕ → Role → Role
grant p now role =
    if has p.value role.permissions
    then role
    else record role { permissions = add p.value role.permissions; updated_at = now }

unfoldable pub revoke : Permission → ℕ → Role → Result Role RoleError
revoke p now role =
    if role.is_system_role
    then err system_role_immutable
    else if has p.value role.permissions
    then ok (record role { permissions = remove p.value role.permissions; updated_at = now })
    else ok role

unfoldable pub rename : Text → ℕ → Role → Result Role RoleError
rename new_name now role =
    if role.is_system_role
    then err system_role_immutable
    else if is_empty (trim new_name)
    then err name_required
    else if text_eq role.name (trim new_name)
    then ok role
    else ok (record role { name = trim new_name; updated_at = now })

abbrev pub update_description : Option Text → ℕ → Role → Role
update_description description now role = record role {
  description = trim_description description;
  updated_at = now;
}

unfoldable pub has_permission : Permission → Role → Bool
has_permission needed role =
    if has needed.value role.permissions
    then true
    else has (needed.resource ++ colon ∷ wildcard) role.permissions
