-- ===== src/Authorization/Store.antt =====
-- packages/authorization/infrastructure/fakes: the repositories of roles, role assignments and
-- catalogued permissions, as the maps of the in-memory implementations.
use verixa.Prelude.{
  ℕ, String, Bool, true, false, not, ◌&&◌, List, [], ◌∷◌, ◌++◌, Option, none, some, ◌==◌,
  if◌then◌else◌, filter,
}
use verixa.Prelude.Dict.{Dict, get, set, delete, values}
use verixa.Prelude.Text.{Text, text_eq}
use verixa.Kernel.Result.{Result, ok, err}
use verixa.Authorization.Permission.{Permission, normalize, trim}
use verixa.Authorization.Role.{Role, RoleError, system_role_immutable}
use verixa.Authorization.RoleAssignment.{UserRoleAssignment, is_expired}

-- The catalogue is in the order of registration; a permission's key is its value.
pub record Store : Type 0 where
  pub roles : Dict Role
  pub assignments : Dict UserRoleAssignment
  pub catalog : List Permission

abbrev pub find_role_by_id : String → Store → Option Role
find_role_by_id id st = get id st.roles

unfoldable pub find_named : Text → List Role → Option Role
find_named name [] = none
find_named name (r ∷ rs) = if text_eq r.name name then some r else find_named name rs

abbrev pub find_role_by_name : Text → Store → Option Role
find_role_by_name name st = find_named (trim name) (values st.roles)

abbrev pub save_role : Role → Store → Store
save_role r st = record st { roles = set r.id r st.roles }

abbrev pub delete_found : String → Store → Option Role → Result Store RoleError
delete_found id st none = ok st
delete_found id st (some r) =
    if r.is_system_role
    then err system_role_immutable
    else ok (record st { roles = delete id st.roles })

abbrev pub delete_role : String → Store → Result Store RoleError
delete_role id st = delete_found id st (get id st.roles)

-- `===` on organisation ids or null.
abbrev pub same_org : Option String → Option String → Bool
same_org none none = true
same_org none (some _) = false
same_org (some _) none = false
same_org (some a) (some b) = a == b

abbrev pub is_active : String → Option String → ℕ → UserRoleAssignment → Bool
is_active user_id org_id now a =
    (a.user_id == user_id && same_org a.org_id org_id) && not (is_expired a now)

-- `findByUserAndOrg` with `includeExpired: false`.
unfoldable pub find_by_user_and_org : String → Option String → ℕ → Store → List UserRoleAssignment
find_by_user_and_org user_id org_id now st =
    filter (is_active user_id org_id now) (values st.assignments)

abbrev pub find_assignment_by_id : String → Store → Option UserRoleAssignment
find_assignment_by_id id st = get id st.assignments

abbrev pub save_assignment : UserRoleAssignment → Store → Store
save_assignment a st = record st { assignments = set a.id a st.assignments }

abbrev pub revoke_assignment : String → Store → Store
revoke_assignment id st = record st { assignments = delete id st.assignments }

unfoldable pub find_key : Text → List Permission → Option Permission
find_key key [] = none
find_key key (p ∷ ps) = if text_eq p.value key then some p else find_key key ps

abbrev pub find_permission_by_key : Text → Store → Option Permission
find_permission_by_key key st = find_key (normalize key) st.catalog

abbrev pub append_unless : Permission → Store → Option Permission → Option Store
append_unless p st none = some (record st { catalog = st.catalog ++ p ∷ [] })
append_unless p st (some existing) = none

-- Registers a permission; none is `ConflictError`.
abbrev pub save_permission : Permission → Store → Option Store
save_permission p st = append_unless p st (find_key p.value st.catalog)
