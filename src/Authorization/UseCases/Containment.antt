-- ===== src/Authorization/UseCases/Containment.antt =====
-- What roles may come to hold: readable permissions, and the global wildcard in system roles only.
use verixa.Prelude.{
  ℕ, String, true, not, ◌&&◌, List, [], ◌∷◌, Option, none, some, if◌then◌else◌, ◌≡◌, sym, ap, ◌∙◌,
  arith, All, inl, inr, Bool-cases, Option-cases,
}
use verixa.Prelude.Search.{every-get, every-delete}
use verixa.Prelude.Text.{Text}
use verixa.Kernel.Result.{ok, err, ok_injective}
use verixa.Authorization.Permission
use verixa.Authorization.Permission.{
  is_readable, is_global_text, read_global, Permission, PermissionError, is_empty, trim,
  is_global_wildcard,
}
use verixa.Authorization.Permission.RoundTrip.{create-value}
use verixa.Authorization.Role
use verixa.Authorization.Role.{
  Role, RoleError, name_required, system_role_immutable, CreateRoleParams, Wanted, raw, parsed, add,
  remove, has, add_all, from, or_throw,
}
use verixa.Authorization.RoleAssignment
use verixa.Authorization.RoleAssignment.{UserRoleAssignment, Scope, undefined, global, scoped}
use verixa.Authorization.Store.{Store, find_role_by_id, delete_found, find_permission_by_key}
use verixa.Authorization.UseCases.{
  system_role_only, require_role, grant_catalogued, assign_permission_to_role,
  revoke_permission_from_role, AssignRoleCommand, RevokeRoleCommand, assign_role_to_user,
  assign_new, assignment_params, bad_assignment, revoke_role_from_user, revoke_found,
  revoke_by_tuple, revoke_named, Operation, creating_role, defining_permission,
  assigning_permission, revoking_permission, assigning_role, revoking_role, deleting_role, after,
  or_unchanged, run, run_all,
}
use verixa.Authorization.Role.Contained.{role_contained, IsMade, grant-contained, revoke-contained}
use verixa.Authorization.UseCases.Saving.{
  IsContained, after-bind, after-map_err, save_role-IsContained, create_role-IsContained,
  define_permission-IsContained,
}

abbrev pub IsLegal : Operation → Type 0
IsLegal (creating_role id now c) = All IsMade c.permissions
IsLegal _ = Unit

grant_catalogued-IsContained :
    (p : Permission) (now : ℕ) (role : Role) (st : Store) (found : Option Permission)
    → role_contained (Role.grant p now role) ≡ true
    → IsContained st
    → IsContained (after st (grant_catalogued p now role st found))
grant_catalogued-IsContained p now role st none k h = h
grant_catalogued-IsContained p now role st (some _) k h =
    save_role-IsContained (Role.grant p now role) st k h

require_role_ok :
    (st : Store) (id : String) (role : Role)
    → IsContained st
    → require_role (find_role_by_id id st) ≡ ok role
    → role_contained role ≡ true
require_role_ok st id role h e = elim (Option-cases (find_role_by_id id st)) [
  | inl missing ↦ absurd (ground (arith, ap require_role missing))
  | inr found ↦
      every-get role_contained id st.roles role h
        (found.1 ∙ ap some (ok_injective (found.0) role (sym (ap require_role found.1) ∙ e)))
]

grant_checked :
    (p : Permission) (now : ℕ) (role : Role) (st : Store)
    → Permission.create p.value ≡ ok p
    → role_contained role ≡ true
    → IsContained st
    → IsContained (
        after st (
          if is_global_wildcard p && not role.is_system_role
          then err system_role_only
          else grant_catalogued p now role st (find_permission_by_key p.value st)))
grant_checked p now role st m k h =
    elim (Bool-cases (is_global_wildcard p && not role.is_system_role)) [
      | inl refused ↦ rw refused h
      | inr passed ↦
          rw passed
            (grant_catalogued-IsContained p now role st _ (grant-contained p now role m passed k) h)
    ]

assign_permission-IsContained :
    (id : String) (permission : Text) (now : ℕ) (st : Store)
    → IsContained st
    → IsContained (after st (assign_permission_to_role id permission now st))
unfolding assign_permission_to_role
assign_permission-IsContained id permission now st h =
    after-bind IsContained st (require_role (find_role_by_id id st)) _ h (λ role e.
      after-map_err _ st (Permission.create permission) _ h (λ p c.
        grant_checked p now role st (create-value permission p c).1 (require_role_ok st id role h e)
          h))

revoke_permission-IsContained :
    (id : String) (permission : Text) (now : ℕ) (st : Store)
    → IsContained st
    → IsContained (after st (revoke_permission_from_role id permission now st))
unfolding revoke_permission_from_role
revoke_permission-IsContained id permission now st h =
    after-bind IsContained st (require_role (find_role_by_id id st)) _ h (λ role e.
      after-map_err _ st (Permission.create permission) _ h (λ p c.
        after-map_err _ st (Role.revoke p now role) _ h (λ revoked r.
          save_role-IsContained revoked st
            (revoke-contained p now role revoked (require_role_ok st id role h e) r) h)))

delete_found-IsContained :
    (id : String) (st : Store) (found : Option Role)
    → IsContained st
    → IsContained (or_unchanged st (delete_found id st found))
delete_found-IsContained id st none h = h
delete_found-IsContained id st (some r) h = elim (Bool-cases r.is_system_role) [
  | inl system ↦ rw system h
  | inr other ↦ rw other (every-delete role_contained id st.roles h)
]

-- What only touches the assignments.
assign_new-IsContained :
    (id : String) (now : ℕ) (c : AssignRoleCommand) (st : Store) (found : Option UserRoleAssignment)
    → IsContained st
    → IsContained (after st (assign_new id now c st found))
assign_new-IsContained id now c st none h =
    after-map_err bad_assignment st (RoleAssignment.create id now (assignment_params c)) _ h
      (λ a e. h)
assign_new-IsContained id now c st (some existing) h = h

revoke_found-IsContained :
    (st : Store) (found : Option UserRoleAssignment)
    → IsContained st
    → IsContained (after st (revoke_found st found))
revoke_found-IsContained st none h = h
revoke_found-IsContained st (some a) h = h

revoke_by_tuple-IsContained :
    (user role : Option String) (scope : Scope) (now : ℕ) (st : Store)
    → IsContained st
    → IsContained (after st (revoke_by_tuple user role scope now st))
revoke_by_tuple-IsContained none role scope now st h = h
revoke_by_tuple-IsContained (some u) none scope now st h = h
revoke_by_tuple-IsContained (some u) (some r) undefined now st h = h
revoke_by_tuple-IsContained (some u) (some r) global now st h = revoke_found-IsContained st _ h
revoke_by_tuple-IsContained (some u) (some r) (scoped org) now st h =
    revoke_found-IsContained st _ h

revoke_named-IsContained :
    (now : ℕ) (c : RevokeRoleCommand) (st : Store) (id : Option String)
    → IsContained st
    → IsContained (after st (revoke_named now c st id))
revoke_named-IsContained now c st none h =
    revoke_by_tuple-IsContained c.user_id c.role_id c.org_id now st h
revoke_named-IsContained now c st (some id) h = revoke_found-IsContained st _ h

run-IsContained :
    (op : Operation) (st : Store) → IsLegal op → IsContained st → IsContained (run op st)
unfolding run assign_role_to_user revoke_role_from_user
run-IsContained (creating_role id now c) st l h = create_role-IsContained id now c st l h
run-IsContained (defining_permission key) st l h = define_permission-IsContained key st h
run-IsContained (assigning_permission id p now) st l h = assign_permission-IsContained id p now st h
run-IsContained (revoking_permission id p now) st l h = revoke_permission-IsContained id p now st h
run-IsContained (assigning_role id now c) st l h =
    after-bind IsContained st (require_role (find_role_by_id c.role_id st)) _ h
      (λ role e. assign_new-IsContained id now c st _ h)
run-IsContained (revoking_role now c) st l h = revoke_named-IsContained now c st c.assignment_id h
run-IsContained (deleting_role id) st l h = delete_found-IsContained id st _ h

-- Where every stored role has only permissions that read back, and no role but a system role has
-- the global wildcard, this is so after any sequence of the use cases and deletions of roles, if
-- the permission objects handed to the creation of roles have been made by the validation.
pub run_all-IsContained :
    (ops : List Operation) (st : Store)
    → All IsLegal ops
    → IsContained st
    → IsContained (run_all ops st)
unfolding run_all
run_all-IsContained [] st l h = h
run_all-IsContained (op ∷ ops) st l h =
    run_all-IsContained ops (run op st) l.1 (run-IsContained op st l.0 h)
