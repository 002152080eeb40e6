-- ===== src/Authorization/UseCases.antt =====
-- packages/authorization/application/use-cases: creating roles, cataloguing permissions, granting
-- them to roles and roles to users. Each returns the store after it with its answer; `createId` and
-- `new Date()` are arguments. What a use case throws is an error too.
pub mod Saving
pub mod Containment
pub mod Granting
pub mod Revoking
mod Tests
use verixa.Prelude.{
  ℕ, String, Bool, true, false, not, ◌&&◌, ◌||◌, List, [], ◌∷◌, ◌++◌, Option, none, some, ◌==◌,
  if◌then◌else◌, ◌≡◌, ap, arith,
}
use verixa.Prelude.Search.{any}
use verixa.Prelude.Text.{Text}
use verixa.Kernel.Result.{Result, ok, err, ◌>>=◌, ok_injective}
use verixa.Authorization.Permission
use verixa.Authorization.Permission.{
  Permission, PermissionError, is_global_wildcard, is_global_text,
}
use verixa.Authorization.Role
use verixa.Authorization.Role.{Role, RoleError, CreateRoleParams}
use verixa.Authorization.RoleAssignment
use verixa.Authorization.RoleAssignment.{
  UserRoleAssignment, AssignmentError, CreateUserRoleAssignmentParams, Scope, undefined, global,
  scoped, DateInput,
}
use verixa.Authorization.Store.{
  Store, find_role_by_id, find_role_by_name, save_role, delete_role, find_by_user_and_org,
  find_assignment_by_id, save_assignment, revoke_assignment, find_permission_by_key,
  save_permission,
}

pub data UseCaseError : Type 0 where
  role_not_found : UseCaseError
  assignment_not_found : UseCaseError
  missing_identifier : UseCaseError
  system_role_only : UseCaseError
  unregistered_permission : UseCaseError
  role_name_conflict : UseCaseError
  permission_conflict : UseCaseError
  bad_permission : PermissionError → UseCaseError
  bad_role : RoleError → UseCaseError
  bad_assignment : AssignmentError → UseCaseError

abbrev Answer : Type 0 → Type 0
Answer A = Result (Store × A) UseCaseError

abbrev pub map_err {ℓ κ} :
    {A : Type ℓ} {E : Type κ} → (E → UseCaseError) → Result A E → Result A UseCaseError
map_err f (ok a) = ok a
map_err f (err e) = err (f e)

pub map_err_ok :
    {A : Type 0} {X : Type 0} (f : X → UseCaseError) (r : Result A X) (a : A)
    → map_err f r ≡ ok a
    → r ≡ ok a
map_err_ok f (ok b) a h = ap ok (ok_injective b a h)
map_err_ok f (err e) a h = absurd (ground arith)

abbrev pub save_fresh_role : Role → Store → Option Role → Answer Role
save_fresh_role role st none = ok (save_role role st, role)
save_fresh_role role st (some existing) = err role_name_conflict

unfoldable pub create_role : String → ℕ → CreateRoleParams → Store → Answer Role
create_role id now command st = map_err bad_role (Role.create id now command) >>= (λ role.
    if not role.is_system_role && any is_global_text role.permissions
    then err system_role_only
    else save_fresh_role role st (find_role_by_name role.name st))

abbrev pub or_conflict : Permission → Option Store → Answer Permission
or_conflict p (some st) = ok (st, p)
or_conflict p none = err permission_conflict

abbrev pub register_permission : Permission → Store → Option Permission → Answer Permission
register_permission p st (some existing) = ok (st, existing)
register_permission p st none = or_conflict p (save_permission p st)

unfoldable pub define_permission : Text → Store → Answer Permission
define_permission key st =
    map_err bad_permission (Permission.create key)
    >>= (λ p. register_permission p st (find_permission_by_key p.value st))

abbrev pub require_role : Option Role → Result Role UseCaseError
require_role none = err role_not_found
require_role (some role) = ok role

abbrev pub grant_catalogued : Permission → ℕ → Role → Store → Option Permission → Answer Role
grant_catalogued p now role st none = err unregistered_permission
grant_catalogued p now role st (some _) =
    let granted = Role.grant p now role in ok (save_role granted st, granted)

unfoldable pub assign_permission_to_role : String → Text → ℕ → Store → Answer Role
assign_permission_to_role role_id permission now st =
    require_role (find_role_by_id role_id st) >>= (λ role.
      map_err bad_permission (Permission.create permission) >>= (λ p.
        if is_global_wildcard p && not role.is_system_role
        then err system_role_only
        else grant_catalogued p now role st (find_permission_by_key p.value st)))

unfoldable pub revoke_permission_from_role : String → Text → ℕ → Store → Answer Role
revoke_permission_from_role role_id permission now st =
    require_role (find_role_by_id role_id st) >>= (λ role.
      map_err bad_permission (Permission.create permission) >>= (λ p.
        map_err bad_role (Role.revoke p now role)
        >>= (λ revoked. ok (save_role revoked st, revoked))))

pub record AssignRoleCommand : Type 0 where
  pub user_id : String
  pub role_id : String
  pub org_id : Scope
  pub assigned_by : String
  pub expires_at : DateInput
  pub assigned_at : DateInput

unfoldable pub find_of_role : String → List UserRoleAssignment → Option UserRoleAssignment
find_of_role role_id [] = none
find_of_role role_id (a ∷ rest) = if a.role_id == role_id then some a else find_of_role role_id rest

-- The active assignment of the role in the scope; with an undefined scope there is no look-up.
abbrev pub find_existing : String → String → Scope → ℕ → Store → Option UserRoleAssignment
find_existing user_id role_id undefined now st = none
find_existing user_id role_id global now st =
    find_of_role role_id (find_by_user_and_org user_id none now st)
find_existing user_id role_id (scoped org) now st =
    find_of_role role_id (find_by_user_and_org user_id (some org) now st)

abbrev pub assignment_params : AssignRoleCommand → CreateUserRoleAssignmentParams
assignment_params c = record {
  user_id = c.user_id;
  role_id = c.role_id;
  org_id = c.org_id;
  assigned_by = c.assigned_by;
  assigned_at = c.assigned_at;
  expires_at = c.expires_at;
}

abbrev pub assign_new :
    String → ℕ → AssignRoleCommand → Store → Option UserRoleAssignment → Answer UserRoleAssignment
assign_new id now c st (some existing) = ok (st, existing)
assign_new id now c st none =
    map_err bad_assignment (RoleAssignment.create id now (assignment_params c))
    >>= (λ assignment. ok (save_assignment assignment st, assignment))

unfoldable pub assign_role_to_user :
    String → ℕ → AssignRoleCommand → Store → Answer UserRoleAssignment
assign_role_to_user id now c st =
    require_role (find_role_by_id c.role_id st)
    >>= (λ role. assign_new id now c st (find_existing c.user_id c.role_id c.org_id now st))

pub record RevokeRoleCommand : Type 0 where
  pub assignment_id : Option String
  pub user_id : Option String
  pub role_id : Option String
  pub org_id : Scope

abbrev pub revoke_found : Store → Option UserRoleAssignment → Answer UserRoleAssignment
revoke_found st none = err assignment_not_found
revoke_found st (some a) = ok (revoke_assignment a.id st, a)

-- The second way of naming an assignment: by user, role and scope.
abbrev pub revoke_by_tuple :
    Option String → Option String → Scope → ℕ → Store → Answer UserRoleAssignment
revoke_by_tuple (some user_id) (some role_id) global now st =
    revoke_found st (find_existing user_id role_id global now st)
revoke_by_tuple (some user_id) (some role_id) (scoped org) now st =
    revoke_found st (find_existing user_id role_id (scoped org) now st)
revoke_by_tuple (some user_id) (some role_id) undefined now st = err missing_identifier
revoke_by_tuple (some user_id) none scope now st = err missing_identifier
revoke_by_tuple none role_id scope now st = err missing_identifier

abbrev pub revoke_named : ℕ → RevokeRoleCommand → Store → Option String → Answer UserRoleAssignment
revoke_named now c st (some id) = revoke_found st (find_assignment_by_id id st)
revoke_named now c st none = revoke_by_tuple c.user_id c.role_id c.org_id now st

unfoldable pub revoke_role_from_user : ℕ → RevokeRoleCommand → Store → Answer UserRoleAssignment
revoke_role_from_user now c st = revoke_named now c st c.assignment_id

-- One call of the package that may change the store.
pub data Operation : Type 0 where
  creating_role : String → ℕ → CreateRoleParams → Operation
  defining_permission : Text → Operation
  assigning_permission : String → Text → ℕ → Operation
  revoking_permission : String → Text → ℕ → Operation
  assigning_role : String → ℕ → AssignRoleCommand → Operation
  revoking_role : ℕ → RevokeRoleCommand → Operation
  deleting_role : String → Operation

-- The store that an answer leaves behind: an error leaves it as it was.
abbrev pub after {ℓ} : {A : Type 0} {E : Type ℓ} → Store → Result (Store × A) E → Store
after st (ok (st2, a)) = st2
after st (err e) = st

abbrev pub or_unchanged {ℓ} : {E : Type ℓ} → Store → Result Store E → Store
or_unchanged st (ok st2) = st2
or_unchanged st (err e) = st

unfoldable pub run : Operation → Store → Store
run (creating_role id now c) st = after st (create_role id now c st)
run (defining_permission key) st = after st (define_permission key st)
run (assigning_permission id p now) st = after st (assign_permission_to_role id p now st)
run (revoking_permission id p now) st = after st (revoke_permission_from_role id p now st)
run (assigning_role id now c) st = after st (assign_role_to_user id now c st)
run (revoking_role now c) st = after st (revoke_role_from_user now c st)
run (deleting_role id) st = or_unchanged st (delete_role id st)

unfoldable pub run_all : List Operation → Store → Store
run_all [] st = st
run_all (op ∷ ops) st = run_all ops (run op st)
