-- ===== src/Authorization/UseCases/Granting.antt =====
-- What assigning a role changes in the answers of the permission checker.
use verixa.Prelude.{
  ℕ, String, Bool, true, false, ◌&&◌, List, [], ◌∷◌, Option, none, some, ◌==◌, eq_iff, eq_refl, ◌≡◌,
  refl, sym, ap, ◌∙◌, arith, inl, inr, Bool-cases, filter,
}
use mathlib.Core.Path.{subst}
use verixa.Prelude.Dict.{get, values}
use verixa.Prelude.Search.{any, any-set}
use verixa.Prelude.Blank.{is_blank}
use verixa.Kernel.Result.{ok, bind_ok, if_ok, ok_injective}
use verixa.Authorization.Permission.{Permission}
use verixa.Authorization.Role.{Role}
use verixa.Authorization.RoleAssignment
use verixa.Authorization.RoleAssignment.{
  UserRoleAssignment, Scope, undefined, global, scoped, is_expired, check_scope, check_assigned_at,
  check_expires_at, AssignmentError, user_id_required, role_id_required, assigned_by_required,
  invalid_scope,
}
use verixa.Authorization.Store.{Store, find_role_by_id, same_org, is_active, find_by_user_and_org}
use verixa.Authorization.Checker.Search.{grants, reaches, role_grants, text_grants, found_grants}
use verixa.Authorization.UseCases.{
  AssignRoleCommand, assign_role_to_user, assign_new, assignment_params, bad_assignment, map_err,
  map_err_ok, require_role, find_existing, find_of_role,
}

-- The organisation that a scope names; a global one names none.
abbrev pub org_of : Scope → Option String
org_of undefined = none
org_of global = none
org_of (scoped org) = some org

same_org_refl : (o : Option String) → same_org o o ≡ true
same_org_refl none = refl
same_org_refl (some x) = eq_refl x

-- The assignment is for the user, the role and the scope of the command.
abbrev Fits : AssignRoleCommand → UserRoleAssignment → Type 0
Fits c a =
    (a.user_id ≡ c.user_id) × (a.role_id ≡ c.role_id) × (same_org a.org_id (org_of c.org_id) ≡ true)

check_scope_org :
    (scope : Scope) (org : Option String)
    → check_scope scope ≡ ok org
    → same_org org (org_of scope) ≡ true
check_scope_org undefined org e = absurd (ground arith)
check_scope_org global org e = subst (λ o. same_org o none ≡ true) (ok_injective none org e) refl
check_scope_org (scoped o) org e =
    subst (λ x. same_org x (some o) ≡ true)
      (ok_injective (some o) org (if_ok (is_blank o) invalid_scope (ok (some o)) org e)) (eq_refl o)

create-Fits :
    (id : String) (now : ℕ) (c : AssignRoleCommand) (a : UserRoleAssignment)
    → RoleAssignment.create id now (assignment_params c) ≡ ok a
    → Fits c a
unfolding RoleAssignment.create
create-Fits id now c a e =
    let e1 = if_ok (is_blank c.user_id) user_id_required _ a e in
    let e2 = if_ok (is_blank c.role_id) role_id_required _ a e1 in
    let e3 = if_ok (is_blank c.assigned_by) assigned_by_required _ a e2 in
    let org = bind_ok (check_scope c.org_id) _ a e3 in
    let at = bind_ok (check_assigned_at c.assigned_at now) _ a org.2 in
    let until = bind_ok (check_expires_at c.expires_at at.0) _ a at.2 in
    let made = ok_injective _ a until.2 in
    subst (Fits c) made (refl, refl, check_scope_org c.org_id org.0 org.1)

-- What is found is one of the list, active and of the role.
find_of_role-active :
    (user_id role_id : String) (org : Option String) (now : ℕ) (xs : List UserRoleAssignment)
    (a : UserRoleAssignment)
    → find_of_role role_id (filter (is_active user_id org now) xs) ≡ some a
    → (is_active user_id org now a ≡ true)
      × (a.role_id ≡ role_id)
      × ((f : UserRoleAssignment → Bool) → f a ≡ true → any f xs ≡ true)
unfolding find_of_role any
find_of_role-active user_id role_id org now [] a e = absurd (ground arith)
find_of_role-active user_id role_id org now (x ∷ xs) a e =
    elim (Bool-cases (is_active user_id org now x && (x.role_id == role_id))) [
      | inl this ↦
          let same : x ≡ a = ground (arith, this) in
          (
            subst (λ y. is_active user_id org now y ≡ true) same (ground (arith, this)),
            subst (λ y. y.role_id ≡ role_id) same (ground (arith, this, eq_iff x.role_id role_id)),
            λ f k. ground (arith, subst (λ y. f y ≡ true) (sym same) k),
          )
      | inr other ↦
          let r = find_of_role-active user_id role_id org now xs a (ground (arith, other)) in
          (r.0, r.1, λ f k. ground (arith, r.2 f k))
    ]

-- The assignment makes its user reach the role in the scope of the command.
abbrev Reaching : AssignRoleCommand → ℕ → UserRoleAssignment → Type 0
Reaching c t a = (reaches c.user_id (org_of c.org_id) t a ≡ true) × (a.role_id ≡ c.role_id)

Fits-Reaching :
    (c : AssignRoleCommand) (t : ℕ) (a : UserRoleAssignment)
    → Fits c a
    → is_expired a t ≡ false
    → Reaching c t a
Fits-Reaching c t a h live = (ground (arith, h.0, h.2, live, eq_iff a.user_id c.user_id), h.1)

active-Fits :
    (c : AssignRoleCommand) (org : Option String) (now : ℕ) (a : UserRoleAssignment)
    → org_of c.org_id ≡ org
    → is_active c.user_id org now a ≡ true
    → a.role_id ≡ c.role_id
    → Fits c a
active-Fits c org now a o h r = (
  ground (arith, eq_iff a.user_id c.user_id),
  r,
  subst (λ x. same_org a.org_id x ≡ true) (sym o) (ground arith),
)

-- What an assignment does once it stands in the store.
abbrev Stands : AssignRoleCommand → Store → Store → UserRoleAssignment → Type 0
Stands c st st2 a =
    (st2.roles ≡ st.roles)
    × Fits c a
    × ((f : UserRoleAssignment → Bool) → f a ≡ true → any f (values st2.assignments) ≡ true)

existing-Stands :
    (c : AssignRoleCommand) (org : Option String) (now : ℕ) (st : Store) (a : UserRoleAssignment)
    → org_of c.org_id ≡ org
    → find_of_role c.role_id (find_by_user_and_org c.user_id org now st) ≡ some a
    → Stands c st st a
unfolding find_by_user_and_org
existing-Stands c org now st a o e =
    let r = find_of_role-active c.user_id c.role_id org now (values st.assignments) a e in
    (refl, active-Fits c org now a o (r.0) (r.1), r.2)

find_existing-Stands :
    (c : AssignRoleCommand) (scope : Scope) (now : ℕ) (st : Store) (a : UserRoleAssignment)
    → c.org_id ≡ scope
    → find_existing c.user_id c.role_id scope now st ≡ some a
    → Stands c st st a
find_existing-Stands c undefined now st a o e = absurd (ground arith)
find_existing-Stands c global now st a o e = existing-Stands c none now st a (ap org_of o) e
find_existing-Stands c (scoped org) now st a o e =
    existing-Stands c (some org) now st a (ap org_of o) e

assign_new-Stands :
    (id : String) (now : ℕ) (c : AssignRoleCommand) (st : Store) (found : Option UserRoleAssignment)
    (st2 : Store) (a : UserRoleAssignment)
    → find_existing c.user_id c.role_id c.org_id now st ≡ found
    → assign_new id now c st found ≡ ok (st2, a)
    → Stands c st st2 a
assign_new-Stands id now c st (some existing) st2 a g e =
    let p = ok_injective (st, existing) (st2, a) e in
    subst (λ x. Stands c st x.0 x.1) p (find_existing-Stands c c.org_id now st existing refl g)
assign_new-Stands id now c st none st2 a g e =
    let r =
      bind_ok (map_err bad_assignment (RoleAssignment.create id now (assignment_params c))) _
        (st2, a) e in
    let made = create-Fits id now c r.0 (map_err_ok bad_assignment _ r.0 r.1) in
    subst (λ x. Stands c st x.0 x.1) (ok_injective _ (st2, a) r.2)
      (refl, made, λ f k. any-set f r.0.id r.0 st.assignments k)

role_grants_found :
    (st : Store) (needed : Permission) (id : String) (role : Role)
    → find_role_by_id id st ≡ some role
    → any (text_grants needed) role.permissions ≡ true
    → role_grants st needed id ≡ true
role_grants_found st needed id role e h = ap (found_grants needed) e ∙ h

-- After a role is assigned with success, at every time at which the assignment has not expired
-- its user is granted, in the scope of the assignment, each permission that a permission of the
-- role covers.
pub assign-grants :
    (id : String) (now : ℕ) (c : AssignRoleCommand) (st st2 : Store) (a : UserRoleAssignment)
    (role : Role) (needed : Permission) (t : ℕ)
    → assign_role_to_user id now c st ≡ ok (st2, a)
    → find_role_by_id c.role_id st ≡ some role
    → any (text_grants needed) role.permissions ≡ true
    → is_expired a t ≡ false
    → grants st2 c.user_id (org_of c.org_id) needed t ≡ true
unfolding assign_role_to_user
assign-grants id now c st st2 a role needed t e found g live =
    let r = bind_ok (require_role (find_role_by_id c.role_id st)) _ (st2, a) e in
    let s = assign_new-Stands id now c st _ st2 a refl r.2 in
    let reach = Fits-Reaching c t a (s.1) live in
    let granted : role_grants st2 needed a.role_id ≡ true =
      ap (role_grants st2 needed) (reach.1)
      ∙ role_grants_found st2 needed c.role_id role (ap (get c.role_id) (s.0) ∙ found) g in
    s.2 (λ x. reaches c.user_id (org_of c.org_id) t x && role_grants st2 needed x.role_id)
      (ground (arith, reach.0, granted))
