-- ===== src/Authorization/Checker/Search.antt =====
-- The check as one search over the stored assignments.
use verixa.Prelude.{
  ℕ, String, Bool, true, false, not, ◌&&◌, ◌||◌, List, [], ◌∷◌, ◌++◌, Option, none, some, ◌==◌, map,
  ◌≡◌, refl, sym, ap, ◌∙◌, arith, Option-cases, inl, inr,
}
use verixa.Prelude.Dict.{values}
use verixa.Prelude.Search.{
  any, every, any-append, any-map, any-filter, any-or, any_congr, any_seen, cong2-or, every-get,
}
use verixa.Prelude.Text.{Text}
use verixa.Kernel.Result.{Result, ok, err, Result-cases}
use verixa.Authorization.Permission
use verixa.Authorization.Permission.{Permission, matches, is_readable}
use verixa.Authorization.Role.{Role, RoleError, from, raw, Wanted, or_throw}
use verixa.Authorization.RoleAssignment.{UserRoleAssignment, is_expired}
use verixa.Authorization.Store.{Store, find_by_user_and_org, find_role_by_id, same_org, is_active}
use verixa.Authorization.Checker.{
  unique, parse_all, permissions_of, collect, active_assignments, resolve_effective_permissions,
  has_permission,
}

abbrev pub role_readable : Role → Bool
role_readable role = every is_readable role.permissions

abbrev pub all_readable : Store → Bool
all_readable st = every role_readable (values st.roles)

-- What a stored text grants.
abbrev pub read_grants {ℓ} : {E : Type ℓ} → Permission → Result Permission E → Bool
read_grants needed (ok p) = matches p needed
read_grants needed (err e) = false

abbrev pub text_grants : Permission → Text → Bool
text_grants needed v = read_grants needed (Permission.create v)

abbrev pub found_grants : Permission → Option Role → Bool
found_grants needed none = false
found_grants needed (some role) = any (text_grants needed) role.permissions

abbrev pub role_grants : Store → Permission → String → Bool
role_grants st needed id = found_grants needed (find_role_by_id id st)

-- The assignment is the user's, unexpired, and global or of the organisation.
abbrev pub reaches : String → Option String → ℕ → UserRoleAssignment → Bool
reaches user_id org_id now a =
    ((a.user_id == user_id) && (same_org a.org_id none || same_org a.org_id org_id))
    && not (is_expired a now)

abbrev pub grants : Store → String → Option String → Permission → ℕ → Bool
grants st user_id org_id needed now =
    any (λ a. reaches user_id org_id now a && role_grants st needed a.role_id)
      (values st.assignments)

any-unique :
    (f : String → Bool) (seen ids : List String)
    → (any f (unique seen ids) || any f seen) ≡ (any f ids || any f seen)
unfolding any unique
any-unique f seen [] = refl
any-unique f seen (id ∷ ids) =
    ground (arith, any-unique f seen ids, any-unique f (id ∷ seen) ids, any_seen f id seen)

any-unique' : (f : String → Bool) (ids : List String) → any f (unique [] ids) ≡ any f ids
unfolding any
any-unique' f ids = ground (arith, any-unique f [] ids)

-- Reading the texts of a list succeeds when all are readable, and finds what each grants.
abbrev Finds : Permission → Bool → Result (List Permission) RoleError → Type 0
Finds needed answer read =
    (ps : List Permission) × (read ≡ ok ps) × (any (λ granted. matches granted needed) ps ≡ answer)

from-create :
    (v : Text)
    → is_readable v ≡ true
    → (p : Permission) × (Permission.create v ≡ ok p) × (from (raw v) ≡ ok p)
unfolding from
from-create v h = elim (Result-cases (Permission.create v)) [
  | inl r ↦ (r.0, r.1, ap or_throw r.1)
  | inr r ↦ absurd (ground (arith, r.1))
]

Finds-cons :
    (needed : Permission) (v : Text) (vs : List Text) (p : Permission) (ps : List Permission)
    → Permission.create v ≡ ok p
    → from (raw v) ≡ ok p
    → parse_all vs ≡ ok ps
    → any (λ granted. matches granted needed) ps ≡ any (text_grants needed) vs
    → Finds needed (any (text_grants needed) (v ∷ vs)) (parse_all (v ∷ vs))
unfolding parse_all any
Finds-cons needed v vs p ps e f g h =
    (p ∷ ps, rw f (rw g refl), cong2-or (sym (ap (read_grants needed) e)) h)

parse_all-Finds :
    (needed : Permission) (vs : List Text)
    → every is_readable vs ≡ true
    → Finds needed (any (text_grants needed) vs) (parse_all vs)
unfolding parse_all every any
parse_all-Finds needed [] h = ([], refl, refl)
parse_all-Finds needed (v ∷ vs) h =
    let head = from-create v (ground arith) in
    let rest = parse_all-Finds needed vs (ground arith) in
    Finds-cons needed v vs head.0 rest.0 head.1 head.2 rest.1 rest.2

permissions_of-Finds :
    (st : Store) (needed : Permission) (id : String)
    → all_readable st ≡ true
    → Finds needed (role_grants st needed id) (permissions_of (find_role_by_id id st))
unfolding any
permissions_of-Finds st needed id h = elim (Option-cases (find_role_by_id id st)) [
  | inl missing ↦ ([], ap permissions_of missing, sym (ap (found_grants needed) missing))
  | inr found ↦
      let read =
        parse_all-Finds needed found.0.permissions
          (every-get role_readable id st.roles found.0 h found.1) in
      (read.0, ap permissions_of found.1 ∙ read.1, read.2 ∙ sym (ap (found_grants needed) found.1))
]

collect-Finds :
    (st : Store) (needed : Permission) (ids : List String)
    → all_readable st ≡ true
    → Finds needed (any (role_grants st needed) ids) (collect st ids)
unfolding collect any
collect-Finds st needed [] h = ([], refl, refl)
collect-Finds st needed (id ∷ ids) h =
    let head = permissions_of-Finds st needed id h in
    let rest = collect-Finds st needed ids h in
    (
      head.0 ++ rest.0,
      rw (head.1) (rw (rest.1) refl),
      any-append (λ granted. matches granted needed) (head.0) (rest.0) ∙ cong2-or (head.2) (rest.2),
    )

reaches_global :
    (user_id : String) (now : ℕ) (f : String → Bool) (a : UserRoleAssignment)
    → (is_active user_id none now a && f a.role_id) ≡ (reaches user_id none now a && f a.role_id)
reaches_global user_id now f a = ground arith

reaches_scoped :
    (user_id org : String) (now : ℕ) (f : String → Bool) (a : UserRoleAssignment)
    → ((is_active user_id (some org) now a && f a.role_id)
        || (is_active user_id none now a && f a.role_id))
      ≡ (reaches user_id (some org) now a && f a.role_id)
reaches_scoped user_id org now f a = ground arith

any-active :
    (st : Store) (user_id : String) (org_id : Option String) (now : ℕ) (f : String → Bool)
    → any (λ a. f a.role_id) (active_assignments user_id org_id now st)
      ≡ any (λ a. reaches user_id org_id now a && f a.role_id) (values st.assignments)
unfolding find_by_user_and_org
any-active st user_id none now f =
    any-filter (λ a. f a.role_id) (is_active user_id none now) (values st.assignments)
    ∙ any_congr _ _ (reaches_global user_id now f) (values st.assignments)
any-active st user_id (some org) now f =
    any-append (λ a. f a.role_id) (find_by_user_and_org user_id (some org) now st)
      (find_by_user_and_org user_id none now st)
    ∙ cong2-or
        (any-filter (λ a. f a.role_id) (is_active user_id (some org) now) (values st.assignments))
        (any-filter (λ a. f a.role_id) (is_active user_id none now) (values st.assignments))
    ∙ any-or (λ a. is_active user_id (some org) now a && f a.role_id)
        (λ a. is_active user_id none now a && f a.role_id) (values st.assignments)
    ∙ any_congr _ _ (reaches_scoped user_id org now f) (values st.assignments)

-- Where every stored permission can be read and the needed one is valid, the check succeeds, and
-- it answers yes exactly if some assignment of the user that has not expired, global or of the
-- organisation asked for, is to a stored role with a permission that covers the needed one.
pub has_permission-grants :
    (st : Store) (user_id : String) (org_id : Option String) (permission : Wanted)
    (needed : Permission) (now : ℕ)
    → all_readable st ≡ true
    → from permission ≡ ok needed
    → has_permission st user_id org_id permission now ≡ ok (grants st user_id org_id needed now)
unfolding has_permission resolve_effective_permissions
has_permission-grants st user_id org_id permission needed now h e =
    let ids = map (λ a. a.role_id) (active_assignments user_id org_id now st) in
    let found = collect-Finds st needed (unique [] ids) h in
    rw e (
      rw (found.1) (
        ap ok (
          found.2
          ∙ any-unique' (role_grants st needed) ids
          ∙ any-map (role_grants st needed) (λ a. a.role_id)
              (active_assignments user_id org_id now st)
          ∙ any-active st user_id org_id now (role_grants st needed))))
