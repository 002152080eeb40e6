-- ===== src/Authorization/UseCases/Revoking.antt =====
-- What revoking a role changes in the answers of the permission checker.
use verixa.Prelude.{
  ℕ, String, Bool, true, false, not, ◌&&◌, ◌⊎◌, inl, inr, Bool-cases, List, filter, eq_iff, [], ◌∷◌,
  Option, none, some, ◌==◌, ◌≡◌, refl, sym, ap, ◌∙◌, arith,
}
use mathlib.Core.Path.{subst}
use mathlib.Core.List.{Mem, mem-cons_self, mem-cons_of_mem}
use verixa.Prelude.Dict.{Dict, get, delete, values}
use verixa.Prelude.Search.{any}
use verixa.Kernel.Result.{ok, ok_injective}
use verixa.Authorization.Permission.{Permission}
use verixa.Authorization.RoleAssignment.{
  UserRoleAssignment, Scope, undefined, global, scoped, is_expired,
}
use verixa.Authorization.Store.{Store, revoke_assignment, same_org, is_active, find_by_user_and_org}
use verixa.Authorization.Checker.Search.{grants, reaches, role_grants}
use verixa.Authorization.UseCases.{
  RevokeRoleCommand, revoke_role_from_user, revoke_found, revoke_by_tuple, revoke_named,
  find_of_role,
}

-- Every assignment stands under its id.
abbrev pub IsKeyed : Dict UserRoleAssignment → Type 0
IsKeyed [] = Unit
IsKeyed ((key, a) ∷ d) = (key ≡ a.id) × IsKeyed d

any-delete :
    (f : UserRoleAssignment → Bool) (gone : String) (d : Dict UserRoleAssignment)
    → IsKeyed d
    → any f (values (delete gone d)) ≡ any (λ a. not (a.id == gone) && f a) (values d)
unfolding any delete
any-delete f gone [] k = refl
any-delete f gone ((key, a) ∷ d) k = rw (k.0) (ground (arith, any-delete f gone d k.1))

-- The assignments that are left are all but the one that is revoked.
abbrev pub grants_without : String → Store → String → Option String → Permission → ℕ → Bool
grants_without gone st user_id org_id needed now =
    any
      (λ a. not (a.id == gone) && (reaches user_id org_id now a && role_grants st needed a.role_id))
      (values st.assignments)

-- The scope in which an assignment holds.
abbrev pub scope_of : Option String → Scope
scope_of none = global
scope_of (some org) = scoped org

-- The command names the assignment by its id.
abbrev pub NamedById : RevokeRoleCommand → Store → UserRoleAssignment → Type 0
NamedById c st a = (id : String) × (c.assignment_id ≡ some id) × (get id st.assignments ≡ some a)

-- The command gives no id, but the user, the role and the scope of the assignment, which is stored
-- and has not expired: it ends never, or later than now.
abbrev pub NamedByTuple : ℕ → RevokeRoleCommand → Store → UserRoleAssignment → Type 0
NamedByTuple now c st a =
    (c.assignment_id ≡ none)
    × (c.user_id ≡ some a.user_id)
    × (c.role_id ≡ some a.role_id)
    × (c.org_id ≡ scope_of a.org_id)
    × (is_expired a now ≡ false)
    × Mem a (values st.assignments)

revoke_found-grants :
    (st : Store) (found : Option UserRoleAssignment) (st2 : Store) (a : UserRoleAssignment)
    → revoke_found st found ≡ ok (st2, a)
    → (st2 ≡ revoke_assignment a.id st)
revoke_found-grants st none st2 a e = absurd (ground arith)
revoke_found-grants st (some b) st2 a e =
    let p = ok_injective (revoke_assignment b.id st, b) (st2, a) e in
    sym (ap (λ x. x.0) p) ∙ ap (λ x. revoke_assignment x.1.id st) p

revoke_by_tuple-grants :
    (user role : Option String) (scope : Scope) (now : ℕ) (st st2 : Store) (a : UserRoleAssignment)
    → revoke_by_tuple user role scope now st ≡ ok (st2, a)
    → st2 ≡ revoke_assignment a.id st
revoke_by_tuple-grants none role scope now st st2 a e = absurd (ground arith)
revoke_by_tuple-grants (some u) none scope now st st2 a e = absurd (ground arith)
revoke_by_tuple-grants (some u) (some r) undefined now st st2 a e = absurd (ground arith)
revoke_by_tuple-grants (some u) (some r) global now st st2 a e = revoke_found-grants st _ st2 a e
revoke_by_tuple-grants (some u) (some r) (scoped org) now st st2 a e =
    revoke_found-grants st _ st2 a e

revoke_named-grants :
    (now : ℕ) (c : RevokeRoleCommand) (id : Option String) (st st2 : Store) (a : UserRoleAssignment)
    → revoke_named now c st id ≡ ok (st2, a)
    → st2 ≡ revoke_assignment a.id st
revoke_named-grants now c (some id) st st2 a e = revoke_found-grants st _ st2 a e
revoke_named-grants now c none st st2 a e =
    revoke_by_tuple-grants c.user_id c.role_id c.org_id now st st2 a e

revoke_found-answer :
    (st : Store) (found : Option UserRoleAssignment) (st2 : Store) (a : UserRoleAssignment)
    → revoke_found st found ≡ ok (st2, a)
    → found ≡ some a
revoke_found-answer st none st2 a e = absurd (ground arith)
revoke_found-answer st (some b) st2 a e =
    ap (λ p. some p.1) (ok_injective (revoke_assignment b.id st, b) (st2, a) e)

same_org_sound : (a b : Option String) → same_org a b ≡ true → a ≡ b
same_org_sound none none h = refl
same_org_sound none (some b) h = absurd (ground arith)
same_org_sound (some a) none h = absurd (ground arith)
same_org_sound (some a) (some b) h = ap some ((eq_iff a b).0 h)

-- What the look-up of an active assignment of a role finds.
abbrev Found : String → String → Option String → ℕ → UserRoleAssignment → Type 0
Found user role org now a =
    (a.user_id ≡ user) × (a.role_id ≡ role) × (a.org_id ≡ org) × (is_expired a now ≡ false)

is_active-Found :
    (user role : String) (org : Option String) (now : ℕ) (a : UserRoleAssignment)
    → is_active user org now a ≡ true
    → a.role_id == role ≡ true
    → Found user role org now a
is_active-Found user role org now a h r = (
  (eq_iff a.user_id user).0 (ground arith),
  (eq_iff a.role_id role).0 r,
  same_org_sound a.org_id org (ground arith),
  ground arith,
)

find_of_role-Found :
    (user role : String) (org : Option String) (now : ℕ) (xs : List UserRoleAssignment)
    (a : UserRoleAssignment)
    → find_of_role role (filter (is_active user org now) xs) ≡ some a
    → Found user role org now a × Mem a xs
unfolding find_of_role
find_of_role-Found user role org now [] a e = absurd (ground arith)
find_of_role-Found user role org now (x ∷ xs) a e = elim (Bool-cases (is_active user org now x)) [
  | inl fits ↦ elim (Bool-cases (x.role_id == role)) [
    | inl same ↦
        let here : x ≡ a = ground (arith, fits, same) in
        subst (λ y. Found user role org now y × Mem y (x ∷ xs)) here
          (is_active-Found user role org now x fits same, mem-cons_self)
    | inr other ↦
        let r = find_of_role-Found user role org now xs a (ground (arith, fits, other)) in
        (r.0, mem-cons_of_mem x r.1)
  ]
  | inr unfit ↦
      let r = find_of_role-Found user role org now xs a (ground (arith, unfit)) in
      (r.0, mem-cons_of_mem x r.1)
]

find_by_user-Found :
    (user role : String) (org : Option String) (now : ℕ) (st : Store) (a : UserRoleAssignment)
    → find_of_role role (find_by_user_and_org user org now st) ≡ some a
    → Found user role org now a × Mem a (values st.assignments)
unfolding find_by_user_and_org
find_by_user-Found user role org now st a e =
    find_of_role-Found user role org now (values st.assignments) a e

Found-NamedByTuple :
    (now : ℕ) (c : RevokeRoleCommand) (st : Store) (a : UserRoleAssignment) (user role : String)
    (org : Option String)
    → c.assignment_id ≡ none
    → c.user_id ≡ some user
    → c.role_id ≡ some role
    → c.org_id ≡ scope_of org
    → Found user role org now a × Mem a (values st.assignments)
    → NamedByTuple now c st a
Found-NamedByTuple now c st a user role org n u r o ((fu, fr, fo, fe), m) =
    (n, u ∙ ap some (sym fu), r ∙ ap some (sym fr), o ∙ ap scope_of (sym fo), fe, m)

revoke_by_tuple-NamedByTuple :
    (now : ℕ) (c : RevokeRoleCommand) (st st2 : Store) (a : UserRoleAssignment)
    (user role : Option String) (scope : Scope)
    → c.assignment_id ≡ none
    → c.user_id ≡ user
    → c.role_id ≡ role
    → c.org_id ≡ scope
    → revoke_by_tuple user role scope now st ≡ ok (st2, a)
    → NamedByTuple now c st a
revoke_by_tuple-NamedByTuple now c st st2 a none role scope n u r o e = absurd (ground arith)
revoke_by_tuple-NamedByTuple now c st st2 a (some user) none scope n u r o e = absurd (ground arith)
revoke_by_tuple-NamedByTuple now c st st2 a (some user) (some role) undefined n u r o e =
    absurd (ground arith)
revoke_by_tuple-NamedByTuple now c st st2 a (some user) (some role) global n u r o e =
    Found-NamedByTuple now c st a user role none n u r o
      (find_by_user-Found user role none now st a (revoke_found-answer st _ st2 a e))
revoke_by_tuple-NamedByTuple now c st st2 a (some user) (some role) (scoped org) n u r o e =
    Found-NamedByTuple now c st a user role (some org) n u r o
      (find_by_user-Found user role (some org) now st a (revoke_found-answer st _ st2 a e))

revoke_named-Named :
    (now : ℕ) (c : RevokeRoleCommand) (st st2 : Store) (a : UserRoleAssignment) (id : Option String)
    → c.assignment_id ≡ id
    → revoke_named now c st id ≡ ok (st2, a)
    → NamedById c st a ⊎ NamedByTuple now c st a
revoke_named-Named now c st st2 a (some id) n e = inl (id, n, revoke_found-answer st _ st2 a e)
revoke_named-Named now c st st2 a none n e =
    inr
      (revoke_by_tuple-NamedByTuple now c st st2 a c.user_id c.role_id c.org_id n refl refl refl e)

-- When a role is revoked with success, over assignments that stand under their ids, the revoked
-- assignment is the one stored under the command's id, or, where the command gives no id, a
-- stored one of exactly its user, its role and its scope that has not expired; and what any user
-- is granted afterwards is exactly what the assignments other than the revoked one granted
-- before.
pub revoke-grants :
    (now : ℕ) (c : RevokeRoleCommand) (st st2 : Store) (a : UserRoleAssignment) (user_id : String)
    (org_id : Option String) (needed : Permission) (t : ℕ)
    → IsKeyed st.assignments
    → revoke_role_from_user now c st ≡ ok (st2, a)
    → (NamedById c st a ⊎ NamedByTuple now c st a)
      × (grants st2 user_id org_id needed t ≡ grants_without a.id st user_id org_id needed t)
unfolding revoke_role_from_user
revoke-grants now c st st2 a user_id org_id needed t k e = (
  revoke_named-Named now c st st2 a c.assignment_id refl e,
  ap (λ s. grants s user_id org_id needed t) (revoke_named-grants now c c.assignment_id st st2 a e)
      ∙ any-delete (λ x. reaches user_id org_id t x && role_grants st needed x.role_id) a.id
          st.assignments k,
)
