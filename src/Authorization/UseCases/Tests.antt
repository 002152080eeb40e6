-- ===== src/Authorization/UseCases/Tests.antt =====
-- The use cases and the checker on a small store.
use verixa.Prelude.{◌⊎◌, true, false, List, [], ◌∷◌, none, some, ◌≡◌, refl}
use verixa.Prelude.Blank.{is_blank}
use verixa.Prelude.Dict.{get, set, delete}
use verixa.Prelude.Search.{any, every}
use verixa.Prelude.Text.{Text, text_eq}
use verixa.Kernel.Result.{ok}
use verixa.Authorization.Permission.{
  Permission, create, trim_start, trim_end, split, lower, all_permission_chars, is_permission_char,
  matches, is_global_wildcard,
}
use verixa.Authorization.Role.{Role, raw, from}
use verixa.Authorization.RoleAssignment
use verixa.Authorization.RoleAssignment.{UserRoleAssignment, scoped, undefined, absent, is_expired}
use verixa.Authorization.Store.{Store, find_role_by_id, find_by_user_and_org}
use verixa.Authorization.Checker.{has_permission}
use verixa.Authorization.Checker.Search.{all_readable, grants, text_grants, has_permission-grants}
use verixa.Authorization.UseCases.{
  AssignRoleCommand, RevokeRoleCommand, assign_role_to_user, revoke_role_from_user, find_of_role,
  Operation, creating_role, assigning_permission, run_all,
}
use verixa.Authorization.UseCases.Saving.{IsContained}
use verixa.Authorization.UseCases.Containment.{run_all-IsContained}
use verixa.Authorization.UseCases.Granting.{assign-grants}
use verixa.Authorization.UseCases.Revoking.{revoke-grants, NamedById, NamedByTuple, grants_without}

-- "d:*" and "d:r".
abbrev all_docs : Text
all_docs = 100 ∷ 58 ∷ 42 ∷ []

abbrev read_doc : Text
read_doc = 100 ∷ 58 ∷ 114 ∷ []

abbrev everything : Text
everything = 42 ∷ 58 ∷ 42 ∷ []

abbrev reading : Permission
reading = record { value = read_doc; resource = 100 ∷ []; action = 114 ∷ [] }

abbrev editor : Role
editor = record {
  id = "editor";
  name = 101 ∷ [];
  description = none;
  is_system_role = false;
  permissions = all_docs ∷ [];
  created_at = 0;
  updated_at = 0;
}

abbrev assignment : UserRoleAssignment
assignment = record {
  id = "a1";
  user_id = "ann";
  role_id = "editor";
  org_id = some "acme";
  assigned_at = 0;
  assigned_by = "root";
  expires_at = none;
}

abbrev before : Store
before = record { roles = ("editor", editor) ∷ []; assignments = []; catalog = [] }

abbrev after_assignment : Store
after_assignment = record {
  roles = ("editor", editor) ∷ [];
  assignments = ("a1", assignment) ∷ [];
  catalog = [];
}

abbrev assigning : AssignRoleCommand
assigning = record {
  user_id = "ann";
  role_id = "editor";
  org_id = scoped "acme";
  assigned_by = "root";
  expires_at = absent;
  assigned_at = absent;
}

abbrev revoking : RevokeRoleCommand
revoking = record {
  assignment_id = none;
  user_id = some "ann";
  role_id = some "editor";
  org_id = scoped "acme";
}

readable : all_readable after_assignment ≡ true
unfolding every create trim_start trim_end split lower all_permission_chars is_permission_char
readable = refl

from_text : from (raw read_doc) ≡ ok reading
unfolding from create trim_start trim_end split lower all_permission_chars is_permission_char
from_text = refl

assigned : assign_role_to_user "a1" 0 assigning before ≡ ok (after_assignment, assignment)
unfolding assign_role_to_user get set find_of_role find_by_user_and_org RoleAssignment.create
    is_blank
assigned = refl

revoked : revoke_role_from_user 3 revoking after_assignment ≡ ok (before, assignment)
unfolding revoke_role_from_user get delete find_of_role find_by_user_and_org is_expired
revoked = refl

editor_found : find_role_by_id "editor" before ≡ some editor
unfolding get
editor_found = refl

editor_reads : any (text_grants reading) editor.permissions ≡ true
unfolding any create trim_start trim_end split lower all_permission_chars is_permission_char matches
    text_eq
editor_reads = refl

lasting : is_expired assignment 9 ≡ false
unfolding is_expired
lasting = refl

-- A role is created, and a grant of the global wildcard to it is tried.
abbrev operations : List Operation
operations =
    creating_role "reader" 1 (record {
      name = 114 ∷ [];
      description = none;
      is_system_role = none;
      permissions = raw read_doc ∷ [];
    })
    ∷ assigning_permission "reader" everything 2
    ∷ []

before-IsContained : IsContained before
unfolding every create trim_start trim_end split lower all_permission_chars is_permission_char
    text_eq is_global_wildcard
before-IsContained = refl

has_permission-grants_example :
    has_permission after_assignment "ann" (some "acme") (raw read_doc) 9
    ≡ ok (grants after_assignment "ann" (some "acme") reading 9)
has_permission-grants_example =
    has_permission-grants after_assignment "ann" (some "acme") (raw read_doc) reading 9 readable
      from_text

run_all-IsContained_example : IsContained (run_all operations before)
run_all-IsContained_example =
    run_all-IsContained operations before ((tt, tt), (tt, tt)) before-IsContained

assign-grants_example : grants after_assignment "ann" (some "acme") reading 9 ≡ true
assign-grants_example =
    assign-grants "a1" 0 assigning before after_assignment assignment editor reading 9 assigned
      editor_found editor_reads lasting

revoke-grants_example :
    (NamedById revoking after_assignment assignment
      ⊎ NamedByTuple 3 revoking after_assignment assignment)
    × (grants before "ann" (some "acme") reading 9
        ≡ grants_without "a1" after_assignment "ann" (some "acme") reading 9)
revoke-grants_example =
    revoke-grants 3 revoking after_assignment before assignment "ann" (some "acme") reading 9
      (refl, tt) revoked
