-- ===== src/Authorization/Checker.antt =====
-- packages/authorization/application/services/permission-checker.ts: the permissions a user holds in
-- an organisation. The value on the right of a result is what `Permission.from` throws.
pub mod Search
use verixa.Prelude.{
  ℕ, String, Bool, true, false, ◌&&◌, ◌||◌, List, [], ◌∷◌, ◌++◌, Option, none, some, ◌==◌,
  if◌then◌else◌, map,
}
use verixa.Prelude.Search.{any, every}
use verixa.Prelude.Text.{Text}
use verixa.Kernel.Result.{Result, ok, err, ◌>>=◌}
use verixa.Authorization.Permission.{Permission, matches}
use verixa.Authorization.Role.{Role, RoleError, from, raw, Wanted}
use verixa.Authorization.RoleAssignment.{UserRoleAssignment}
use verixa.Authorization.Store.{Store, find_by_user_and_org, find_role_by_id}

-- `new Set(ids)`, from the ids that are in the set so far.
unfoldable pub unique : List String → List String → List String
unique seen [] = []
unique seen (id ∷ ids) =
    let rest = unique seen ids in
    let fresh = unique (id ∷ seen) ids in if any (λ s. s == id) seen then rest else id ∷ fresh

-- The loop over the permissions of one role.
unfoldable pub parse_all : List Text → Result (List Permission) RoleError
parse_all [] = ok []
parse_all (v ∷ vs) = from (raw v) >>= (λ p. parse_all vs >>= (λ ps. ok (p ∷ ps)))

abbrev pub permissions_of : Option Role → Result (List Permission) RoleError
permissions_of none = ok []
permissions_of (some role) = parse_all role.permissions

unfoldable pub collect : Store → List String → Result (List Permission) RoleError
collect st [] = ok []
collect st (id ∷ ids) =
    permissions_of (find_role_by_id id st) >>= (λ ps. collect st ids >>= (λ qs. ok (ps ++ qs)))

abbrev pub scoped_assignments : String → Option String → ℕ → Store → List UserRoleAssignment
scoped_assignments user_id none now st = []
scoped_assignments user_id (some org) now st = find_by_user_and_org user_id (some org) now st

abbrev pub active_assignments : String → Option String → ℕ → Store → List UserRoleAssignment
active_assignments user_id org_id now st =
    scoped_assignments user_id org_id now st ++ find_by_user_and_org user_id none now st

unfoldable pub resolve_effective_permissions :
    Store → String → Option String → ℕ → Result (List Permission) RoleError
resolve_effective_permissions st user_id org_id now =
    collect st (unique [] (map (λ a. a.role_id) (active_assignments user_id org_id now st)))

unfoldable pub has_permission : Store → String → Option String → Wanted → ℕ → Result Bool RoleError
has_permission st user_id org_id permission now = from permission >>= (λ needed.
    resolve_effective_permissions st user_id org_id now
    >>= (λ effective. ok (any (λ granted. matches granted needed) effective)))

unfoldable pub from_all : List Wanted → Result (List Permission) RoleError
from_all [] = ok []
from_all (w ∷ ws) = from w >>= (λ p. from_all ws >>= (λ ps. ok (p ∷ ps)))

abbrev pub any_matched : List Permission → List Permission → Bool
any_matched needed effective = any (λ n. any (λ granted. matches granted n) effective) needed

abbrev pub all_matched : List Permission → List Permission → Bool
all_matched needed effective = every (λ n. any (λ granted. matches granted n) effective) needed

unfoldable pub has_any_permission :
    Store → String → Option String → List Wanted → ℕ → Result Bool RoleError
has_any_permission st user_id org_id permissions now = from_all permissions >>= (λ needed.
    elim needed [
      | [] ↦ ok false
      | n ∷ ns ↦
          resolve_effective_permissions st user_id org_id now
          >>= (λ effective. ok (any_matched (n ∷ ns) effective))
    ])

unfoldable pub has_all_permissions :
    Store → String → Option String → List Wanted → ℕ → Result Bool RoleError
has_all_permissions st user_id org_id permissions now = from_all permissions >>= (λ needed.
    elim needed [
      | [] ↦ ok true
      | n ∷ ns ↦
          resolve_effective_permissions st user_id org_id now
          >>= (λ effective. ok (all_matched (n ∷ ns) effective))
    ])
