-- ===== src/Authorization/RoleAssignment.antt =====
-- packages/authorization/domain/entities/user-role-assignment.ts: who holds which role, in one
-- organisation or everywhere, and until when. Times are milliseconds.
use verixa.Prelude.{ℕ, String, Bool, true, false, Option, none, some, leb, if◌then◌else◌}
use verixa.Prelude.Blank.{is_blank}
use verixa.Kernel.Result.{Result, ok, err, ◌>>=◌}

-- `org_id` is none where the role holds everywhere.
pub record UserRoleAssignment : Type 0 where
  pub id : String
  pub user_id : String
  pub role_id : String
  pub org_id : Option String
  pub assigned_at : ℕ
  pub assigned_by : String
  pub expires_at : Option ℕ

-- `OrgId | null`, or undefined from a caller that is not type checked.
pub data Scope : Type 0 where
  undefined : Scope
  global : Scope
  scoped : String → Scope

-- A `Date | undefined`.
pub data DateInput : Type 0 where
  absent : DateInput
  invalid_date : DateInput
  at : ℕ → DateInput

pub record CreateUserRoleAssignmentParams : Type 0 where
  pub user_id : String
  pub role_id : String
  pub org_id : Scope
  pub assigned_by : String
  pub assigned_at : DateInput
  pub expires_at : DateInput

pub data AssignmentError : Type 0 where
  user_id_required : AssignmentError
  role_id_required : AssignmentError
  assigned_by_required : AssignmentError
  ambiguous_scope : AssignmentError
  invalid_scope : AssignmentError
  assigned_at_invalid : AssignmentError
  expires_at_invalid : AssignmentError
  must_be_after_assigned_at : AssignmentError

abbrev pub check_scope : Scope → Result (Option String) AssignmentError
check_scope undefined = err ambiguous_scope
check_scope global = ok none
check_scope (scoped org) = if is_blank org then err invalid_scope else ok (some org)

abbrev pub check_assigned_at : DateInput → ℕ → Result ℕ AssignmentError
check_assigned_at absent now = ok now
check_assigned_at invalid_date now = err assigned_at_invalid
check_assigned_at (at t) now = ok t

abbrev pub check_expires_at : DateInput → ℕ → Result (Option ℕ) AssignmentError
check_expires_at absent assigned_at = ok none
check_expires_at invalid_date assigned_at = err expires_at_invalid
check_expires_at (at t) assigned_at =
    if leb t assigned_at then err must_be_after_assigned_at else ok (some t)

unfoldable pub create :
    String → ℕ → CreateUserRoleAssignmentParams → Result UserRoleAssignment AssignmentError
create id now params =
    if is_blank params.user_id
    then err user_id_required
    else if is_blank params.role_id
    then err role_id_required
    else if is_blank params.assigned_by
    then err assigned_by_required
    else check_scope params.org_id >>= (λ org_id.
      check_assigned_at params.assigned_at now >>= (λ assigned_at.
        check_expires_at params.expires_at assigned_at >>= (λ expires_at. ok (record {
          id = id;
          user_id = params.user_id;
          role_id = params.role_id;
          org_id = org_id;
          assigned_at = assigned_at;
          assigned_by = params.assigned_by;
          expires_at = expires_at;
        }))))

abbrev pub is_global : UserRoleAssignment → Bool
is_global a = elim a.org_id [ none ↦ true | some org ↦ false ]

abbrev pub is_past : Option ℕ → ℕ → Bool
is_past none now = false
is_past (some t) now = leb t now

unfoldable pub is_expired : UserRoleAssignment → ℕ → Bool
is_expired a now = is_past a.expires_at now
