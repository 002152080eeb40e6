-- ===== src/Mfa/Store.antt =====
-- packages/mfa/infrastructure/testing/in-memory-mfa-method-repository.ts: the repository of methods.
pub mod Indexed
use verixa.Prelude.{
  ℕ, String, Bool, true, false, ◌&&◌, List, [], ◌∷◌, Option, none, some, ◌==◌, if◌then◌else◌,
  filter,
}
use verixa.Prelude.Dict.{Dict, get, set, delete, values}
use verixa.Mfa.Method.{MfaMethod, is_active, is_pending}

abbrev pub Methods : Type 0
Methods = Dict MfaMethod

abbrev pub save : MfaMethod → Methods → Methods
save m st = set m.id m st

abbrev pub find_by_id : String → Methods → Option MfaMethod
find_by_id id st = get id st

abbrev pub find_all_by_user_id : String → Methods → List MfaMethod
find_all_by_user_id user_id st = filter (λ m. m.user_id == user_id) (values st)

abbrev pub find_active_by_user_id : String → Methods → List MfaMethod
find_active_by_user_id user_id st =
    filter (λ m. is_active m.status) (find_all_by_user_id user_id st)

abbrev pub find_pending_by_user_id : String → Methods → List MfaMethod
find_pending_by_user_id user_id st =
    filter (λ m. is_pending m.status) (find_all_by_user_id user_id st)

unfoldable pub delete_each : List MfaMethod → Methods → Methods
delete_each [] st = st
delete_each (m ∷ ms) st = delete_each ms (delete m.id st)
