-- ===== src/Authorization.antt =====
-- packages/authorization: who may do what. Permissions and roles, role assignments, policies with
-- conditions on attributes, and the decision that puts the two together.
pub mod Permission
pub mod Role
pub mod RoleAssignment
pub mod Store
pub mod Checker
pub mod UseCases
pub mod Attributes
pub mod Condition
pub mod Evaluation
pub mod Combining
pub mod Linter
pub mod Service
