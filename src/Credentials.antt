-- ===== src/Credentials.antt =====
-- packages/credentials: passwords, their lockout and their history.
pub mod ResetToken
pub mod Lockout
pub mod Credential
pub mod Authentication
pub mod Reset
pub mod ChangePassword
