-- ===== src/Mfa.antt =====
-- packages/mfa: the second factors of a user, one-time codes, backup codes, the challenge between
-- password and session, and the CBOR codec of the security keys.
pub mod Method
pub mod Store
pub mod Totp
pub mod Backup
pub mod Cbor
