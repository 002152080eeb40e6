-- ===== src/Lib.antt =====
-- Verixa: identity, credentials, sessions, second factors, authorization, verification of identity
-- and an audit log, as packages of a TypeScript monorepo. This library models the domain cores of
-- six packages and the gate of a seventh against repeated guessing, with the paged verification of
-- the audit log and the use cases of sessions, of roles, of second factors, and of logging in with
-- a password, resetting and changing it, as functions on values; it is laid out as the packages
-- are.
--
-- Prelude, with its children, holds the shared vocabulary: Boolean tests, lists over the native
-- numbers, numbers that may be infinite (Number), texts as lists of code points with their decimal
-- and framed forms (Text), a JavaScript Map with text keys (Dict), searches in lists (Search), and
-- String.trim() against the empty text (Blank). Kernel/Result is
-- packages/shared-kernel/domain/result.ts; Kernel/BruteForce is
-- application/services/brute-force-policy.ts of that package over its store in memory.
--
-- Verification models packages/verification/domain: Status is
-- value-objects/verification-status.ts, Assignment is entities/review-assignment.ts, Request is
-- entities/verification-request.ts, one function for a method (request, submit, startReview,
-- reopenForEvidence, claimBy, approve and reject as decide, requestMoreInformation, reconstitute).
-- Request.Operation and perform are the operations as one type, and Request/Trace runs any
-- sequence of them.
--
-- Audit models packages/audit: Metadata is domain/value-objects/audit-metadata.ts, Entry is
-- domain/entities/audit-log-entry.ts, Walk is application/use-cases/verify-audit-chain.ts over the
-- query findFrom of infrastructure/persistence/prisma-audit-repositories.ts. A log is the list of
-- its rows in ascending order. SHA-256 and Date.toISOString are the fields of Entry.Platform; the
-- second is taken to be injective, the first is not.
--
-- Credentials models packages/credentials: Lockout is domain/value-objects/lockout-policy.ts,
-- Credential is domain/entities/credential.ts, Authentication is
-- application/use-cases/authenticate-with-password.ts over both, over the gate of
-- Kernel/BruteForce and over an Environment of what the code only calls (the users of
-- packages/identity, Email.create, the rate limiter, the hasher, the presence of second factors).
-- ResetToken is domain/entities/password-reset-token.ts and its store in memory, and Reset is
-- application/use-cases/request-password-reset.ts and confirm-password-reset.ts over it;
-- ChangePassword is application/use-cases/change-password.ts; digests, the revocation of sessions
-- and the lengths of texts are arguments. The comparison of a password with a hash is an argument.
-- Lockout/Agreement compares the lock with that of Kernel/BruteForce.
--
-- Sessions models packages/sessions: Policy, Session and RefreshToken are the value object and the
-- entities of domain, Store is the state of the in-memory adapters of infrastructure/testing (the
-- repository, the revocation list and the audit trail of evictions), and UseCases has one function
-- for the execute method of each use case of application/use-cases. UseCases/Reuse makes the
-- writing use cases one type of operations on a store, and runs sequences of them. The signer of
-- access tokens, the digest and the random values are arguments.
--
-- Authorization models packages/authorization: Permission, Role and RoleAssignment are the value
-- object, with the matcher of domain/services, and the entities; Store is the repositories of
-- infrastructure/fakes; Checker is application/services/permission-checker.ts and UseCases the use
-- cases on roles, over Store. Attributes, Condition, Evaluation and Combining are the attributes
-- of a request, the condition trees, domain/services/policy-evaluation-engine.ts and
-- combining-algorithms.ts, and Linter is application/services/policy-linter.ts over them. Service
-- is application/services/authorization-service.ts with domain/authorization-decision.ts; its two
-- ports, the role gate and the policy decision point, are arguments. Date.parse, createId and new
-- Date() are arguments throughout.
--
-- Mfa models packages/mfa: Method is domain/entities/mfa-method.ts, Store is
-- infrastructure/testing/in-memory-mfa-method-repository.ts, Totp the use cases that enrol,
-- confirm and challenge a one-time code, over the port TotpAlgorithm as an argument, and Backup
-- the use cases of backup codes and of recovery, over argon2Verify as an argument. Cbor is
-- infrastructure/webauthn/cbor.ts, over TextEncoder and TextDecoder as an argument, TextCodec,
-- with Cbor/Utf8 as an instance for the tests, Cbor/Head for its lengths and Cbor/Fuel for its
-- reader.
--
-- Bounds and fuel: a Date is its milliseconds from the epoch, a natural number, and numbers do not
-- round; durations that clients give may be negative or infinite (Number). Whole numbers stand for
-- fractional durations. The walk over a log has one round for each row and one more, since each
-- round but the last uses up a row; the eviction loop has one round for each stored session and
-- one more, since each round revokes a session of the map. The reader of CBOR has one round for
-- each byte and one more, since each value that it enters uses up a byte. The numbers among
-- attributes are integers, the infinities and NaN, without fractions; a bag has its own keys only,
-- not those a JavaScript object inherits; each list in a constraint is an object of its own, as
-- the literals of a policy are.
--
-- Not modelled: in authorization the entity of a policy with its versions, the operators of its
-- language, the simulation and the caches; in mfa the algorithm of one-time codes, its challenges
-- as entities, the step-up and the checks of WebAuthn messages; registration and the verification
-- of an address; the use cases of verification; the other use cases of the audit log, and the
-- escaping of its text for logs and exports; the packages identity, notifications and
-- stellar-anchor; the HTTP server, and the Prisma and Redis adapters apart from findFrom. A use
-- case is one step here: two that run at the same time are not interleaved.
pub mod Prelude
pub mod Kernel
pub mod Verification
pub mod Audit
pub mod Credentials
pub mod Sessions
pub mod Authorization
pub mod Mfa
