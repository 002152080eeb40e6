-- ===== src/Sessions/UseCases.antt =====
-- packages/sessions/application/use-cases: opening, refreshing and ending sessions. `Date.now()`, the
-- new identifiers and the random tokens are arguments.
pub mod Endings
pub mod Reuse
pub mod Replay
pub mod Rotation
pub mod Closing
pub mod Invariant
pub mod Limit
mod Tests
use verixa.Prelude.{
  ℕ, zero, suc, ◌+◌, ◌*◌, ◌/◌, String, Bool, true, false, not, ◌&&◌, ◌||◌, List, [], ◌∷◌, ◌++◌,
  Option, none, some, leb, ltb, eqb, ◌==◌, if◌then◌else◌, filter, map, length,
}
use mathlib.Core.Option
use verixa.Prelude.Blank.{is_blank}
use verixa.Kernel.Result.{Result, ok, err}
use verixa.Sessions.Policy.{SessionExpiryPolicy, refresh_token_expiry_from}
use verixa.Sessions.Session
use verixa.Sessions.Session.{Session, is_active, touch, revoke_due_to_refresh_token_reuse}
use verixa.Sessions.RefreshToken
use verixa.Sessions.RefreshToken.{RefreshToken, is_used, is_redeemable, mark_used}
use verixa.Sessions.Store.{
  Store, save, find_by_id, save_refresh_token, find_refresh_token_by_hash, find_active_by_user_id,
  revoke_all_for_user, deny,
}

-- What the use cases are constructed with: the digest of `node:crypto`, the signer of access tokens
-- (session, user, seconds to live), the policy, and the limit on sessions, 0 for none.
pub record Env : Type 0 where
  pub hash_token : String → String
  pub sign : String → String → ℕ → String
  pub policy : SessionExpiryPolicy
  pub max_concurrent_sessions : ℕ

pub data UseCaseError : Type 0 where
  authentication authorization : UseCaseError
  validation : List String → UseCaseError

pub record TokenPair : Type 0 where
  pub access_token : String
  pub refresh_token : String

abbrev access_token_expiry_from : Env → ℕ → ℕ
access_token_expiry_from env now = now + env.policy.access_token_ttl_ms

-- The identifier and the raw value of the token that a rotation or a login makes.
pub record NewToken : Type 0 where
  pub id : String
  pub raw : String

abbrev pub issued : Env → NewToken → String → ℕ → RefreshToken
issued env new session_id now =
    RefreshToken.issue new.id session_id (env.hash_token new.raw)
      (refresh_token_expiry_from env.policy now) now

abbrev pub access_token_of : Env → Session → String
access_token_of env s = env.sign s.id s.user_id (env.policy.access_token_ttl_ms / 1000)

-- `RefreshAccessToken.execute`, from the point at which the token and its session are found.
pub refresh_found :
    Env → NewToken → ℕ → RefreshToken → Session → Store → Store × Result TokenPair UseCaseError
refresh_found env new now presented session st =
    let revoked = revoke_due_to_refresh_token_reuse presented.id now session in
    if is_used presented
    then (deny revoked.id (access_token_expiry_from env now) (save revoked st), err authentication)
    else if not (is_redeemable presented now) || not (is_active session env.policy now)
    then (st, err authentication)
    else (
      save (touch now session) (
          save_refresh_token (issued env new session.id now)
            (save_refresh_token (mark_used now presented) st)),
      ok (record {
        access_token = access_token_of env (touch now session);
        refresh_token = new.raw;
      }),
    )

refresh_presented :
    Env → NewToken → ℕ → Option RefreshToken → Store → Store × Result TokenPair UseCaseError
unfolding refresh_found
refresh_presented env new now none st = (st, err authentication)
refresh_presented env new now (some presented) st = elim (find_by_id presented.session_id st) [
  | none ↦ (st, err authentication)
  | some session ↦ refresh_found env new now presented session st
]

pub refresh_access_token :
    Env → NewToken → ℕ → String → Store → Store × Result TokenPair UseCaseError
unfolding refresh_presented
refresh_access_token env new now raw st =
    refresh_presented env new now (find_refresh_token_by_hash (env.hash_token raw) st) st

abbrev pub default_revocation_window_ms : ℕ
default_revocation_window_ms = 24 * 60 * 60 * 1000

abbrev or_else {ℓ} : {A : Type ℓ} → Option A → A → A
or_else none d = d
or_else (some a) d = a

logout_session : Option Session → String → Option ℕ → ℕ → Store → Store
logout_session none session_id revoke_until now st = st
logout_session (some s) session_id revoke_until now st =
    deny session_id (or_else revoke_until (now + default_revocation_window_ms))
      (save (Session.revoke now s) st)

pub logout : String → Option ℕ → ℕ → Store → Store × Result (Unit {0}) UseCaseError
unfolding logout_session
logout session_id revoke_until now st =
    if is_blank session_id
    then (st, err (validation ("sessionId" ∷ [])))
    else (logout_session (find_by_id session_id st) session_id revoke_until now st, ok tt)

deny_each : List Session → ℕ → Store → Store
deny_each [] until st = st
deny_each (s ∷ ss) until st = deny_each ss until (deny s.id until st)

pub logout_everywhere : String → ℕ → Store → Store × Result (Unit {0}) UseCaseError
unfolding deny_each
logout_everywhere user_id now st =
    let until = now + default_revocation_window_ms in
    if is_blank user_id then (st, err (validation ("userId" ∷ []))) else (
      revoke_all_for_user user_id now (deny_each (find_active_by_user_id user_id st) until st),
      ok tt,
    )

-- One round of the eviction loop: the oldest session is revoked, denied and recorded.
evict : Env → String → ℕ → Session → Store → Store
evict env user_id now oldest st =
    let st' =
      deny oldest.id (access_token_expiry_from env now) (save (Session.revoke now oldest) st) in
    record st' {
      evictions =
          st'.evictions ++ record { user_id = user_id; evicted_session_id = oldest.id } ∷ [];
    }

-- `evictOldestUntilUnderLimit`; `none` when the fuel runs out, and at `active[0]!` of an empty list,
-- which a positive limit leaves out.
pub evict_until_under_limit : ℕ → Env → String → ℕ → Store → Option Store
unfolding evict
evict_until_under_limit zero env user_id now st = none
evict_until_under_limit (suc fuel) env user_id now st =
    let active = find_active_by_user_id user_id st in
    elim (ltb (length active) env.max_concurrent_sessions) [
      | true ↦ some st
      | false ↦ elim (active) [
        | [] ↦ none
        | oldest ∷ _ ↦
            evict_until_under_limit fuel env user_id now (evict env user_id now oldest st)
      ]
    ]

pub record IssueSessionCommand : Type 0 where
  pub user_id : String
  pub ip_address : Option String
  pub user_agent : Option String

pub record IssuedSession : Type 0 where
  pub session_id : String
  pub access_token : String
  pub refresh_token : String

pub open_session :
    Env
    → String
    → NewToken
    → ℕ
    → IssueSessionCommand
    → Store
    → Store × Result IssuedSession UseCaseError
open_session env session_id new now c st =
    let session = Session.«open» session_id c.user_id env.policy c.ip_address c.user_agent now in
    (
      save_refresh_token (issued env new session_id now) (save session st),
      ok (record {
        session_id = session_id;
        access_token = access_token_of env session;
        refresh_token = new.raw;
      }),
    )

-- `IssueSession.execute`. As many rounds as there are sessions, and one, are given to the loop.
pub issue_session :
    Env
    → String
    → NewToken
    → ℕ
    → IssueSessionCommand
    → Store
    → Option (Store × Result IssuedSession UseCaseError)
unfolding evict_until_under_limit open_session
issue_session env session_id new now c st =
    let fuel = suc (length st.sessions) in
    let evicted =
      if ltb 0 env.max_concurrent_sessions
      then evict_until_under_limit fuel env c.user_id now st
      else some st in
    if is_blank c.user_id
    then some (st, err (validation ("userId" ∷ [])))
    else Option.map (λ st'. open_session env session_id new now c st') evicted

pub record ListActiveSessionsCommand : Type 0 where
  pub requesting_user_id : String
  pub target_user_id : String
  pub as_admin : Bool

abbrev blank_fields : ListActiveSessionsCommand → List String
blank_fields c =
    (if is_blank c.requesting_user_id then "requestingUserId" ∷ [] else [])
    ++ (if is_blank c.target_user_id then "targetUserId" ∷ [] else [])

pub record SessionSummary : Type 0 where
  pub id : String
  pub created_at : ℕ
  pub last_seen_at : ℕ
  pub expires_at : ℕ
  pub ip_address : Option String
  pub user_agent : Option String

abbrev summary_of : Session → SessionSummary
summary_of s = record {
  id = s.id;
  created_at = s.created_at;
  last_seen_at = s.last_seen_at;
  expires_at = s.expires_at;
  ip_address = s.ip_address;
  user_agent = s.user_agent;
}

-- `ListActiveSessions.execute`
pub list_active_sessions :
    Env → ℕ → ListActiveSessionsCommand → Store → Result (List SessionSummary) UseCaseError
list_active_sessions env now c st = elim (blank_fields c) [
  | e ∷ es ↦ err (validation (e ∷ es))
  | [] ↦
      if not (c.requesting_user_id == c.target_user_id) && not c.as_admin
      then err authorization
      else ok (
          map summary_of
            (filter (λ s. is_active s env.policy now) (find_active_by_user_id c.target_user_id st)))
]
