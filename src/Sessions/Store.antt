-- ===== src/Sessions/Store.antt =====
-- packages/sessions/infrastructure/testing: the repository of sessions and refresh tokens and the
-- revocation list, as the maps of the in-memory implementations, and the audit trail of evictions.
pub mod Revoked
pub mod Counting
use verixa.Prelude.{
  ℕ, String, Bool, true, false, not, ◌&&◌, List, [], ◌∷◌, ◌++◌, Option, none, some, leb, ltb, ◌==◌,
  if◌then◌else◌, filter,
}
use verixa.Prelude.Dict.{Dict, get, set, values}
use verixa.Sessions.Session
use verixa.Sessions.Session.{Session}
use verixa.Sessions.RefreshToken.{RefreshToken}

pub record Eviction : Type 0 where
  pub user_id : String
  pub evicted_session_id : String

pub record Store : Type 0 where
  pub sessions : Dict Session
  pub tokens : Dict RefreshToken
  pub revoked_until : Dict ℕ
  pub evictions : List Eviction

abbrev pub empty : Store
empty = record { sessions = []; tokens = []; revoked_until = []; evictions = [] }

abbrev pub save : Session → Store → Store
save s st = record st { sessions = set s.id s st.sessions }

abbrev pub find_by_id : String → Store → Option Session
find_by_id id st = get id st.sessions

abbrev pub save_refresh_token : RefreshToken → Store → Store
save_refresh_token t st = record st { tokens = set t.token_hash t st.tokens }

abbrev pub find_refresh_token_by_hash : String → Store → Option RefreshToken
find_refresh_token_by_hash hash st = get hash st.tokens

-- `sort((a, b) => a.lastSeenAt - b.lastSeenAt)`, which is stable.
abbrev insert_by_age : Session → List Session → List Session
insert_by_age s [] = s ∷ []
insert_by_age s (t ∷ ts) =
    let rest = insert_by_age s ts in
    if leb s.last_seen_at t.last_seen_at then s ∷ t ∷ ts else t ∷ rest

abbrev sort_by_age : List Session → List Session
sort_by_age [] = []
sort_by_age (s ∷ ss) = insert_by_age s (sort_by_age ss)

abbrev pub is_active_of : String → Session → Bool
is_active_of user_id s = s.user_id == user_id && not (Session.is_revoked s)

unfoldable pub find_active_by_user_id : String → Store → List Session
find_active_by_user_id user_id st = sort_by_age (filter (is_active_of user_id) (values st.sessions))

-- The loop of `revokeAllForUser` over the values, with the map that it writes to.
pub revoke_each : String → ℕ → List Session → Dict Session → Dict Session
revoke_each user_id now [] sessions = sessions
revoke_each user_id now (s ∷ rest) sessions =
    revoke_each user_id now rest
      (if s.user_id == user_id then set s.id (Session.revoke now s) sessions else sessions)

unfoldable pub revoke_all_for_user : String → ℕ → Store → Store
unfolding revoke_each
revoke_all_for_user user_id now st = record st {
  sessions = revoke_each user_id now (values st.sessions) st.sessions;
}

-- `RevocationList.revoke` and `isRevoked`.
abbrev pub deny : String → ℕ → Store → Store
deny session_id until st = record st { revoked_until = set session_id until st.revoked_until }

abbrev pub is_denied_until : Option ℕ → ℕ → Bool
is_denied_until none now = false
is_denied_until (some until) now = ltb now until

unfoldable pub is_denied : String → ℕ → Store → Bool
is_denied session_id now st = is_denied_until (get session_id st.revoked_until) now
