-- ===== src/Sessions/UseCases/Closing.antt =====
-- What is left to the tokens of a session that is revoked, by a logout or otherwise.
use verixa.Prelude.{ℕ, String, true, false, List, Option, some, ◌≡◌, refl, arith, eq_iff, ap}
use verixa.Prelude.Dict.{get, get-set}
use verixa.Prelude.Blank.{is_blank}
use verixa.Kernel.Result.{err}
use verixa.Sessions.Session
use verixa.Sessions.Session.{Session, is_active, revoke_due_to_refresh_token_reuse}
use verixa.Sessions.RefreshToken.{RefreshToken}
use verixa.Sessions.Store.{Store}
use verixa.Sessions.Store.Revoked.{session_revoked, revoke-is_revoked, IsKeyed}
use verixa.Sessions.UseCases.{
  Env, NewToken, authentication, refresh_found, refresh_access_token, logout, logout_session,
  logout_everywhere,
}
use verixa.Sessions.UseCases.Endings.{
  logout-closed, logout_everywhere-closed, logout_everywhere-revoked, IsKeyed-IsClosed,
}
use verixa.Sessions.UseCases.Reuse.{Operation, run, Every, IsNewId, refused, found, refreshed}
use verixa.Sessions.UseCases.Replay.{run-revoked}

revoked_session_refused :
    (env : Env) (new : NewToken) (now : ℕ) (raw : String) (st : Store) (t : RefreshToken)
    → get (env.hash_token raw) st.tokens ≡ some t
    → session_revoked t.session_id st ≡ true
    → (refresh_access_token env new now raw st).1 ≡ err authentication
unfolding refresh_found is_active
revoked_session_refused env new now raw st t l r = elim (refreshed env new now raw st) [
  | refused e ↦ ap (λ r. r.1) e
  | found t' s l' k e ↦ ground (arith, e, l, l', k)
]

logout-revoked :
    (id : String) (until : Option ℕ) (now : ℕ) (st : Store) (s : Session)
    → is_blank id ≡ false
    → get id st.sessions ≡ some s
    → s.id ≡ id
    → session_revoked id (logout id until now st).0 ≡ true
unfolding logout logout_session
logout-revoked id until now st s b l i = ground (
  arith,
  l,
  b,
  get-set s.id id (Session.revoke now s) st.sessions,
  eq_iff s.id id,
  revoke-is_revoked now s,
)

-- In a store whose sessions all stand under their own identifiers, when the session of a refresh
-- token is revoked, then after any sequence of operations that open no session of its identifier
-- a refresh with that token, if it is stored then, fails with an authentication error.
pub revoked_session_closed :
    (env : Env) (new : NewToken) (now : ℕ) (raw : String) (st : Store) (ops : List (Operation × ℕ))
    (t : RefreshToken)
    → IsKeyed st
    → session_revoked t.session_id st ≡ true
    → Every (IsNewId t.session_id) ops
    → get (env.hash_token raw) (run env ops st).tokens ≡ some t
    → (refresh_access_token env new now raw (run env ops st)).1 ≡ err authentication
revoked_session_closed env new now raw st ops t k r f l =
    revoked_session_refused env new now raw (run env ops st) t l
      (run-revoked env t.session_id ops st f k r)

-- In a store whose sessions all stand under their own identifiers, after a logout of a stored
-- session whose identifier is not blank, and any sequence of operations that open no session of
-- that identifier, a refresh with a token of that session that is stored then fails with an
-- authentication error.
pub logout_closes :
    (env : Env) (new : NewToken) (now later : ℕ) (raw : String) (st : Store) (until : Option ℕ)
    (s : Session) (ops : List (Operation × ℕ)) (t : RefreshToken)
    → IsKeyed st
    → get t.session_id st.sessions ≡ some s
    → is_blank t.session_id ≡ false
    → Every (IsNewId t.session_id) ops
    → get (env.hash_token raw) (run env ops (logout t.session_id until now st).0).tokens ≡ some t
    → (refresh_access_token env new later raw (run env ops (logout t.session_id until now st).0)).1
      ≡ err authentication
logout_closes env new now later raw st until s ops t k l b f h =
    revoked_session_closed env new later raw (logout t.session_id until now st).0 ops t
      (logout-closed IsKeyed IsKeyed-IsClosed t.session_id until now st k)
      (logout-revoked t.session_id until now st s b l (k.at_key t.session_id s l)) f h

-- In a store whose sessions all stand under their own identifiers, after a logout everywhere of
-- the user of a stored session, the user's identifier not being blank, and any sequence of
-- operations that open no session of that session's identifier, a refresh with a token of that
-- session that is stored then fails with an authentication error.
logout_everywhere_closes :
    (env : Env) (new : NewToken) (now later : ℕ) (raw : String) (st : Store) (s : Session)
    (ops : List (Operation × ℕ)) (t : RefreshToken)
    → IsKeyed st
    → get t.session_id st.sessions ≡ some s
    → is_blank s.user_id ≡ false
    → Every (IsNewId t.session_id) ops
    → get (env.hash_token raw) (run env ops (logout_everywhere s.user_id now st).0).tokens ≡ some t
    → (refresh_access_token env new later raw
        (run env ops (logout_everywhere s.user_id now st).0)).1
      ≡ err authentication
logout_everywhere_closes env new now later raw st s ops t k l b f h =
    revoked_session_closed env new later raw (logout_everywhere s.user_id now st).0 ops t
      (logout_everywhere-closed IsKeyed IsKeyed-IsClosed s.user_id now st k)
      (logout_everywhere-revoked s.user_id t.session_id now st s b l (k.at_key t.session_id s l)
        refl)
      f h
