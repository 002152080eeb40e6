-- ===== src/Sessions/UseCases/Reuse.antt =====
-- Rotation and reuse of refresh tokens, over any sequence of the operations on a store.
use verixa.Prelude.{
  ℕ, String, true, List, [], ◌∷◌, Option, none, some, ◌≡◌, ◌≢◌, arith, eq_iff, Option-cases, inl,
  inr,
}
use verixa.Prelude.Dict.{get, get-set}
use verixa.Kernel.Result.{err}
use verixa.Sessions.Session
use verixa.Sessions.Session.{Session, «open», is_active, touch, revoke_due_to_refresh_token_reuse}
use verixa.Sessions.RefreshToken.{RefreshToken, issue, mark_used}
use verixa.Sessions.Store.{Store, save_refresh_token}
use verixa.Sessions.Store.Revoked.{
  session_revoked, token_used, IsKeyed, save-IsKeyed, session_revoked-save, token_used-save,
}
use verixa.Sessions.UseCases.{
  Env, NewToken, authentication, IssueSessionCommand, refresh_found, refresh_presented,
  refresh_access_token, logout, logout_everywhere, open_session, issue_session, issued,
}

-- The operations of the use cases that write to the store.
pub data Operation : Type 0 where
  refreshing : NewToken → String → Operation
  logging_out : String → Option ℕ → Operation
  logging_out_everywhere : String → Operation
  issuing : String → NewToken → IssueSessionCommand → Operation

abbrev pub stored_or : {A : Type 0} → Store → Option (Store × A) → Store
stored_or st none = st
stored_or st (some r) = r.0

-- The hash of the token that an operation makes is not the hash given.
abbrev pub IsNewHash : Env → String → Operation → Type 0
IsNewHash env hash (refreshing new raw) = env.hash_token new.raw ≢ hash
IsNewHash env hash (logging_out _ _) = Unit
IsNewHash env hash (logging_out_everywhere _) = Unit
IsNewHash env hash (issuing id new c) = env.hash_token new.raw ≢ hash

-- The identifier of the session that an operation opens is not the one given.
abbrev pub IsNewId : String → Operation → Type 0
IsNewId session_id (refreshing new raw) = Unit
IsNewId session_id (logging_out _ _) = Unit
IsNewId session_id (logging_out_everywhere _) = Unit
IsNewId session_id (issuing id new c) = id ≢ session_id

abbrev pub Every : (Operation → Type 0) → List (Operation × ℕ) → Type 0
Every P [] = Unit
Every P ((op, _) ∷ ops) = P op × Every P ops

module _ (env : Env) where
  unfoldable pub step : Operation → ℕ → Store → Store
  step (refreshing new raw) now st = (refresh_access_token env new now raw st).0
  step (logging_out id until) now st = (logout id until now st).0
  step (logging_out_everywhere user_id) now st = (logout_everywhere user_id now st).0
  step (issuing id new c) now st = stored_or st (issue_session env id new now c st)

  unfoldable pub run : List (Operation × ℕ) → Store → Store
  run [] st = st
  run ((op, now) ∷ ops) st = run ops (step op now st)

  pub used-refresh_found :
      (h : String) (new : NewToken) (now : ℕ) (t : RefreshToken) (s : Session) (st : Store)
      → env.hash_token new.raw ≢ h
      → token_used h st ≡ true
      → token_used h (refresh_found env new now t s st).0 ≡ true
  unfolding refresh_found issue
  used-refresh_found h new now t s st f u = ground (
    arith,
    get-set t.token_hash h (mark_used now t) st.tokens,
    eq_iff t.token_hash h,
    get-set (env.hash_token new.raw) h (issued env new s.id now)
        (save_refresh_token (mark_used now t) st).tokens,
    eq_iff (env.hash_token new.raw) h,
  )

  pub revoked-refresh_found :
      (id : String) (new : NewToken) (now : ℕ) (t : RefreshToken) (s : Session) (st : Store)
      → session_revoked id st ≡ true
      → get s.id st.sessions ≡ some s
      → session_revoked id (refresh_found env new now t s st).0 ≡ true
  unfolding refresh_found is_active
  revoked-refresh_found id new now t s st r l = ground (
    arith,
    get-set s.id id (touch now s) st.sessions,
    eq_iff s.id id,
    get-set s.id id (revoke_due_to_refresh_token_reuse t.id now s) st.sessions,
  )

  pub IsKeyed-refresh_found :
      (new : NewToken) (now : ℕ) (t : RefreshToken) (s : Session) (st : Store)
      → IsKeyed st
      → IsKeyed (refresh_found env new now t s st).0
  unfolding refresh_found
  IsKeyed-refresh_found new now t s st k = record {
    at_key = λ key v h. ground (
      arith,
      k.at_key key v,
      eq_iff s.id key,
      get-set s.id key (touch now s) st.sessions,
      get-set s.id key (revoke_due_to_refresh_token_reuse t.id now s) st.sessions,
    );
  }

  -- A refresh leaves the store, or acts on a token and its session that it has found.
  pub data Refreshed (new : NewToken) (now : ℕ) (raw : String) (st : Store) : Type 0 where
    refused :
        refresh_access_token env new now raw st ≡ (st, err authentication)
        → Refreshed new now raw st
    found :
        (t : RefreshToken) (s : Session)
        → get (env.hash_token raw) st.tokens ≡ some t
        → get t.session_id st.sessions ≡ some s
        → refresh_access_token env new now raw st ≡ refresh_found env new now t s st
        → Refreshed new now raw st

  pub refreshed : (new : NewToken) (now : ℕ) (raw : String) (st : Store) → Refreshed new now raw st
  unfolding refresh_access_token refresh_presented
  refreshed new now raw st = elim (Option-cases (get (env.hash_token raw) st.tokens)) [
    | inl n ↦ refused (rw (n, refresh_access_token))
    | inr (t, e) ↦ elim (Option-cases (get t.session_id st.sessions)) [
      | inl n ↦ refused (ground arith)
      | inr (s, f) ↦ found t s e f (ground arith)
    ]
  ]

  pub used-open_session :
      (hash sid : String) (new : NewToken) (now : ℕ) (c : IssueSessionCommand) (st : Store)
      → env.hash_token new.raw ≢ hash
      → token_used hash st ≡ true
      → token_used hash (open_session env sid new now c st).0 ≡ true
  unfolding open_session issue
  used-open_session hash sid new now c st f u =
      token_used-save hash (issued env new sid now) st u (λ e. absurd (f e))

  pub revoked-open_session :
      (id sid : String) (new : NewToken) (now : ℕ) (c : IssueSessionCommand) (st : Store)
      → sid ≢ id
      → session_revoked id st ≡ true
      → session_revoked id (open_session env sid new now c st).0 ≡ true
  unfolding open_session «open»
  revoked-open_session id sid new now c st f r =
      session_revoked-save id
        (Session.«open» sid c.user_id env.policy c.ip_address c.user_agent now) st r
        (λ e. absurd (f e))

  pub IsKeyed-open_session :
      (sid : String) (new : NewToken) (now : ℕ) (c : IssueSessionCommand) (st : Store)
      → IsKeyed st
      → IsKeyed (open_session env sid new now c st).0
  unfolding open_session
  IsKeyed-open_session sid new now c st k = record {
    at_key =
        (save-IsKeyed (Session.«open» sid c.user_id env.policy c.ip_address c.user_agent now) st
          k).at_key;
  }
