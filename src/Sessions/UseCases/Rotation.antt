-- ===== src/Sessions/UseCases/Rotation.antt =====
-- packages/sessions/application/use-cases/refresh-access-token.ts: what a rotation, a reuse mean for the tokens of a session.
use verixa.Prelude.{
  ℕ, ◌+◌, ◌<◌, String, true, false, List, some, ◌≡◌, ◌≢◌, ◌↔◌, arith, eq_iff, ap, sym, ◌∙◌,
}
use verixa.Prelude.Dict.{get, get-set}
use mathlib.Core.Path.{subst}
use verixa.Kernel.Result.{ok, err, is_ok}
use verixa.Sessions.Session.{Session, is_active, revoke_due_to_refresh_token_reuse}
use verixa.Sessions.RefreshToken.{RefreshToken, is_used, is_redeemable, issue, mark_used}
use verixa.Sessions.Store.{Store, is_denied, save_refresh_token}
use verixa.Sessions.Store.Revoked.{session_revoked, token_used}
use verixa.Sessions.UseCases.{
  Env, NewToken, TokenPair, authentication, refresh_found, refresh_presented, refresh_access_token,
  issued,
}
use verixa.Sessions.UseCases.Reuse.{Operation, run, Every, IsNewHash, refused, found, refreshed}
use verixa.Sessions.UseCases.Replay.{run-used}

-- A refresh with a used token fails.
used_token_refused :
    (env : Env) (new : NewToken) (now : ℕ) (raw : String) (st : Store)
    → token_used (env.hash_token raw) st ≡ true
    → (refresh_access_token env new now raw st).1 ≡ err authentication
unfolding refresh_found
used_token_refused env new now raw st u = elim (refreshed env new now raw st) [
  | refused e ↦ ap (λ r. r.1) e
  | found t s l _ e ↦ ground (arith, e, l)
]

-- Each token is stored under its own hash.
pub record IsHashed (st : Store) : Type 0 where
  pub at_hash : (h : String) (t : RefreshToken) → get h st.tokens ≡ some t → t.token_hash ≡ h

found-used :
    (env : Env) (new : NewToken) (now : ℕ) (h : String) (t : RefreshToken) (s : Session)
    (st : Store) (p : TokenPair)
    → t.token_hash ≡ h
    → env.hash_token new.raw ≢ h
    → (refresh_found env new now t s st).1 ≡ ok p
    → token_used h (refresh_found env new now t s st).0 ≡ true
unfolding refresh_found issue
found-used env new now h t s st p k f ok_p = ground (
  arith,
  eq_iff t.token_hash h,
  get-set t.token_hash h (mark_used now t) st.tokens,
  eq_iff (env.hash_token new.raw) h,
  get-set (env.hash_token new.raw) h (issued env new s.id now)
      (save_refresh_token (mark_used now t) st).tokens,
)

succeeded-used :
    (env : Env) (new : NewToken) (now : ℕ) (raw : String) (st : Store) (p : TokenPair)
    → env.hash_token new.raw ≢ env.hash_token raw
    → IsHashed st
    → (refresh_access_token env new now raw st).1 ≡ ok p
    → token_used (env.hash_token raw) (refresh_access_token env new now raw st).0 ≡ true
succeeded-used env new now raw st p f k h = elim (refreshed env new now raw st) [
  | refused e ↦ refused_not_ok (sym (ap (λ r. r.1) e) ∙ h)
  | found t s l _ e ↦
      subst (λ r. token_used (env.hash_token raw) r.0 ≡ true) (sym e)
        (found-used env new now (env.hash_token raw) t s st p (k.at_hash (env.hash_token raw) t l) f
          (sym (ap (λ r. r.1) e) ∙ h))
]
  where
    refused_not_ok :
        err authentication ≡ ok p
        → token_used (env.hash_token raw) (refresh_access_token env new now raw st).0 ≡ true
    refused_not_ok e = ground arith

refresh_at :
    (env : Env) (new : NewToken) (now : ℕ) (raw : String) (st : Store) (t : RefreshToken)
    (s : Session)
    → get (env.hash_token raw) st.tokens ≡ some t
    → get t.session_id st.sessions ≡ some s
    → refresh_access_token env new now raw st ≡ refresh_found env new now t s st
unfolding refresh_access_token refresh_presented
refresh_at env new now raw st t s l k = ground arith

found-shut :
    (env : Env) (new : NewToken) (now moment : ℕ) (id : String) (t : RefreshToken) (s : Session)
    (st : Store)
    → s.id ≡ id
    → is_used t ≡ true
    → moment < now + env.policy.access_token_ttl_ms
    → ((refresh_found env new now t s st).1 ≡ err authentication)
      × (session_revoked id (refresh_found env new now t s st).0 ≡ true)
      × (is_denied id moment (refresh_found env new now t s st).0 ≡ true)
unfolding refresh_found is_denied
found-shut env new now moment id t s st i u b = ground (
  arith,
  eq_iff s.id id,
  get-set s.id id (revoke_due_to_refresh_token_reuse t.id now s) st.sessions,
  get-set s.id id (now + env.policy.access_token_ttl_ms) st.revoked_until,
)

-- When a refresh with a raw token succeeds, in a store whose refresh tokens all stand under
-- their own hashes, and neither the token that this refresh makes nor one that a later operation
-- makes has the hash of the raw token, then after any sequence of refreshes, logouts and new
-- sessions a refresh with the same raw token, at any time, fails with an authentication error.
pub replay_refused :
    (env : Env) (new later_new : NewToken) (now later : ℕ) (raw : String) (st : Store)
    (p : TokenPair) (ops : List (Operation × ℕ))
    → IsHashed st
    → env.hash_token new.raw ≢ env.hash_token raw
    → Every (IsNewHash env (env.hash_token raw)) ops
    → (refresh_access_token env new now raw st).1 ≡ ok p
    → (refresh_access_token env later_new later raw
        (run env ops (refresh_access_token env new now raw st).0)).1
      ≡ err authentication
replay_refused env new later_new now later raw st p ops k f g h =
    used_token_refused env later_new later raw
      (run env ops (refresh_access_token env new now raw st).0)
      (run-used env (env.hash_token raw) ops (refresh_access_token env new now raw st).0 g
        (succeeded-used env new now raw st p f k h))

-- A refresh with a stored token that is used already, and whose session is stored under the
-- identifier that it has, fails with an authentication error, leaves the session revoked, and
-- leaves its identifier on the revocation list at every moment before an access token that is
-- issued now would expire.
pub reuse_revokes :
    (env : Env) (new : NewToken) (now : ℕ) (raw : String) (st : Store) (t : RefreshToken)
    (s : Session) (moment : ℕ)
    → get (env.hash_token raw) st.tokens ≡ some t
    → get t.session_id st.sessions ≡ some s
    → s.id ≡ t.session_id
    → is_used t ≡ true
    → moment < now + env.policy.access_token_ttl_ms
    → ((refresh_access_token env new now raw st).1 ≡ err authentication)
      × (session_revoked t.session_id (refresh_access_token env new now raw st).0 ≡ true)
      × (is_denied t.session_id moment (refresh_access_token env new now raw st).0 ≡ true)
reuse_revokes env new now raw st t s moment l k i u b =
    subst
      (λ r.
        (r.1 ≡ err authentication)
        × (session_revoked t.session_id r.0 ≡ true)
        × (is_denied t.session_id moment r.0 ≡ true))
      (sym (refresh_at env new now raw st t s l k))
      (found-shut env new now moment t.session_id t s st i u b)

-- What a refresh needs: a token that is stored under the hash and redeemable, and its session, stored and active.
pub record CanRotate (env : Env) (now : ℕ) (raw : String) (st : Store) : Type 0 where
  pub token : RefreshToken
  pub session : Session
  pub at_hash : get (env.hash_token raw) st.tokens ≡ some token
  pub at_id : get token.session_id st.sessions ≡ some session
  pub redeemable : is_redeemable token now ≡ true
  pub active : is_active session env.policy now ≡ true

found-ok :
    (env : Env) (new : NewToken) (now : ℕ) (t : RefreshToken) (s : Session) (st : Store)
    → is_ok (refresh_found env new now t s st).1 ≡ true
    → (is_redeemable t now ≡ true) × (is_active s env.policy now ≡ true)
unfolding refresh_found is_active
found-ok env new now t s st h = ground arith

-- A refresh succeeds exactly when a token is stored under the hash of the raw token and is
-- redeemable, and its session is stored and active, at the time of the refresh.
pub refresh-ok_iff :
    (env : Env) (new : NewToken) (now : ℕ) (raw : String) (st : Store)
    → (is_ok (refresh_access_token env new now raw st).1 ≡ true) ↔ CanRotate env now raw st
unfolding refresh_found is_active
refresh-ok_iff env new now raw st = (to, from)
  where
    refused_not_ok : false ≢ true
    refused_not_ok e = ground arith

    to : is_ok (refresh_access_token env new now raw st).1 ≡ true → CanRotate env now raw st
    to h = elim (refreshed env new now raw st) [
      | refused e ↦ absurd (refused_not_ok (ap (λ r. is_ok r.1) (sym e) ∙ h))
      | found t s l k e ↦ record {
        token = t;
        session = s;
        at_hash = l;
        at_id = k;
        redeemable = (found-ok env new now t s st (ap (λ r. is_ok r.1) (sym e) ∙ h)).0;
        active = (found-ok env new now t s st (ap (λ r. is_ok r.1) (sym e) ∙ h)).1;
      }
    ]

    from : CanRotate env now raw st → is_ok (refresh_access_token env new now raw st).1 ≡ true
    from c =
        rw (refresh_at env new now raw st c.token c.session c.at_hash c.at_id)
          (ground (arith, c.redeemable, c.active))
