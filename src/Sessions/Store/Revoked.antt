-- ===== src/Sessions/Store/Revoked.antt =====
-- What a store says of one session and of one token, and how its writes change that.
use verixa.Prelude.{
  inl, inr, Bool-cases, ℕ, String, Bool, true, false, List, [], ◌∷◌, Option, none, some, ◌≡◌, arith,
  ◌==◌, eq_iff,
}
use verixa.Prelude.Dict.{values, Dict, get, get-set}
use verixa.Sessions.Session
use verixa.Sessions.Session.{Session}
use verixa.Sessions.RefreshToken.{RefreshToken, is_used}
use verixa.Sessions.Store.{Store, save, save_refresh_token, revoke_each, revoke_all_for_user}

abbrev pub is_revoked_session : Option Session → Bool
is_revoked_session none = false
is_revoked_session (some s) = Session.is_revoked s

abbrev pub session_revoked : String → Store → Bool
session_revoked id st = is_revoked_session (get id st.sessions)

abbrev pub is_used_token : Option RefreshToken → Bool
is_used_token none = false
is_used_token (some t) = is_used t

abbrev pub token_used : String → Store → Bool
token_used hash st = is_used_token (get hash st.tokens)

-- Each session is stored under its own identifier.
pub record IsKeyed (st : Store) : Type 0 where
  pub at_key : (k : String) (s : Session) → get k st.sessions ≡ some s → s.id ≡ k

pub save-IsKeyed : (s : Session) (st : Store) → IsKeyed st → IsKeyed (save s st)
save-IsKeyed s st keyed = record {
  at_key = λ k t h. ground (arith, get-set s.id k s st.sessions, eq_iff s.id k, keyed.at_key k t);
}

pub session_revoked-save :
    (j : String) (s : Session) (st : Store)
    → session_revoked j st ≡ true
    → (s.id ≡ j → Session.is_revoked s ≡ true)
    → session_revoked j (save s st) ≡ true
session_revoked-save j s st h k = ground (arith, get-set s.id j s st.sessions, eq_iff s.id j, k)

pub session_revoked-save_self :
    (s : Session) (st : Store)
    → Session.is_revoked s ≡ true
    → session_revoked s.id (save s st) ≡ true
session_revoked-save_self s st h = ground (arith, get-set s.id s.id s st.sessions, eq_iff s.id s.id)

pub token_used-save :
    (h : String) (t : RefreshToken) (st : Store)
    → token_used h st ≡ true
    → (t.token_hash ≡ h → is_used t ≡ true)
    → token_used h (save_refresh_token t st) ≡ true
token_used-save h t st u k =
    ground (arith, get-set t.token_hash h t st.tokens, eq_iff t.token_hash h, k)

pub revoke-is_revoked : (now : ℕ) (s : Session) → Session.is_revoked (Session.revoke now s) ≡ true
revoke-is_revoked now s = ground arith

revoke_each-revoked :
    (user_id j : String) (now : ℕ) (rest : List Session) (sessions : Dict Session)
    → is_revoked_session (get j sessions) ≡ true
    → is_revoked_session (get j (revoke_each user_id now rest sessions)) ≡ true
unfolding revoke_each
revoke_each-revoked user_id j now [] sessions h = h
revoke_each-revoked user_id j now (s ∷ rest) sessions h = revoke_each-revoked user_id j now rest _ (
    ground (
      arith,
      get-set s.id j (Session.revoke now s) sessions,
      eq_iff s.id j,
      revoke-is_revoked now s,
    ))

pub session_revoked-revoke_all :
    (user_id j : String) (now : ℕ) (st : Store)
    → session_revoked j st ≡ true
    → session_revoked j (revoke_all_for_user user_id now st) ≡ true
unfolding revoke_all_for_user
session_revoked-revoke_all user_id j now st h =
    revoke_each-revoked user_id j now (values st.sessions) st.sessions h

-- A store with the sessions given is keyed.
abbrev pub KeyedDict : Dict Session → Type 0
KeyedDict sessions = (k : String) (s : Session) → get k sessions ≡ some s → s.id ≡ k

pub revoke_each-KeyedDict :
    (user_id : String) (now : ℕ) (rest : List Session) (sessions : Dict Session)
    → KeyedDict sessions
    → KeyedDict (revoke_each user_id now rest sessions)
unfolding revoke_each
revoke_each-KeyedDict user_id now [] sessions h = h
revoke_each-KeyedDict user_id now (s ∷ rest) sessions h =
    revoke_each-KeyedDict user_id now rest _ (λ k t e.
      ground (arith, h k t, eq_iff s.id k, get-set s.id k (Session.revoke now s) sessions))

-- Each session of the user is met by the loop, and revoked.
revoke_each-own :
    (user_id j : String) (now : ℕ) (m sessions : Dict Session) (s : Session)
    → get j m ≡ some s
    → s.id ≡ j
    → s.user_id ≡ user_id
    → is_revoked_session (get j (revoke_each user_id now (values m) sessions)) ≡ true
unfolding revoke_each get
revoke_each-own user_id j now [] sessions s l i u = ground arith
revoke_each-own user_id j now ((k, v) ∷ m) sessions s l i u = elim (Bool-cases (k == j)) [
  | inr other ↦ revoke_each-own user_id j now m _ s (ground (arith, l)) i u
  | inl same ↦ revoke_each-revoked user_id j now (values m) _ (
      ground (
        arith,
        l,
        eq_iff v.user_id user_id,
        eq_iff v.id j,
        get-set v.id j (Session.revoke now v) sessions,
        revoke-is_revoked now v,
      ))
]

pub session_revoked-revoke_all_own :
    (user_id j : String) (now : ℕ) (st : Store) (s : Session)
    → get j st.sessions ≡ some s
    → s.id ≡ j
    → s.user_id ≡ user_id
    → session_revoked j (revoke_all_for_user user_id now st) ≡ true
unfolding revoke_all_for_user
session_revoked-revoke_all_own user_id j now st s l i u =
    revoke_each-own user_id j now st.sessions st.sessions s l i u
