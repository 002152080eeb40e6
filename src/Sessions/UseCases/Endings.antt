-- ===== src/Sessions/UseCases/Endings.antt =====
-- What the operations that end sessions keep: any property of a store that their writes keep.
use verixa.Prelude.{
  ℕ, zero, suc, ◌+◌, String, true, false, List, [], ◌∷◌, Option, none, some, ◌≡◌, refl, ltb, length,
  Bool-cases, inl, inr, ap, ◌∙◌,
}
use verixa.Prelude.Dict.{values, get}
use verixa.Prelude.Blank.{is_blank}
use verixa.Sessions.Session
use verixa.Sessions.Session.{Session}
use verixa.Sessions.Store.{Store, Eviction, save, deny, find_active_by_user_id, revoke_all_for_user}
use verixa.Sessions.Store.Revoked.{
  session_revoked, token_used, IsKeyed, save-IsKeyed, session_revoked-save, revoke-is_revoked,
  session_revoked-revoke_all, revoke_each-KeyedDict, session_revoked-revoke_all_own,
}
use verixa.Sessions.UseCases.{
  Env, logout_session, logout, deny_each, logout_everywhere, evict, evict_until_under_limit,
  default_revocation_window_ms,
}

-- A property that the writes of the ending operations keep.
pub record IsClosed (P : Store → Type 0) : Type 0 where
  pub denying : (id : String) (until : ℕ) (st : Store) → P st → P (deny id until st)
  pub revoking : (s : Session) (now : ℕ) (st : Store) → P st → P (save (Session.revoke now s) st)
  pub recording : (l : List Eviction) (st : Store) → P st → P (record st { evictions = l })
  pub revoking_all :
      (user_id : String) (now : ℕ) (st : Store) → P st → P (revoke_all_for_user user_id now st)

-- A property of the store that a search for a new state may have found.
abbrev pub IfSome : (Store → Type 0) → Option Store → Type 0
IfSome P none = Unit
IfSome P (some st) = P st

module _ (P : Store → Type 0) (closed : IsClosed P) where
  deny_each-closed : (ss : List Session) (until : ℕ) (st : Store) → P st → P (deny_each ss until st)
  unfolding deny_each
  deny_each-closed [] until st h = h
  deny_each-closed (s ∷ ss) until st h =
      deny_each-closed ss until (deny s.id until st) (closed.denying s.id until st h)

  pub logout_everywhere-closed :
      (user_id : String) (now : ℕ) (st : Store) → P st → P (logout_everywhere user_id now st).0
  unfolding logout_everywhere
  logout_everywhere-closed user_id now st h = elim (Bool-cases (is_blank user_id)) [
    | inl blank ↦ rw (blank, logout_everywhere) h
    | inr named ↦
        rw (named, logout_everywhere)
          (closed.revoking_all user_id now _ (
            deny_each-closed (find_active_by_user_id user_id st)
              (now + default_revocation_window_ms) st h))
  ]

  logout_session-closed :
      (o : Option Session) (id : String) (until : Option ℕ) (now : ℕ) (st : Store)
      → P st
      → P (logout_session o id until now st)
  unfolding logout_session
  logout_session-closed none id until now st h = h
  logout_session-closed (some s) id until now st h =
      closed.denying id _ _ (closed.revoking s now st h)

  pub logout-closed :
      (id : String) (until : Option ℕ) (now : ℕ) (st : Store) → P st → P (logout id until now st).0
  unfolding logout
  logout-closed id until now st h = elim (Bool-cases (is_blank id)) [
    | inl blank ↦ rw (blank, logout) h
    | inr named ↦ rw (named, logout) (logout_session-closed _ id until now st h)
  ]

  evict-closed :
      (env : Env) (user_id : String) (now : ℕ) (s : Session) (st : Store)
      → P st
      → P (evict env user_id now s st)
  unfolding evict
  evict-closed env user_id now s st h =
      closed.recording _ _ (closed.denying s.id _ _ (closed.revoking s now st h))

  pub evict_until-closed :
      (fuel : ℕ) (env : Env) (user_id : String) (now : ℕ) (st : Store)
      → P st
      → IfSome P (evict_until_under_limit fuel env user_id now st)
  unfolding evict_until_under_limit
  evict_until-closed zero env user_id now st h = tt
  evict_until-closed (suc fuel) env user_id now st h =
      elim (ltb (length (find_active_by_user_id user_id st)) env.max_concurrent_sessions)
        as (λ b. IfSome P (elim b [
          | true ↦ some st
          | false ↦ elim (find_active_by_user_id user_id st) [
            | [] ↦ none
            | oldest ∷ _ ↦
                evict_until_under_limit fuel env user_id now (evict env user_id now oldest st)
          ]
        ])) [
          | true ↦ h
          | false ↦ by_oldest (find_active_by_user_id user_id st) (λ s.
              evict_until-closed fuel env user_id now (evict env user_id now s st)
                (evict-closed env user_id now s st h))
        ]
    where
      by_oldest :
          (l : List Session)
          → ((s : Session)
              → IfSome P
                  (evict_until_under_limit fuel env user_id now (evict env user_id now s st)))
          → IfSome P (elim l [
            | [] ↦ none
            | oldest ∷ _ ↦
                evict_until_under_limit fuel env user_id now (evict env user_id now oldest st)
          ])
      by_oldest [] _ = tt
      by_oldest (s ∷ _) ih = ih s

-- The three properties that matter are closed.
pub session_revoked-IsClosed : (id : String) → IsClosed (λ st. session_revoked id st ≡ true)
session_revoked-IsClosed id = record {
  denying = λ _ _ _ h. h;
  revoking = λ s now st h.
      session_revoked-save id (Session.revoke now s) st h (λ _. revoke-is_revoked now s);
  recording = λ _ _ h. h;
  revoking_all = λ user_id now st h. session_revoked-revoke_all user_id id now st h;
}

pub token_used-IsClosed : (hash : String) → IsClosed (λ st. token_used hash st ≡ true)
unfolding revoke_all_for_user
token_used-IsClosed hash = record {
  denying = λ _ _ _ h. h;
  revoking = λ _ _ _ h. h;
  recording = λ _ _ h. h;
  revoking_all = λ _ _ _ h. h;
}

pub IsKeyed-IsClosed : IsClosed IsKeyed
unfolding revoke_all_for_user
IsKeyed-IsClosed = record {
  denying = λ _ _ _ h. record { at_key = h.at_key };
  revoking = λ s now st h. save-IsKeyed (Session.revoke now s) st h;
  recording = λ _ _ h. record { at_key = h.at_key };
  revoking_all = λ user_id now st h. record {
    at_key = revoke_each-KeyedDict user_id now (values st.sessions) st.sessions h.at_key;
  };
}

-- The writes of the revocation list leave the sessions.
deny_each-sessions :
    (ss : List Session) (until : ℕ) (st : Store) → (deny_each ss until st).sessions ≡ st.sessions
unfolding deny_each
deny_each-sessions [] until st = refl
deny_each-sessions (s ∷ ss) until st = deny_each-sessions ss until (deny s.id until st)

pub logout_everywhere-revoked :
    (user_id id : String) (now : ℕ) (st : Store) (s : Session)
    → is_blank user_id ≡ false
    → get id st.sessions ≡ some s
    → s.id ≡ id
    → s.user_id ≡ user_id
    → session_revoked id (logout_everywhere user_id now st).0 ≡ true
unfolding logout_everywhere
logout_everywhere-revoked user_id id now st s b l i u =
    rw (b, logout_everywhere)
      (session_revoked-revoke_all_own user_id id now denied s
        (ap (get id) (
            deny_each-sessions (find_active_by_user_id user_id st)
              (now + default_revocation_window_ms) st)
          ∙ l)
        i u)
  where
    denied : Store
    denied = deny_each (find_active_by_user_id user_id st) (now + default_revocation_window_ms) st
