-- ===== src/Sessions/Session.antt =====
-- packages/sessions/domain/entities/session.ts
use verixa.Prelude.{
  ℕ, String, Bool, true, false, not, List, [], ◌∷◌, Option, none, some, leb, if◌then◌else◌,
}
use verixa.Sessions.Policy.{SessionExpiryPolicy, absolute_expiry_from, is_idle_expired}

pub record RefreshTokenReuseDetected : Type 0 where
  pub session_id : String
  pub user_id : String
  pub refresh_token_id : String

pub record Session : Type 0 where
  pub id : String
  pub user_id : String
  pub created_at : ℕ
  pub last_seen_at : ℕ
  pub expires_at : ℕ
  pub ip_address : Option String
  pub user_agent : Option String
  pub revoked_at : Option ℕ
  pub domain_events : List RefreshTokenReuseDetected

unfoldable pub «open» :
    String → String → SessionExpiryPolicy → Option String → Option String → ℕ → Session
«open» id user_id policy ip_address user_agent now = record {
  id = id;
  user_id = user_id;
  created_at = now;
  last_seen_at = now;
  expires_at = absolute_expiry_from policy now;
  ip_address = ip_address;
  user_agent = user_agent;
  revoked_at = none;
  domain_events = [];
}

abbrev pub is_some {ℓ} : {A : Type ℓ} → Option A → Bool
is_some none = false
is_some (some _) = true

abbrev pub is_revoked : Session → Bool
is_revoked s = is_some s.revoked_at

unfoldable pub is_active : Session → SessionExpiryPolicy → ℕ → Bool
is_active s policy now =
    if is_revoked s
    then false
    else if leb s.expires_at now
    then false
    else not (is_idle_expired policy s.last_seen_at now)

abbrev pub touch : ℕ → Session → Session
touch now s = record s { last_seen_at = now }

abbrev pub revoke : ℕ → Session → Session
revoke now s = if is_revoked s then s else record s { revoked_at = some now; domain_events = [] }

abbrev pub revoke_due_to_refresh_token_reuse : String → ℕ → Session → Session
revoke_due_to_refresh_token_reuse refresh_token_id now s = if is_revoked s then s else record s {
  revoked_at = some now;
  domain_events =
      record { session_id = s.id; user_id = s.user_id; refresh_token_id = refresh_token_id } ∷ [];
}
