-- ===== src/Sessions/RefreshToken.antt =====
-- packages/sessions/domain/entities/refresh-token.ts. The random bytes and the SHA-256 digest of
-- `node:crypto` are arguments.
use verixa.Prelude.{ℕ, String, Bool, not, ◌&&◌, Option, none, some, leb, if◌then◌else◌}
use verixa.Sessions.Session.{is_some}

pub record RefreshToken : Type 0 where
  pub id : String
  pub session_id : String
  pub token_hash : String
  pub created_at : ℕ
  pub expires_at : ℕ
  pub used_at : Option ℕ
  pub revoked_at : Option ℕ

-- `issue`: the entity of a raw token with the digest given.
unfoldable pub issue : String → String → String → ℕ → ℕ → RefreshToken
issue id session_id token_hash expires_at now = record {
  id = id;
  session_id = session_id;
  token_hash = token_hash;
  created_at = now;
  expires_at = expires_at;
  used_at = none;
  revoked_at = none;
}

abbrev pub is_expired : RefreshToken → ℕ → Bool
is_expired t now = leb t.expires_at now

abbrev pub is_used : RefreshToken → Bool
is_used t = is_some t.used_at

abbrev pub is_revoked : RefreshToken → Bool
is_revoked t = is_some t.revoked_at

abbrev pub is_redeemable : RefreshToken → ℕ → Bool
is_redeemable t now = not (is_used t) && (not (is_revoked t) && not (is_expired t now))

abbrev pub mark_used : ℕ → RefreshToken → RefreshToken
mark_used now t = record t { used_at = some now }

abbrev pub revoke : ℕ → RefreshToken → RefreshToken
revoke now t = if is_revoked t then t else record t { revoked_at = some now }
