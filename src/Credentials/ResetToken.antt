-- ===== src/Credentials/ResetToken.antt =====
-- packages/credentials/domain/entities/password-reset-token.ts, tokenMatchesDigest of
-- value-objects/token-digest.ts, and
-- infrastructure/testing/in-memory-verification-token-repositories.ts. SHA-256, Buffer.from of
-- hexadecimal text, random tokens, new ids and the clock are arguments.
use verixa.Prelude.{
  ℕ, ◌+◌, String, Bool, true, false, not, ◌&&◌, List, [], ◌∷◌, Option, none, some, leb,
  if◌then◌else◌, ◌==◌,
}
use verixa.Prelude.Dict.{Dict, set}
use verixa.Prelude.Text.{Text, text_eq}
use verixa.Kernel.Result.{Result, ok, err}

pub record PasswordResetToken : Type 0 where
  pub id : String
  pub user_id : String
  pub token_hash : String
  pub expires_at : ℕ
  pub consumed_at : Option ℕ
  pub created_at : ℕ

pub data TokenError : Type 0 where
  already_used expired : TokenError

-- `DEFAULT_TTL_MS`
abbrev pub default_ttl_ms : ℕ
default_ttl_ms = 3600000

-- SHA-256 in hexadecimal, and the bytes of a hexadecimal text.
pub record Digests : Type 0 where
  pub hash_token : String → String
  pub from_hex : String → Text

abbrev pub ttl_or_default : Option ℕ → ℕ
ttl_or_default none = default_ttl_ms
ttl_or_default (some ttl_ms) = ttl_ms

-- `PasswordResetToken.issue`, for a new id and a new raw token.
abbrev pub issue : Digests → String → String → String → Option ℕ → ℕ → PasswordResetToken
issue digests id raw_token user_id ttl_ms now = record {
  id = id;
  user_id = user_id;
  token_hash = digests.hash_token raw_token;
  expires_at = now + ttl_or_default ttl_ms;
  consumed_at = none;
  created_at = now;
}

-- `tokenMatchesDigest`
abbrev pub matches_token : Digests → String → PasswordResetToken → Bool
matches_token digests candidate t =
    text_eq (digests.from_hex (digests.hash_token candidate)) (digests.from_hex t.token_hash)

abbrev pub is_some {ℓ} : {A : Type ℓ} → Option A → Bool
is_some none = false
is_some (some _) = true

abbrev pub is_consumed : PasswordResetToken → Bool
is_consumed t = is_some t.consumed_at

abbrev pub is_expired_at : PasswordResetToken → ℕ → Bool
is_expired_at t now = leb t.expires_at now

abbrev pub is_usable_at : PasswordResetToken → ℕ → Bool
is_usable_at t now = not (is_consumed t) && not (is_expired_at t now)

abbrev pub invalidate : ℕ → PasswordResetToken → PasswordResetToken
invalidate now t = if is_consumed t then t else record t { consumed_at = some now }

unfoldable pub consume : ℕ → PasswordResetToken → Result PasswordResetToken TokenError
consume now t =
    if is_consumed t
    then err already_used
    else if is_expired_at t now
    then err expired
    else ok (record t { consumed_at = some now })

-- `InMemoryTokenStore.findByTokenHash`, over the tokens in the order of insertion.
unfoldable pub find_by_token_hash : String → List PasswordResetToken → Option PasswordResetToken
find_by_token_hash hash [] = none
find_by_token_hash hash (t ∷ ts) =
    if t.token_hash == hash then some t else find_by_token_hash hash ts

abbrev pub save_token : PasswordResetToken → Dict PasswordResetToken → Dict PasswordResetToken
save_token t tokens = set t.id t tokens

abbrev pub retired : String → ℕ → PasswordResetToken → PasswordResetToken
retired user_id now t =
    if (t.user_id == user_id) && not (is_consumed t) then invalidate now t else t

-- `invalidateOutstandingForUser`
unfoldable pub invalidate_outstanding_for_user :
    String → ℕ → Dict PasswordResetToken → Dict PasswordResetToken
invalidate_outstanding_for_user user_id now [] = []
invalidate_outstanding_for_user user_id now ((id, t) ∷ tokens) =
    (id, retired user_id now t) ∷ invalidate_outstanding_for_user user_id now tokens
