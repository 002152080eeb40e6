-- ===== src/Credentials/Reset/Tests.antt =====
-- A reset link that is used twice.
use verixa.Prelude.{
  ◌≤◌, true, List, [], ◌∷◌, none, some, ◌==◌, eq_iff, ◌≡◌, refl, sym, ap, ◌∙◌, arith, if◌then◌else◌,
  Bool-cases, inl, inr, ◌⊎◌,
}
use verixa.Prelude.Dict.{get, set}
use verixa.Kernel.Result.{err}
use verixa.Kernel.BruteForce.{default_brute_force_thresholds}
use verixa.Credentials.Authentication.{User, active}
use verixa.Credentials.Credential.{Credential, rotate_password, is_password_reused, matches_any}
use verixa.Prelude.Text.{text_eq}
use verixa.Credentials.Reset.{
  ConfirmEnvironment, ResetState, Operation, confirming, confirm_reset, password_reused,
}
use verixa.Credentials.ResetToken.{Digests, issue, find_by_token_hash, consume}
use verixa.Credentials.Reset.SingleUse.{replacements, replacements_le}
use verixa.Credentials.Reset.Outstanding.{outstanding}
use verixa.Credentials.Reset.Confirmation.{IsKeyed, Untouched, Replaced, confirm_reset-credentials}

abbrev digests : Digests
digests = record { hash_token = λ s. s; from_hex = λ s. [] }

abbrev ann : User
ann = record { id = "ann"; email = "ann@x"; status = active }

abbrev environment : ConfirmEnvironment
environment = record {
  limiter = record { allowed = true; reset_at = 0 };
  min_length = 12;
  max_length = 256;
  length = λ s. 20;
  gate =
      some
        (record { thresholds = default_brute_force_thresholds; normalise = λ s. s; limit = none });
  hash = λ s. s;
  verify = λ password hash. password == hash;
  find_by_id = λ s. if s == "ann" then some ann else none;
  history_policy = record { depth = 5 };
  revokes = λ s. true;
  now = 10;
  credential_id = "c2";
}

abbrev ungated : ConfirmEnvironment
ungated = record environment { gate = none }

abbrev credential : Credential
credential = record {
  id = "c";
  user_id = "ann";
  password_hash = "secret";
  failed_attempts = 4;
  locked_until = some 900;
  password_history = [];
  created_at = 0;
  updated_at = 0;
}

abbrev state : ResetState
state = record {
  credentials = ("ann", credential) ∷ [];
  tokens = ("t", issue digests "t" "raw" "ann" none 0) ∷ [];
  attempts = [];
  revoked = [];
  limits_reset = [];
}

abbrev calls : List Operation
calls = confirming ungated "raw" "fresh" ∷ confirming ungated "raw" "another" ∷ []

used_once : replacements digests "raw" calls state ≡ 1
unfolding replacements confirm_reset find_by_token_hash consume get set rotate_password
    is_password_reused matches_any text_eq
used_once = refl

-- A password of the history is refused, and the link is used up all the same.
reused_burns_link :
    ((confirm_reset digests ungated "raw" "secret" state).answer ≡ err password_reused)
    × (outstanding "raw" (confirm_reset digests ungated "raw" "secret" state).state.tokens ≡ 0)
unfolding confirm_reset outstanding find_by_token_hash consume get set is_password_reused
    matches_any text_eq
reused_burns_link = (refl, refl)

state-IsKeyed : IsKeyed state.credentials
unfolding get
state-IsKeyed id c e = elim (Bool-cases ("ann" == id)) [
  | inl same ↦
      let found : credential ≡ c = ground (arith, same) in
      ap (λ y. y.user_id) (sym found) ∙ (eq_iff "ann" id).0 same
  | inr other ↦ absurd (ground (arith, other))
]

replacements_le_example : replacements digests "raw" calls state ≤ outstanding "raw" state.tokens
unfolding get
replacements_le_example = replacements_le digests "raw" calls state (refl, refl, tt) (tt, (tt, tt))

confirm_reset-credentials_example :
    Untouched digests environment "raw" "fresh" state
      (confirm_reset digests environment "raw" "fresh" state)
    ⊎ Replaced digests environment "raw" "fresh" state
        (confirm_reset digests environment "raw" "fresh" state)
confirm_reset-credentials_example =
    confirm_reset-credentials digests environment "raw" "fresh" state state-IsKeyed
