-- ===== src/Mfa/Backup/Tests.antt =====
-- Backup codes on a concrete method, with a hash that is the decimal text of the code's first letter.
use verixa.Prelude.{
  ℕ, ◌≤◌, Bool, false, List, [], ◌∷◌, none, some, ◌≡◌, refl, ◌==◌, eqb, if◌then◌else◌,
}
use verixa.Prelude.Dict.{get, set}
use verixa.Prelude.Text.{Text, text_eq}
use verixa.Mfa.Method.{MfaMethod, json, backup_codes, active, update_secret}
use verixa.Mfa.Store.{Methods}
use verixa.Mfa.Store.Indexed.{IsIndexed}
use verixa.Mfa.Backup.{Verifier, verify, consume, normalized, find_backup, take_match}
use verixa.Mfa.Backup.SingleUse.{accepted, accepted_le, count, hashes_of}

abbrev head_is : Text → ℕ → Bool
head_is [] n = false
head_is (c ∷ s) n = eqb c n

abbrev hasher : Verifier
hasher hash code = if hash == "A" then head_is code 65 else head_is code 66

abbrev method : MfaMethod
method = record {
  id = "m";
  user_id = "ann";
  type = backup_codes;
  status = active;
  secret = some (json ("A" ∷ "B" ∷ []));
  last_used_at = none;
  created_at = 0;
  updated_at = 0;
  failed_attempts = 0;
  locked_until = none;
  last_used_step = none;
}

abbrev methods : Methods
methods = ("m", method) ∷ []

-- The code "a" twice, with "b" between.
abbrev calls : List (Text × ℕ)
calls = (97 ∷ [], 1) ∷ (98 ∷ [], 2) ∷ (97 ∷ [], 3) ∷ []

once : accepted hasher "ann" (97 ∷ []) calls methods ≡ 1
unfolding accepted consume find_backup normalized take_match update_secret set text_eq
once = refl

indexed : IsIndexed methods
unfolding get
indexed = (refl, refl, tt)

accepted_le_example :
    accepted hasher "ann" (97 ∷ []) calls methods
    ≤ count (verify hasher (97 ∷ [])) (hashes_of "ann" methods)
accepted_le_example = accepted_le hasher "ann" (97 ∷ []) calls methods indexed
