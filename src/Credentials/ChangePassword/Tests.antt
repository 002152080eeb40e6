-- ===== src/Credentials/ChangePassword/Tests.antt =====
-- A change of password, and the attempt to change it back.
use verixa.Prelude.{
  true, false, [], ◌∷◌, none, some, ◌==◌, eq_iff, ◌≡◌, refl, sym, ap, ◌∙◌, arith, if◌then◌else◌,
  Bool-cases, inl, inr,
}
use verixa.Prelude.Dict.{Dict, get}
use verixa.Credentials.Authentication.{User, active}
use verixa.Credentials.Credential.{Credential, is_password_reused, matches_any}
use verixa.Credentials.ChangePassword.{Environment, check_change, change_password}
use verixa.Credentials.ChangePassword.Back.{IsKeyed, is_ok, change_back_refused}

abbrev ann : User
ann = record { id = "ann"; email = "ann@x"; status = active }

abbrev environment : Environment
environment = record {
  min_length = 12;
  max_length = 256;
  length = λ s. 20;
  hash = λ s. s;
  verify = λ password hash. password == hash;
  find_by_id = λ s. if s == "ann" then some ann else none;
  history_policy = record { depth = 5 };
  now = 10;
}

abbrev credential : Credential
credential = record {
  id = "c";
  user_id = "ann";
  password_hash = "secret";
  failed_attempts = 0;
  locked_until = none;
  password_history = [];
  created_at = 0;
  updated_at = 0;
}

abbrev credentials : Dict Credential
credentials = ("ann", credential) ∷ []

credentials-IsKeyed : IsKeyed credentials
unfolding get
credentials-IsKeyed id c e = elim (Bool-cases ("ann" == id)) [
  | inl same ↦
      let found : credential ≡ c = ground (arith, same) in
      ap (λ y. y.user_id) (sym found) ∙ (eq_iff "ann" id).0 same
  | inr other ↦ absurd (ground (arith, other))
]

changes : is_ok (change_password environment "ann" "secret" "fresh" credentials).answer ≡ true
unfolding change_password check_change get is_password_reused matches_any
changes = refl

change_back_refused_example :
    is_ok
      (change_password
        (record environment { now = 20 })
        "ann"
        "fresh"
        "secret"
        (change_password environment "ann" "secret" "fresh" credentials).credentials).answer
    ≡ false
change_back_refused_example =
    change_back_refused environment "ann" "secret" "fresh" credentials credentials-IsKeyed
      (omega arith) changes 20 "fresh"
