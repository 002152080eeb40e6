-- ===== src/Credentials/ChangePassword/Back.antt =====
-- Changing a password and changing it back.
use verixa.Prelude.{
  ℕ, suc, zero, ◌≤◌, String, Bool, true, false, not, List, ◌∷◌, Option, none, some, ltb, eq_iff,
  if◌then◌else◌, take, ◌≡◌, refl, sym, ap, ◌∙◌, arith, Bool-cases, inl, inr,
}
use mathlib.Core.Path.{subst}
use verixa.Prelude.Dict.{Dict, get, get-set}
use verixa.Kernel.Result.{Result, ok, err}
use verixa.Credentials.Authentication.{User}
use verixa.Credentials.Credential.{Credential, is_password_reused, matches_any, rotate_password}
use verixa.Credentials.ChangePassword
use verixa.Credentials.ChangePassword.{
  Environment, ChangeError, check_credential, check_user, check_change, Changed, rotate_found,
  write_change, change_password,
}

-- Every credential stands under its user's id.
abbrev pub IsKeyed : Dict Credential → Type 0
IsKeyed credentials = (id : String) (c : Credential) → get id credentials ≡ some c → c.user_id ≡ id

abbrev pub is_ok : Result User ChangeError → Bool
is_ok (ok user) = true
is_ok (err e) = false

module _ (verify : String → String → Bool) (password : String) where
  take-matches :
      (depth : ℕ) (hash : String) (hashes : List String)
      → 1 ≤ depth
      → verify password hash ≡ true
      → matches_any verify password (take depth (hash ∷ hashes)) ≡ true
  unfolding matches_any
  take-matches zero hash hashes d v = absurd (omega (arith, d))
  take-matches (suc depth) hash hashes d v = rw v refl

-- What a change that succeeds has found and left.
abbrev Rotated : Environment → String → String → String → Dict Credential → Changed → Type 0
Rotated env user_id current fresh credentials done =
    (user : User) × (c : Credential) × (env.find_by_id user_id ≡ some user)
    × (env.verify current c.password_hash ≡ true)
    × (is_password_reused env.verify fresh c ≡ false)
    × (get user.id done.credentials
        ≡ some (rotate_password (env.hash fresh) env.history_policy env.now c))

module _ (env : Environment) (user_id current fresh : String) (credentials : Dict Credential) where
  check_credential_ok :
      (user found : User) (c : Credential)
      → check_credential env current fresh user (some c) ≡ ok found
      → (user ≡ found)
        × (env.verify current c.password_hash ≡ true)
        × (is_password_reused env.verify fresh c ≡ false)
  check_credential_ok user found c e = ground arith

  write-Rotated :
      (user : User) (c : Credential)
      → IsKeyed credentials
      → env.find_by_id user_id ≡ some user
      → get user.id credentials ≡ some c
      → env.verify current c.password_hash ≡ true
      → is_password_reused env.verify fresh c ≡ false
      → Rotated env user_id current fresh credentials
          (rotate_found env fresh user credentials (some c))
  write-Rotated user c k f g v r = (
    user,
    c,
    f,
    v,
    r,
    get-set c.user_id user.id (rotate_password (env.hash fresh) env.history_policy env.now c)
          credentials
        ∙ ap
            (λ b.
              if b
              then some (rotate_password (env.hash fresh) env.history_policy env.now c)
              else get user.id credentials)
            ((eq_iff c.user_id user.id).1 (k user.id c g)),
  )

  held-Rotated :
      (user : User) (held : Option Credential)
      → IsKeyed credentials
      → env.find_by_id user_id ≡ some user
      → get user.id credentials ≡ held
      → (answer : Result User ChangeError) → check_credential env current fresh user held ≡ answer
      → is_ok (write_change env fresh credentials answer).answer ≡ true
      → Rotated env user_id current fresh credentials (write_change env fresh credentials answer)
  held-Rotated user held k f g (err x) e h = absurd (ground arith)
  held-Rotated user none k f g (ok found) e h = absurd (ground arith)
  held-Rotated user (some c) k f g (ok found) e h =
      let r = check_credential_ok user found c e in
      subst
        (λ u.
          Rotated env user_id current fresh credentials (write_change env fresh credentials (ok u)))
        r.0
        (subst
          (λ o.
            Rotated env user_id current fresh credentials
              (rotate_found env fresh user credentials o))
          (sym g) (write-Rotated user c k f g r.1 r.2))

  user-Rotated :
      (found : Option User)
      → IsKeyed credentials
      → env.find_by_id user_id ≡ found
      → is_ok
          (write_change env fresh credentials
            (check_user env current fresh credentials found)).answer
        ≡ true
      → Rotated env user_id current fresh credentials
          (write_change env fresh credentials (check_user env current fresh credentials found))
  user-Rotated none k f h = absurd (ground arith)
  user-Rotated (some user) k f h =
      held-Rotated user (get user.id credentials) k f refl
        (check_credential env current fresh user (get user.id credentials)) refl h

  change-Rotated :
      IsKeyed credentials
      → is_ok (change_password env user_id current fresh credentials).answer ≡ true
      → Rotated env user_id current fresh credentials
          (change_password env user_id current fresh credentials)
  unfolding change_password check_change
  change-Rotated k h = elim (Bool-cases (ltb (env.length fresh) env.min_length)) [
    | inl short ↦ absurd (ground (arith, h, short))
    | inr enough ↦ elim (Bool-cases (ltb env.max_length (env.length fresh))) [
      | inl long ↦ absurd (ground (arith, h, enough, long))
      | inr fits ↦ rw enough (
          rw fits (
            user-Rotated (env.find_by_id user_id) k refl (
              subst (λ b. is_ok (write_change env fresh credentials b).answer ≡ true)
                (ground (arith, enough, fits)) h)))
    ]
  ]

rotated_reused :
    (env : Environment) (current fresh : String) (c : Credential)
    → 1 ≤ env.history_policy.depth
    → env.verify current c.password_hash ≡ true
    → is_password_reused env.verify current
        (rotate_password (env.hash fresh) env.history_policy env.now c)
      ≡ true
unfolding is_password_reused rotate_password
rotated_reused env current fresh c d v = elim (Bool-cases (env.verify current (env.hash fresh))) [
  | inl same ↦ rw same refl
  | inr other ↦ rw other (
      take-matches env.verify current env.history_policy.depth c.password_hash c.password_history d
        v)
]

reused_refused :
    (env : Environment) (guess fresh : String) (user_id : String) (user : User) (c : Credential)
    (credentials : Dict Credential)
    → env.find_by_id user_id ≡ some user
    → get user.id credentials ≡ some c
    → is_password_reused env.verify fresh c ≡ true
    → is_ok (change_password env user_id guess fresh credentials).answer ≡ false
unfolding change_password check_change
reused_refused env guess fresh user_id user c credentials f g r = rw f (
    rw g (
      rw r (
        by_tests (ltb (env.length fresh) env.min_length) (ltb env.max_length (env.length fresh))
          (env.verify guess c.password_hash))))
  where
    by_tests :
        (short long known : Bool)
        → is_ok
            (write_change env fresh credentials (
              if short
              then err ChangePassword.password_too_short
              else if long
              then err ChangePassword.password_too_long
              else if not known
              then err ChangePassword.wrong_current_password
              else if true
              then err ChangePassword.password_reused
              else ok user)).answer
          ≡ false
    by_tests true long known = refl
    by_tests false true known = refl
    by_tests false false true = refl
    by_tests false false false = refl

-- Where every credential stands under its user's id and the history holds at least one password,
-- a change of password that succeeds is not undone: changing it next to the password that was
-- current before fails, whatever current password is given and at whatever time.
pub change_back_refused :
    (env : Environment) (user_id current fresh : String) (credentials : Dict Credential)
    → IsKeyed credentials
    → 1 ≤ env.history_policy.depth
    → is_ok (change_password env user_id current fresh credentials).answer ≡ true
    → (later : ℕ) (guess : String)
    → is_ok
        (change_password
          (record env { now = later })
          user_id
          guess
          current
          (change_password env user_id current fresh credentials).credentials).answer
      ≡ false
change_back_refused env user_id current fresh credentials k d h later guess =
    let r = change-Rotated env user_id current fresh credentials k h in
    reused_refused (record env { now = later }) guess current user_id r.0
      (rotate_password (env.hash fresh) env.history_policy env.now r.1) _ r.2 r.5
      (rotated_reused env current fresh r.1 d r.3)
