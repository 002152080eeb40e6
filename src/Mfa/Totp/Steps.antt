-- ===== src/Mfa/Totp/Steps.antt =====
-- What a single call does to the last steps of the methods.
use verixa.Prelude.{
  ℕ, String, Bool, true, false, not, [], ◌∷◌, Option, none, some, ◌==◌, eq_iff, if◌then◌else◌, ◌≡◌,
  refl, sym, ap, ◌∙◌, arith, ◌<◌, Bool-cases, inl, inr,
}
use mathlib.Core.Path.{subst}
use verixa.Prelude.Dict.{get, set, get-set}
use verixa.Kernel.Result.{Result, ok, err}
use verixa.Mfa.Method.{
  MfaMethod, Secret, is_active, is_pending, activate, is_locked_at, record_failed_attempt,
  record_totp_use, record_use, is_replay,
}
use verixa.Mfa.Store.{Methods, save, find_by_id}
use verixa.Mfa.Totp.{
  Algorithm, TotpError, is_six, usable, accept, match_step, with_secret, challenge_found,
  verify_challenge, confirm_with, confirm_secret, confirm_found, confirm_enrollment,
}

-- Above a step, if there is one.
abbrev pub Above : Option ℕ → ℕ → Type 0
Above none n = Unit
Above (some last) n = last < n

abbrev pub step_in : Option MfaMethod → Option ℕ
step_in none = none
step_in (some m) = m.last_used_step

-- The last step that a method has accepted.
abbrev pub last_step : String → Methods → Option ℕ
last_step id st = step_in (find_by_id id st)

-- Every method stands under its id.
abbrev pub IsKeyed : Methods → Type 0
IsKeyed [] = Unit
IsKeyed ((key, m) ∷ st) = (key ≡ m.id) × IsKeyed st

get-IsKeyed :
    (id : String) (st : Methods) (m : MfaMethod) → IsKeyed st → get id st ≡ some m → id ≡ m.id
unfolding get
get-IsKeyed id [] m k e = absurd (ground arith)
get-IsKeyed id ((key, x) ∷ st) m k e = elim (Bool-cases (key == id)) [
  | inl same ↦
      let found : x ≡ m = ground (arith, same) in
      sym ((eq_iff key id).0 same) ∙ k.0 ∙ ap (λ y. y.id) found
  | inr other ↦ get-IsKeyed id st m k.1 (ground (arith, other))
]

set-IsKeyed : (m : MfaMethod) (st : Methods) → IsKeyed st → IsKeyed (set m.id m st)
unfolding set
set-IsKeyed m [] k = (refl, tt)
set-IsKeyed m ((key, x) ∷ st) k = elim (Bool-cases (key == m.id)) [
  | inl same ↦ rw same (refl, k.1)
  | inr other ↦ rw other (k.0, set-IsKeyed m st k.1)
]

step_in-if :
    (b : Bool) (m : MfaMethod) (o : Option MfaMethod)
    → step_in (if b then some m else o) ≡ (if b then m.last_used_step else step_in o)
step_in-if true m o = refl
step_in-if false m o = refl

last_step-save :
    (id : String) (m : MfaMethod) (st : Methods)
    → last_step id (save m st) ≡ (if m.id == id then m.last_used_step else last_step id st)
last_step-save id m st = ap step_in (get-set m.id id m st) ∙ step_in-if (m.id == id) m (get id st)

-- A call that leaves every last step as it was.
abbrev Keeps : Methods → Methods → Type 0
Keeps st st2 = IsKeyed st2 × ((id : String) → last_step id st2 ≡ last_step id st)

-- Saving a method that has changed in other fields keeps the steps.
save-Keeps :
    (id : String) (m n : MfaMethod) (st : Methods)
    → IsKeyed st
    → find_by_id id st ≡ some m
    → n.id ≡ m.id
    → n.last_used_step ≡ m.last_used_step
    → Keeps st (save n st)
save-Keeps id m n st k e i l = (set-IsKeyed n st k, λ j. last_step-save j n st ∙ kept j)
  where
    kept : (j : String) → (if n.id == j then n.last_used_step else last_step j st) ≡ last_step j st
    kept j = elim (Bool-cases (n.id == j)) [
      | inl same ↦ rw same (
          l
          ∙ sym (
              ap step_in (
                subst (λ x. find_by_id x st ≡ some m)
                  (get-IsKeyed id st m k e ∙ sym i ∙ (eq_iff n.id j).0 same) e)))
      | inr other ↦ rw other refl
    ]

-- A challenge of a method: what it accepts lies above the last step, and becomes it.
abbrev pub Challenged : String → Methods → Methods → Result ℕ TotpError → Type 0
Challenged id st st2 (err e) = Keeps st st2
Challenged id st st2 (ok step) =
    IsKeyed st2
    × Above (last_step id st) step
    × ((j : String) → last_step j st2 ≡ (if id == j then some step else last_step j st))

record_totp_use-step :
    (step now : ℕ) (m n : MfaMethod)
    → record_totp_use step now m ≡ some n
    → (n.id ≡ m.id) × (n.last_used_step ≡ some step) × (is_replay step m.last_used_step ≡ false)
unfolding record_totp_use record_use
record_totp_use-step step now m n e = ground arith

Above-replay : (last : Option ℕ) (step : ℕ) → is_replay step last ≡ false → Above last step
Above-replay none step h = tt
Above-replay (some n) step h = ground arith

failed-Keeps :
    (id : String) (now : ℕ) (m : MfaMethod) (st : Methods)
    → IsKeyed st
    → find_by_id id st ≡ some m
    → Keeps st (save (record_failed_attempt now m) st)
unfolding record_failed_attempt
failed-Keeps id now m st k e = save-Keeps id m (record_failed_attempt now m) st k e refl refl

same-Keeps : (st : Methods) → IsKeyed st → Keeps st st
same-Keeps st k = (k, λ j. refl)

module _ (id : String) (now : ℕ) (m : MfaMethod) (st : Methods) (k : IsKeyed st)
    (e : find_by_id id st ≡ some m) where
  accept-Challenged :
      (step : ℕ) (recorded : Option MfaMethod)
      → record_totp_use step now m ≡ recorded
      → Challenged id st
          (accept step now m st recorded).methods
          (accept step now m st recorded).answer
  accept-Challenged step none r = failed-Keeps id now m st k e
  accept-Challenged step (some n) r =
      let f = record_totp_use-step step now m n r in
      (
        set-IsKeyed n st k,
        subst (λ o. Above o step) (sym (ap step_in e)) (Above-replay m.last_used_step step f.2),
        λ j.
            last_step-save j n st
            ∙ ap (λ x. if x == j then n.last_used_step else last_step j st)
                (f.0 ∙ sym (get-IsKeyed id st m k e))
            ∙ ap (λ o. if id == j then o else last_step j st) f.1,
      )

  match_step-Challenged :
      (found : Option ℕ)
      → Challenged id st (match_step now m st found).methods (match_step now m st found).answer
  match_step-Challenged none = failed-Keeps id now m st k e
  match_step-Challenged (some step) = accept-Challenged step (record_totp_use step now m) refl

  with_secret-Challenged :
      (verify : Algorithm) (code : String) (secret : Option Secret)
      → Challenged id st
          (with_secret verify code now m st secret).methods
          (with_secret verify code now m st secret).answer
  with_secret-Challenged verify code none = same-Keeps st k
  with_secret-Challenged verify code (some secret) = match_step-Challenged (verify secret code now)

  confirm_with-Keeps :
      (found : Option ℕ) (activated : Option MfaMethod)
      → activate now m ≡ activated
      → Keeps st (confirm_with now m st found activated).methods
  unfolding activate
  confirm_with-Keeps none activated a = failed-Keeps id now m st k e
  confirm_with-Keeps (some step) none a = same-Keeps st k
  confirm_with-Keeps (some step) (some n) a = save-Keeps id m n st k e (ground arith) (ground arith)

  confirm_secret-Keeps :
      (verify : Algorithm) (code : String) (secret : Option Secret)
      → Keeps st (confirm_secret verify code now m st secret).methods
  confirm_secret-Keeps verify code none = same-Keeps st k
  confirm_secret-Keeps verify code (some secret) =
      confirm_with-Keeps (verify secret code now) (activate now m) refl

module _ (verify : Algorithm) (id code : String) (now : ℕ) (st : Methods) (k : IsKeyed st) where
  challenge_found-Challenged :
      (found : Option MfaMethod)
      → find_by_id id st ≡ found
      → Challenged id st
          (challenge_found verify code now st found).methods
          (challenge_found verify code now st found).answer
  challenge_found-Challenged none e = same-Keeps st k
  challenge_found-Challenged (some m) e = elim (Bool-cases (not (is_active m.status))) [
    | inl inactive ↦ rw inactive (same-Keeps st k)
    | inr usable_now ↦ rw usable_now (elim (Bool-cases (is_locked_at now m)) [
      | inl locked ↦ rw locked (same-Keeps st k)
      | inr free ↦ rw free (with_secret-Challenged id now m st k e verify code (usable m.secret))
    ])
  ]

  confirm_found-Keeps :
      (found : Option MfaMethod)
      → find_by_id id st ≡ found
      → Keeps st (confirm_found verify code now st found).methods
  confirm_found-Keeps none e = same-Keeps st k
  confirm_found-Keeps (some m) e = elim (Bool-cases (not (is_pending m.status))) [
    | inl other ↦ rw other (same-Keeps st k)
    | inr waiting ↦ rw waiting (elim (Bool-cases (is_locked_at now m)) [
      | inl locked ↦ rw locked (same-Keeps st k)
      | inr free ↦ rw free (confirm_secret-Keeps id now m st k e verify code (usable m.secret))
    ])
  ]

  pub verify_challenge-Challenged :
      Challenged id st
        (verify_challenge verify id code now st).methods
        (verify_challenge verify id code now st).answer
  unfolding verify_challenge
  verify_challenge-Challenged = elim (Bool-cases (is_six code)) [
    | inl six ↦ rw six (challenge_found-Challenged (find_by_id id st) refl)
    | inr other ↦ rw other (same-Keeps st k)
  ]

  pub confirm_enrollment-Keeps : Keeps st (confirm_enrollment verify id code now st).methods
  unfolding confirm_enrollment
  confirm_enrollment-Keeps = elim (Bool-cases (is_six code)) [
    | inl six ↦ rw six (confirm_found-Keeps (find_by_id id st) refl)
    | inr other ↦ rw other (same-Keeps st k)
  ]
