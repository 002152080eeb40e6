-- ===== src/Credentials/Reset/Confirmation.antt =====
-- What confirming a reset does to the credentials.
use verixa.Prelude.{
  String, Bool, true, false, not, Option, none, some, eq_iff, if◌then◌else◌, ◌≡◌, refl, sym, ap,
  ◌∙◌, arith, Bool-cases, inl, inr, ◌⊎◌,
}
use mathlib.Core.Path.{subst}
use verixa.Prelude.Dict.{Dict, get, set, values, get-set}
use verixa.Kernel.Result.{Result, ok, err}
use verixa.Credentials.Authentication.{User, Gate}
use verixa.Credentials.Credential.{Credential, create, is_password_reused, rotate_password}
use verixa.Credentials.Reset.{
  ResetState, ResetError, ConfirmEnvironment, Confirmed, Outcome, invalid, reused, replaced,
  replace_credential, redeem_for, redeem, redeem_found, ask_gate, settle, password_fault,
  confirm_gated, confirm_checked, confirm_reset,
}
use verixa.Credentials.ResetToken.{
  PasswordResetToken, TokenError, Digests, matches_token, is_consumed, is_expired_at, is_usable_at,
  consume, find_by_token_hash,
}
use verixa.Credentials.Reset.Outstanding.{has_replaced, is_replaced}

-- Every credential stands under its user's id.
abbrev pub IsKeyed : Dict Credential → Type 0
IsKeyed credentials = (id : String) (c : Credential) → get id credentials ≡ some c → c.user_id ≡ id

-- The user has a credential with this hash, and it is not locked.
abbrev pub HasFresh : String → String → Dict Credential → Type 0
HasFresh user_id hash credentials =
    (c : Credential) × (get user_id credentials ≡ some c)
    × (c.password_hash ≡ hash)
    × (c.failed_attempts ≡ 0)
    × (c.locked_until ≡ none)

-- A stored token of this hash is usable, and belongs to the user.
abbrev pub Redeems : Digests → ConfirmEnvironment → String → ResetState → User → Type 0
Redeems digests env token st user =
    (t : PasswordResetToken) × (find_by_token_hash (digests.hash_token token) (values st.tokens)
      ≡ some t)
    × (is_usable_at t env.now ≡ true)
    × (env.find_by_id t.user_id ≡ some user)

saved-HasFresh :
    (user_id : String) (c : Credential) (credentials : Dict Credential)
    → c.user_id ≡ user_id
    → c.failed_attempts ≡ 0
    → c.locked_until ≡ none
    → HasFresh user_id c.password_hash (set c.user_id c credentials)
saved-HasFresh user_id c credentials e f l = (
  c,
  get-set c.user_id user_id c credentials
      ∙ ap (λ b. if b then some c else get user_id credentials) ((eq_iff c.user_id user_id).1 e),
  refl,
  f,
  l,
)

module _ (digests : Digests) (env : ConfirmEnvironment) (token password : String) where
  -- Either the credentials are as before, or a usable token's user has a new one.
  abbrev Changed : ResetState → Dict Credential → Bool → Type 0
  Changed st credentials false = credentials ≡ st.credentials
  Changed st credentials true =
      (user : User) × Redeems digests env token st user
      × HasFresh user.id (env.hash password) credentials

  replace_credential-Changed :
      (st st2 : ResetState) (user : User) (held : Option Credential)
      → st2.credentials ≡ st.credentials
      → get user.id st.credentials ≡ held
      → IsKeyed st.credentials
      → Redeems digests env token st user
      → Changed st
          (replace_credential env password user st2 held).state.credentials
          (is_replaced (replace_credential env password user st2 held).outcome)
  unfolding create rotate_password
  replace_credential-Changed st st2 user none same h k r = (
    user,
    r,
    saved-HasFresh user.id (create env.credential_id user.id (env.hash password) env.now)
        st2.credentials refl refl refl,
  )
  replace_credential-Changed st st2 user (some c) same h k r =
      elim (Bool-cases (is_password_reused env.verify password c)) [
        | inl again ↦ rw again same
        | inr fresh ↦ rw fresh (
          user,
          r,
          saved-HasFresh user.id (rotate_password (env.hash password) env.history_policy env.now c)
              st2.credentials (k user.id c h) refl refl,
        )
      ]

  consume_usable :
      (t c : PasswordResetToken)
      → consume env.now t ≡ ok c
      → (is_usable_at t env.now ≡ true) × (c.user_id ≡ t.user_id)
  unfolding consume
  consume_usable t c e = elim (Bool-cases (is_consumed t)) [
    | inl used ↦ absurd (ground (arith, used))
    | inr fresh ↦ elim (Bool-cases (is_expired_at t env.now)) [
      | inl old ↦ absurd (ground (arith, fresh, old))
      | inr usable ↦
          let made : record t { consumed_at = some env.now } ≡ c = ground (arith, fresh, usable) in
          (ground (arith, fresh, usable), ap (λ y. y.user_id) (sym made))
    ]
  ]

  redeem_for-Changed :
      (st : ResetState) (t c : PasswordResetToken)
      → IsKeyed st.credentials
      → find_by_token_hash (digests.hash_token token) (values st.tokens) ≡ some t
      → consume env.now t ≡ ok c
      → (user : Option User) → env.find_by_id c.user_id ≡ user
      → Changed st
          (redeem_for env password c st user).state.credentials
          (is_replaced (redeem_for env password c st user).outcome)
  redeem_for-Changed st t c k f e none u = refl
  redeem_for-Changed st t c k f e (some user) u =
      let r = consume_usable t c e in
      replace_credential-Changed st _ user (get user.id st.credentials) refl refl k
        (t, f, r.0, ap env.find_by_id (sym r.1) ∙ u)

  redeem-Changed :
      (st : ResetState) (t : PasswordResetToken)
      → IsKeyed st.credentials
      → find_by_token_hash (digests.hash_token token) (values st.tokens) ≡ some t
      → (r : Result PasswordResetToken TokenError) → consume env.now t ≡ r
      → Changed st
          (redeem env password st r).state.credentials
          (is_replaced (redeem env password st r).outcome)
  redeem-Changed st t k f (err x) e = refl
  redeem-Changed st t k f (ok c) e = redeem_for-Changed st t c k f e (env.find_by_id c.user_id) refl

  redeem_found-Changed :
      (st : ResetState)
      → IsKeyed st.credentials
      → (found : Option PasswordResetToken)
      → find_by_token_hash (digests.hash_token token) (values st.tokens) ≡ found
      → Changed st
          (redeem_found digests env token password st found).state.credentials
          (is_replaced (redeem_found digests env token password st found).outcome)
  redeem_found-Changed st k none f = refl
  redeem_found-Changed st k (some t) f = elim (Bool-cases (not (matches_token digests token t))) [
    | inl other ↦ rw other refl
    | inr fits ↦ rw fits (redeem-Changed st t k f (consume env.now t) refl)
  ]

  settle-credentials :
      (st : ResetState) (o : Outcome) (hash : String)
      → ((settle env token hash st o).state.credentials ≡ st.credentials)
        × (has_replaced (settle env token hash st o).answer ≡ is_replaced o)
  settle-credentials st o hash = by_outcome o env.gate
    where
      by_outcome :
          (o : Outcome) (gate : Option Gate)
          → ((settle (record env { gate = gate }) token hash st o).state.credentials
              ≡ st.credentials)
            × (has_replaced (settle (record env { gate = gate }) token hash st o).answer
                ≡ is_replaced o)
      by_outcome invalid none = (refl, refl)
      by_outcome invalid (some g) = (refl, refl)
      by_outcome reused gate = (refl, refl)
      by_outcome (replaced user) none = elim (Bool-cases (env.revokes user.id)) [
        | inl ended ↦ rw ended (refl, refl)
        | inr kept ↦ rw kept (refl, refl)
      ]
      by_outcome (replaced user) (some g) = elim (Bool-cases (env.revokes user.id)) [
        | inl ended ↦ rw ended (refl, refl)
        | inr kept ↦ rw kept (refl, refl)
      ]

  confirm_gated-Changed :
      (st : ResetState) (allowed : Bool)
      → IsKeyed st.credentials
      → Changed st
          (confirm_gated digests env token password (st, allowed)).state.credentials
          (has_replaced (confirm_gated digests env token password (st, allowed)).answer)
  confirm_gated-Changed st false k = refl
  confirm_gated-Changed st true k =
      let own = digests.hash_token token in
      let found = find_by_token_hash own (values st.tokens) in
      let done = redeem_found digests env token password st found in
      let r = settle-credentials done.state done.outcome own in
      subst (λ x. Changed st x (has_replaced (settle env token own done.state done.outcome).answer))
        (sym r.0)
        (subst (λ b. Changed st done.state.credentials b) (sym r.1)
          (redeem_found-Changed st k found refl))

  confirm_asked-Changed :
      (st : ResetState) (gate : Option Gate)
      → IsKeyed st.credentials
      → Changed st
          (confirm_gated digests env token password
            (ask_gate gate (digests.hash_token token) env.now st)).state.credentials
          (has_replaced
            (confirm_gated digests env token password
              (ask_gate gate (digests.hash_token token) env.now st)).answer)
  confirm_asked-Changed st none k = confirm_gated-Changed st true k
  confirm_asked-Changed st (some g) k =
      let asked = ask_gate (some g) (digests.hash_token token) env.now st in
      as_before asked.1 (has_replaced (confirm_gated digests env token password asked).answer)
        (confirm_gated-Changed asked.0 asked.1 k)
    where
      as_before :
          (allowed b : Bool)
          → Changed
              (ask_gate (some g) (digests.hash_token token) env.now st).0
              (confirm_gated digests env token password
                (ask_gate (some g) (digests.hash_token token) env.now st)).state.credentials
              b
          → Changed st
              (confirm_gated digests env token password
                (ask_gate (some g) (digests.hash_token token) env.now st)).state.credentials
              b
      as_before allowed true h = h
      as_before allowed false h = h

  confirm_checked-Changed :
      (st : ResetState) (fault : Option ResetError)
      → IsKeyed st.credentials
      → password_fault env password ≡ fault
      → Changed st
          (confirm_checked digests env token password st fault).state.credentials
          (has_replaced (confirm_checked digests env token password st fault).answer)
  confirm_checked-Changed st none k e = confirm_asked-Changed st env.gate k
  confirm_checked-Changed st (some x) k e =
      subst (Changed st st.credentials) (sym (fault_refuses x e)) refl
    where
      fault_refuses :
          (x : ResetError) → password_fault env password ≡ some x → has_replaced (err x) ≡ false
      fault_refuses x e = ground arith

  confirm_reset-Changed :
      (st : ResetState)
      → IsKeyed st.credentials
      → Changed st
          (confirm_reset digests env token password st).state.credentials
          (has_replaced (confirm_reset digests env token password st).answer)
  unfolding confirm_reset
  confirm_reset-Changed st k = elim (Bool-cases (not env.limiter.allowed)) [
    | inl refused ↦ rw refused refl
    | inr admitted ↦ rw admitted (confirm_checked-Changed st (password_fault env password) k refl)
  ]

  -- No password was replaced, and the credentials are as before.
  abbrev pub Untouched : ResetState → Confirmed → Type 0
  Untouched st done = (has_replaced done.answer ≡ false) × (done.state.credentials ≡ st.credentials)

  -- A password was replaced, of the user whose usable token it is.
  abbrev pub Replaced : ResetState → Confirmed → Type 0
  Replaced st done =
      (has_replaced done.answer ≡ true)
      × (user : User) × Redeems digests env token st user
      × HasFresh user.id (env.hash password) done.state.credentials

  -- Where every credential stands under its user's id, a confirmation either replaces no
  -- password and leaves the credentials as they were, or replaces one: then the first stored
  -- token of the hash is usable, and the credential of its user has the hash of the new
  -- password, no failed attempts and no lock.
  pub confirm_reset-credentials :
      (st : ResetState)
      → IsKeyed st.credentials
      → Untouched st (confirm_reset digests env token password st)
        ⊎ Replaced st (confirm_reset digests env token password st)
  confirm_reset-credentials st k =
      by_answer (has_replaced (confirm_reset digests env token password st).answer) refl
        (confirm_reset-Changed st k)
    where
      by_answer :
          (b : Bool)
          → has_replaced (confirm_reset digests env token password st).answer ≡ b
          → Changed st (confirm_reset digests env token password st).state.credentials b
          → Untouched st (confirm_reset digests env token password st)
            ⊎ Replaced st (confirm_reset digests env token password st)
      by_answer true e h = inr (e, h.0, h.1, h.2)
      by_answer false e h = inl (e, h)
