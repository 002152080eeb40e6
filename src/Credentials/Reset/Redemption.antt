-- ===== src/Credentials/Reset/Redemption.antt =====
-- What confirming a reset does to the tokens.
use verixa.Prelude.{
  ℕ, String, Bool, true, false, not, Option, none, some, ◌≡◌, refl, sym, ◌∙◌, arith, Bool-cases,
  inl, inr,
}
use mathlib.Core.Path.{subst}
use verixa.Prelude.Dict.{Dict, get, values}
use verixa.Kernel.Result.{Result, ok, err}
use verixa.Credentials.Authentication.{User, Gate}
use verixa.Credentials.Credential.{Credential, is_password_reused}
use verixa.Credentials.Reset.{
  ResetState, ResetError, ConfirmEnvironment, Outcome, invalid, reused, replaced,
  replace_credential, redeem_for, redeem, redeem_found, gate_failure, gate_success, ask_gate,
  sign_out, settle, password_fault, confirm_gated, confirm_checked, confirm_reset,
}
use verixa.Credentials.ResetToken.{
  PasswordResetToken, TokenError, Digests, matches_token, consume, find_by_token_hash,
}
use verixa.Credentials.Reset.Outstanding.{
  IsIndexed, Counted, has_replaced, is_replaced, same-Counted, save-Counted,
}

replace-tokens :
    (env : ConfirmEnvironment) (password : String) (user : User) (st : ResetState)
    (c : Option Credential)
    → (replace_credential env password user st c).state.tokens ≡ st.tokens
replace-tokens env password user st none = refl
replace-tokens env password user st (some c) =
    elim (Bool-cases (is_password_reused env.verify password c)) [
      | inl again ↦ rw again refl
      | inr fresh ↦ rw fresh refl
    ]

module _ (digests : Digests) (env : ConfirmEnvironment) (token password : String) where
  redeem_for-Counted :
      (st : ResetState) (t c : PasswordResetToken)
      → IsIndexed st.tokens
      → find_by_token_hash (digests.hash_token token) (values st.tokens) ≡ some t
      → consume env.now t ≡ ok c
      → (user : Option User)
      → Counted
          (digests.hash_token token)
          st.tokens
          (redeem_for env password c st user).state.tokens
          (is_replaced (redeem_for env password c st user).outcome)
  redeem_for-Counted st t c k f e none = same-Counted _ st.tokens k
  redeem_for-Counted st t c k f e (some user) =
      let done = redeem_for env password c st (some user) in
      subst (λ ts. Counted (digests.hash_token token) st.tokens ts (is_replaced done.outcome))
        (sym (replace-tokens env password user _ (get user.id st.credentials)))
        (save-Counted (digests.hash_token token) t c env.now st.tokens k f e _)

  redeem-Counted :
      (st : ResetState) (t : PasswordResetToken)
      → IsIndexed st.tokens
      → find_by_token_hash (digests.hash_token token) (values st.tokens) ≡ some t
      → (r : Result PasswordResetToken TokenError) → consume env.now t ≡ r
      → Counted
          (digests.hash_token token)
          st.tokens
          (redeem env password st r).state.tokens
          (is_replaced (redeem env password st r).outcome)
  redeem-Counted st t k f (err x) e = same-Counted _ st.tokens k
  redeem-Counted st t k f (ok c) e = redeem_for-Counted st t c k f e (env.find_by_id c.user_id)

  redeem_found-Counted :
      (st : ResetState)
      → IsIndexed st.tokens
      → (found : Option PasswordResetToken)
      → find_by_token_hash (digests.hash_token token) (values st.tokens) ≡ found
      → Counted
          (digests.hash_token token)
          st.tokens
          (redeem_found digests env token password st found).state.tokens
          (is_replaced (redeem_found digests env token password st found).outcome)
  redeem_found-Counted st k none f = same-Counted _ st.tokens k
  redeem_found-Counted st k (some t) f = elim (Bool-cases (not (matches_token digests token t))) [
    | inl other ↦ rw other (same-Counted _ st.tokens k)
    | inr fits ↦ rw fits (redeem-Counted st t k f (consume env.now t) refl)
  ]

ask_gate-tokens :
    (gate : Option Gate) (hash : String) (now : ℕ) (st : ResetState)
    → (ask_gate gate hash now st).0.tokens ≡ st.tokens
ask_gate-tokens none hash now st = refl
ask_gate-tokens (some g) hash now st = refl

gate_success-tokens :
    (gate : Option Gate) (hash : String) (st : ResetState)
    → (gate_success gate hash st).tokens ≡ st.tokens
gate_success-tokens none hash st = refl
gate_success-tokens (some g) hash st = refl

gate_failure-tokens :
    (gate : Option Gate) (hash : String) (now : ℕ) (st : ResetState)
    → (gate_failure gate hash now st).tokens ≡ st.tokens
gate_failure-tokens none hash now st = refl
gate_failure-tokens (some g) hash now st = refl

sign_out-tokens :
    (env : ConfirmEnvironment) (token : String) (user : User) (st : ResetState)
    → ((sign_out env token user st).state.tokens ≡ st.tokens)
      × (has_replaced (sign_out env token user st).answer ≡ true)
sign_out-tokens env token user st = elim (Bool-cases (env.revokes user.id)) [
  | inl ended ↦ rw ended (refl, refl)
  | inr kept ↦ rw kept (refl, refl)
]

settle-tokens :
    (env : ConfirmEnvironment) (token hash : String) (st : ResetState) (o : Outcome)
    → ((settle env token hash st o).state.tokens ≡ st.tokens)
      × (has_replaced (settle env token hash st o).answer ≡ is_replaced o)
settle-tokens env token hash st invalid = (gate_failure-tokens env.gate hash env.now st, refl)
settle-tokens env token hash st reused = (refl, refl)
settle-tokens env token hash st (replaced user) =
    let r = sign_out-tokens env token user (gate_success env.gate hash st) in
    (r.0 ∙ gate_success-tokens env.gate hash st, r.1)

-- A call that has replaced no password and left the tokens.
kept-Counted :
    (own : String) (ts ts2 : Dict PasswordResetToken) (b : Bool)
    → IsIndexed ts
    → ts2 ≡ ts
    → b ≡ false
    → Counted own ts ts2 b
kept-Counted own ts ts2 b k e h =
    subst (λ x. Counted own ts x b) (sym e)
      (subst (λ x. Counted own ts ts x) (sym h) (same-Counted own ts k))

module _ (digests : Digests) (env : ConfirmEnvironment) (token password : String) where
  confirm_open-Counted :
      (st : ResetState)
      → IsIndexed st.tokens
      → Counted
          (digests.hash_token token)
          st.tokens
          (confirm_gated digests env token password (st, true)).state.tokens
          (has_replaced (confirm_gated digests env token password (st, true)).answer)
  confirm_open-Counted st k =
      let own = digests.hash_token token in
      let found = find_by_token_hash own (values st.tokens) in
      let done = redeem_found digests env token password st found in
      let r = settle-tokens env token own done.state done.outcome in
      subst
        (λ ts.
          Counted own st.tokens ts
            (has_replaced (settle env token own done.state done.outcome).answer))
        (sym r.0)
        (subst (λ b. Counted own st.tokens done.state.tokens b) (sym r.1)
          (redeem_found-Counted digests env token password st k found refl))

  confirm_gated-Counted :
      (st : ResetState) (allowed : Bool)
      → IsIndexed st.tokens
      → Counted
          (digests.hash_token token)
          st.tokens
          (confirm_gated digests env token password (st, allowed)).state.tokens
          (has_replaced (confirm_gated digests env token password (st, allowed)).answer)
  confirm_gated-Counted st true k = confirm_open-Counted st k
  confirm_gated-Counted st false k = same-Counted (digests.hash_token token) st.tokens k

  confirm_asked-Counted :
      (st : ResetState) (asked : ResetState × Bool)
      → asked.0.tokens ≡ st.tokens
      → IsIndexed st.tokens
      → Counted
          (digests.hash_token token)
          st.tokens
          (confirm_gated digests env token password asked).state.tokens
          (has_replaced (confirm_gated digests env token password asked).answer)
  confirm_asked-Counted st (st2, allowed) e k =
      subst
        (λ ts.
          Counted (digests.hash_token token) ts
            (confirm_gated digests env token password (st2, allowed)).state.tokens
            (has_replaced (confirm_gated digests env token password (st2, allowed)).answer))
        e (confirm_gated-Counted st2 allowed (subst IsIndexed (sym e) k))

  confirm_checked-Counted :
      (st : ResetState) (fault : Option ResetError)
      → IsIndexed st.tokens
      → password_fault env password ≡ fault
      → Counted
          (digests.hash_token token)
          st.tokens
          (confirm_checked digests env token password st fault).state.tokens
          (has_replaced (confirm_checked digests env token password st fault).answer)
  confirm_checked-Counted st none k e =
      confirm_asked-Counted st (ask_gate env.gate (digests.hash_token token) env.now st)
        (ask_gate-tokens env.gate (digests.hash_token token) env.now st) k
  confirm_checked-Counted st (some x) k e =
      kept-Counted (digests.hash_token token) st.tokens st.tokens _ k refl (fault_keeps x e)
    where
      fault_keeps :
          (x : ResetError) → password_fault env password ≡ some x → has_replaced (err x) ≡ false
      fault_keeps x e = ground arith

  pub confirm_reset-Counted :
      (st : ResetState)
      → IsIndexed st.tokens
      → Counted
          (digests.hash_token token)
          st.tokens
          (confirm_reset digests env token password st).state.tokens
          (has_replaced (confirm_reset digests env token password st).answer)
  unfolding confirm_reset
  confirm_reset-Counted st k = elim (Bool-cases (not env.limiter.allowed)) [
    | inl refused ↦ rw refused (same-Counted (digests.hash_token token) st.tokens k)
    | inr admitted ↦ rw admitted (confirm_checked-Counted st (password_fault env password) k refl)
  ]
