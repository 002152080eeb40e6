-- ===== src/Credentials/Reset/SingleUse.antt =====
-- How often a reset link replaces a password, over any sequence of requests and confirmations.
use verixa.Prelude.{
  ℕ, ◌+◌, ◌≤◌, String, Bool, true, false, not, ◌&&◌, List, [], ◌∷◌, Option, none, some, ◌==◌,
  eq_iff, if◌then◌else◌, ◌≡◌, refl, arith, Bool-cases, inl, inr, All,
}
use mathlib.Core.Path.{subst}
use verixa.Prelude.Dict.{get}
use verixa.Credentials.Authentication.{User}
use verixa.Credentials.Credential.{Credential}
use verixa.Credentials.Reset.{
  ResetState, RequestEnvironment, issue_for, request_with_credential, request_for_user,
  request_for_email, request_reset, confirm_reset, Operation, requesting, confirming,
}
use verixa.Credentials.ResetToken.{Digests, issue, invalidate_outstanding_for_user}
use verixa.Credentials.Reset.Outstanding.{
  IsIndexed, outstanding, outstanding-set_le, set-IsIndexed, invalidate-IsIndexed,
  outstanding-invalidate, has_replaced,
}
use verixa.Credentials.Reset.Redemption.{confirm_reset-Counted}

-- What a request does to the tokens of a hash that is not the one it issues.
abbrev Unissued : String → ResetState → ResetState → Type 0
Unissued own st st2 =
    IsIndexed st2.tokens × (outstanding own st2.tokens ≤ outstanding own st.tokens)

same-Unissued : (own : String) (st : ResetState) → IsIndexed st.tokens → Unissued own st st
same-Unissued own st k = (k, omega arith)

module _ (digests : Digests) (env : RequestEnvironment) (own : String)
    (other : digests.hash_token env.raw_token == own ≡ false) where
  issue_for-Unissued :
      (user : User) (st : ResetState)
      → IsIndexed st.tokens
      → Unissued own st (issue_for digests env user st)
  issue_for-Unissued user st k =
      let t = issue digests env.token_id env.raw_token user.id env.ttl_ms env.now in
      let retired_tokens = invalidate_outstanding_for_user user.id env.now st.tokens in
      (
        set-IsIndexed t retired_tokens (invalidate-IsIndexed user.id env.now st.tokens k),
        omega (
          arith,
          outstanding-set_le own t.id t retired_tokens (rw other refl),
          outstanding-invalidate own user.id env.now st.tokens,
        ),
      )

  request_for_user-Unissued :
      (email : String) (st : ResetState) (user : Option User)
      → IsIndexed st.tokens
      → Unissued own st (request_for_user digests env email st user).state
  request_for_user-Unissued email st none k = same-Unissued own st k
  request_for_user-Unissued email st (some user) k = held (get user.id st.credentials)
    where
      held :
          (c : Option Credential)
          → Unissued own st (request_with_credential digests env email user st c).state
      held none = same-Unissued own st k
      held (some c) = issue_for-Unissued user st k

  request_for_email-Unissued :
      (email : String) (st : ResetState) (address : Option String)
      → IsIndexed st.tokens
      → Unissued own st (request_for_email digests env email st address).state
  request_for_email-Unissued email st none k = same-Unissued own st k
  request_for_email-Unissued email st (some address) k =
      request_for_user-Unissued email st (env.find_by_email address) k

  request_reset-Unissued :
      (email : String) (st : ResetState)
      → IsIndexed st.tokens
      → Unissued own st (request_reset digests env email st).state
  unfolding request_reset
  request_reset-Unissued email st k = elim (Bool-cases (not env.limiter.allowed)) [
    | inl refused ↦ rw refused (same-Unissued own st k)
    | inr admitted ↦ rw admitted (request_for_email-Unissued email st (env.create_email email) k)
  ]

-- A request issues another hash than this one.
abbrev pub IsOther : Digests → String → Operation → Type 0
IsOther digests own (requesting env email) = digests.hash_token env.raw_token == own ≡ false
IsOther digests own (confirming env token password) = Unit

-- How often a password is replaced with this raw token in a sequence of operations.
unfoldable pub replacements : Digests → String → List Operation → ResetState → ℕ
replacements digests wanted [] st = 0
replacements digests wanted (requesting env email ∷ rest) st =
    replacements digests wanted rest (request_reset digests env email st).state
replacements digests wanted (confirming env token password ∷ rest) st =
    let done = confirm_reset digests env token password st in
    (if (token == wanted) && has_replaced done.answer then 1 else 0)
    + replacements digests wanted rest done.state

-- One call's share of a count.
share_le :
    (same success : Bool) (rest left all : ℕ)
    → (same ≡ true → success ≡ true → all ≡ left + 1)
    → rest ≤ left
    → left ≤ all
    → (if same && success then 1 else 0) + rest ≤ all
share_le true true rest left all h a b = omega (arith, h refl refl)
share_le true false rest left all h a b = omega arith
share_le false success rest left all h a b = omega arith

-- In any sequence of requests and confirmations, over a store whose tokens stand once under
-- their ids, where no request issues a token with the hash of a given raw token, that raw token
-- replaces a password at most as often as there are unconsumed tokens of its hash at the start:
-- once, for one link.
pub replacements_le :
    (digests : Digests) (wanted : String) (calls : List Operation) (st : ResetState)
    → IsIndexed st.tokens
    → All (IsOther digests (digests.hash_token wanted)) calls
    → replacements digests wanted calls st ≤ outstanding (digests.hash_token wanted) st.tokens
unfolding replacements
replacements_le digests wanted [] st k a = omega arith
replacements_le digests wanted (requesting env email ∷ rest) st k a =
    let r = request_reset-Unissued digests env (digests.hash_token wanted) a.0 email st k in
    omega (
      arith,
      r.1,
      replacements_le digests wanted rest (request_reset digests env email st).state r.0 a.1,
    )
replacements_le digests wanted (confirming env token password ∷ rest) st k a =
    let own = digests.hash_token wanted in
    let done = confirm_reset digests env token password st in
    let r = confirm_reset-Counted digests env token password st k in
    share_le (token == wanted) (has_replaced done.answer) _ (outstanding own done.state.tokens) _
      (λ same success.
        subst
          (λ x.
            outstanding (digests.hash_token x) st.tokens
            ≡ outstanding (digests.hash_token x) done.state.tokens + 1)
          ((eq_iff token wanted).0 same) (r.2 success))
      (replacements_le digests wanted rest done.state r.0 a.1) (r.1 own)
