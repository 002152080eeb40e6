-- ===== src/Credentials/Reset/Outstanding.antt =====
-- Tokens that have not been consumed, counted by their hash.
use verixa.Prelude.{
  ℕ, ◌+◌, ◌≤◌, String, Bool, true, false, not, ◌&&◌, List, [], ◌∷◌, Option, none, some, ◌==◌,
  eq_iff, if◌then◌else◌, ◌≡◌, ◌≢◌, refl, sym, ap, ◌∙◌, arith, Bool-cases, inl, inr,
}
use mathlib.Core.Path.{subst}
use verixa.Prelude.Dict.{Dict, get, set, values, get-set}
use verixa.Kernel.Result.{Result, ok, err}
use verixa.Credentials.Authentication.{User}
use verixa.Credentials.Reset.{ResetError, revocation_failed, Outcome, invalid, reused, replaced}
use verixa.Credentials.ResetToken.{
  PasswordResetToken, is_consumed, is_expired_at, consume, find_by_token_hash, save_token, retired,
  invalidate_outstanding_for_user,
}

-- Every token stands once, under its id.
abbrev pub IsIndexed : Dict PasswordResetToken → Type 0
IsIndexed [] = Unit
IsIndexed ((key, t) ∷ ts) = (key ≡ t.id) × (get key ts ≡ none) × IsIndexed ts

abbrev weight : String → PasswordResetToken → ℕ
weight hash t = if (t.token_hash == hash) && not (is_consumed t) then 1 else 0

-- How many stored tokens have this hash and have not been consumed.
unfoldable pub outstanding : String → Dict PasswordResetToken → ℕ
outstanding hash [] = 0
outstanding hash ((key, t) ∷ ts) = weight hash t + outstanding hash ts

pub outstanding-set_le :
    (hash id : String) (t : PasswordResetToken) (ts : Dict PasswordResetToken)
    → weight hash t ≡ 0
    → outstanding hash (set id t ts) ≤ outstanding hash ts
unfolding outstanding set
outstanding-set_le hash id t [] w = omega (arith, w)
outstanding-set_le hash id t ((key, x) ∷ ts) w = elim (Bool-cases (key == id)) [
  | inl same ↦ rw same (omega (arith, w))
  | inr other ↦ rw other (omega (arith, outstanding-set_le hash id t ts w))
]

outstanding-set :
    (hash id : String) (old t : PasswordResetToken) (ts : Dict PasswordResetToken)
    → get id ts ≡ some old
    → weight hash old ≡ 1
    → weight hash t ≡ 0
    → outstanding hash ts ≡ outstanding hash (set id t ts) + 1
unfolding outstanding set get
outstanding-set hash id old t [] e v w = absurd (ground arith)
outstanding-set hash id old t ((key, x) ∷ ts) e v w = elim (Bool-cases (key == id)) [
  | inl same ↦
      let found : x ≡ old = ground (arith, same) in rw same (rw found (omega (arith, v, w)))
  | inr other ↦
      rw other (omega (arith, outstanding-set hash id old t ts (ground (arith, other)) v w))
]

differs : (a b : String) → a == b ≡ false → b == a ≡ false
differs a b h = ground (arith, eq_iff a b, eq_iff b a)

pub set-IsIndexed :
    (t : PasswordResetToken) (ts : Dict PasswordResetToken)
    → IsIndexed ts
    → IsIndexed (set t.id t ts)
unfolding set get
set-IsIndexed t [] k = (refl, refl, tt)
set-IsIndexed t ((key, x) ∷ ts) k = elim (Bool-cases (key == t.id)) [
  | inl same ↦ rw same (refl, ap (λ y. get y ts) (sym ((eq_iff key t.id).0 same)) ∙ k.1, k.2)
  | inr other ↦ rw other (
    k.0,
    get-set t.id key t ts
        ∙ ap (λ b. if b then some t else get key ts) (differs key t.id other)
        ∙ k.1,
    set-IsIndexed t ts k.2,
  )
]

find-hash :
    (hash : String) (ts : List PasswordResetToken) (t : PasswordResetToken)
    → find_by_token_hash hash ts ≡ some t
    → t.token_hash == hash ≡ true
unfolding find_by_token_hash
find-hash hash [] t e = absurd (ground arith)
find-hash hash (x ∷ ts) t e = elim (Bool-cases (x.token_hash == hash)) [
  | inl here ↦
      let found : x ≡ t = ground (arith, here) in ap (λ y. y.token_hash == hash) (sym found) ∙ here
  | inr later ↦ find-hash hash ts t (ground (arith, later))
]

absent : {A : Type 0} (o : Option A) (a : A) → o ≡ some a → o ≢ none
absent o a e n = ground arith

find-get :
    (hash : String) (ts : Dict PasswordResetToken) (t : PasswordResetToken)
    → IsIndexed ts
    → find_by_token_hash hash (values ts) ≡ some t
    → get t.id ts ≡ some t
unfolding find_by_token_hash get
find-get hash [] t k e = absurd (ground arith)
find-get hash ((key, x) ∷ ts) t k e = elim (Bool-cases (x.token_hash == hash)) [
  | inl here ↦
      let found : x ≡ t = ground (arith, here) in
      rw ((eq_iff key t.id).1 (k.0 ∙ ap (λ y. y.id) found)) (ap some found)
  | inr later ↦
      let r = find-get hash ts t k.2 (ground (arith, later)) in
      elim (Bool-cases (key == t.id)) [
        | inl same ↦
            absurd
              (absent (get t.id ts) t r (ap (λ y. get y ts) (sym ((eq_iff key t.id).0 same)) ∙ k.1))
        | inr other ↦ rw other r
      ]
]

retired_same :
    (user_id : String) (now : ℕ) (t : PasswordResetToken) → (retired user_id now t).id ≡ t.id
retired_same user_id now t = ground arith

weight-retired :
    (hash user_id : String) (now : ℕ) (t : PasswordResetToken)
    → weight hash (retired user_id now t) ≤ weight hash t
weight-retired hash user_id now t = ground arith

get-invalidate :
    (id user_id : String) (now : ℕ) (ts : Dict PasswordResetToken)
    → get id ts ≡ none
    → get id (invalidate_outstanding_for_user user_id now ts) ≡ none
unfolding get invalidate_outstanding_for_user
get-invalidate id user_id now [] e = refl
get-invalidate id user_id now ((key, t) ∷ ts) e = elim (Bool-cases (key == id)) [
  | inl same ↦ absurd (ground (arith, same))
  | inr other ↦ rw other (get-invalidate id user_id now ts (ground (arith, other)))
]

pub invalidate-IsIndexed :
    (user_id : String) (now : ℕ) (ts : Dict PasswordResetToken)
    → IsIndexed ts
    → IsIndexed (invalidate_outstanding_for_user user_id now ts)
unfolding invalidate_outstanding_for_user
invalidate-IsIndexed user_id now [] k = tt
invalidate-IsIndexed user_id now ((key, t) ∷ ts) k = (
  k.0 ∙ sym (retired_same user_id now t),
  get-invalidate key user_id now ts k.1,
  invalidate-IsIndexed user_id now ts k.2,
)

pub outstanding-invalidate :
    (hash user_id : String) (now : ℕ) (ts : Dict PasswordResetToken)
    → outstanding hash (invalidate_outstanding_for_user user_id now ts) ≤ outstanding hash ts
unfolding outstanding invalidate_outstanding_for_user
outstanding-invalidate hash user_id now [] = omega arith
outstanding-invalidate hash user_id now ((key, t) ∷ ts) =
    omega (arith, weight-retired hash user_id now t, outstanding-invalidate hash user_id now ts)

-- What a call does to the tokens: none becomes outstanding, and a success uses one up.
abbrev pub Counted : String → Dict PasswordResetToken → Dict PasswordResetToken → Bool → Type 0
Counted own ts ts2 success =
    IsIndexed ts2
    × ((hash : String) → outstanding hash ts2 ≤ outstanding hash ts)
    × (success ≡ true → outstanding own ts ≡ outstanding own ts2 + 1)

-- The password was replaced, whether or not the sessions could be ended.
abbrev pub has_replaced : Result User ResetError → Bool
has_replaced (ok user) = true
has_replaced (err revocation_failed) = true
has_replaced (err e) = false

abbrev pub is_replaced : Outcome → Bool
is_replaced invalid = false
is_replaced reused = false
is_replaced (replaced user) = true

pub same-Counted :
    (own : String) (ts : Dict PasswordResetToken) → IsIndexed ts → Counted own ts ts false
same-Counted own ts k = (k, λ hash. omega arith, λ h. absurd (ground arith))

consume_ok :
    (now : ℕ) (t c : PasswordResetToken)
    → consume now t ≡ ok c
    → (c.id ≡ t.id) × (is_consumed t ≡ false) × ((hash : String) → weight hash c ≡ 0)
unfolding consume
consume_ok now t c e = elim (Bool-cases (is_consumed t)) [
  | inl used ↦ absurd (ground (arith, used))
  | inr fresh ↦ elim (Bool-cases (is_expired_at t now)) [
    | inl old ↦ absurd (ground (arith, fresh, old))
    | inr usable ↦
        let made : record t { consumed_at = some now } ≡ c = ground (arith, fresh, usable) in
        (
          ap (λ y. y.id) (sym made),
          fresh,
          λ hash. subst (λ y. weight hash y ≡ 0) made (ground arith),
        )
  ]
]

pub save-Counted :
    (own : String) (t c : PasswordResetToken) (now : ℕ) (ts : Dict PasswordResetToken)
    → IsIndexed ts
    → find_by_token_hash own (values ts) ≡ some t
    → consume now t ≡ ok c
    → (b : Bool) → Counted own ts (save_token c ts) b
save-Counted own t c now ts k f e b =
    let r = consume_ok now t c e in
    let held = find-get own ts t k f in
    (
      set-IsIndexed c ts k,
      λ hash. outstanding-set_le hash c.id c ts (r.2 hash),
      λ s.
          outstanding-set own c.id t c ts (subst (λ i. get i ts ≡ some t) (sym r.0) held)
            (ground (arith, find-hash own (values ts) t f, r.1)) (r.2 own),
    )
