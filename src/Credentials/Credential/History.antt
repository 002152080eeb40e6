-- ===== src/Credentials/Credential/History.antt =====
-- The password history against its specification: the newest hashes, to the depth of the policy.
use verixa.Prelude.{
  ℕ, suc, zero, ◌≤◌, String, Bool, List, [], ◌∷◌, ◌≡◌, refl, arith, length, take, ap, sym, ◌∙◌,
  length-take_le,
}
use verixa.Credentials.Credential.{
  Credential, PasswordHistoryPolicy, is_password_reused, matches_any, rotate_password,
}

-- All the hashes that a candidate is compared with, newest first.
abbrev pub compared : Credential → List String
compared c = c.password_hash ∷ c.password_history

-- Password changes in their order, each a hash and its time.
unfoldable pub rotate_all : PasswordHistoryPolicy → List (String × ℕ) → Credential → Credential
rotate_all policy [] c = c
rotate_all policy ((hash, now) ∷ changes) c =
    rotate_all policy changes (rotate_password hash policy now c)

-- Every hash that the credential has ever had, newest first, before the older ones.
abbrev pub ever : List (String × ℕ) → List String → List String
ever [] older = older
ever ((hash, _) ∷ changes) older = ever changes (hash ∷ older)

take-take : (m n : ℕ) (xs : List String) → m ≤ n → take m (take n xs) ≡ take m xs
take-take zero n xs h = refl
take-take (suc m) zero xs h = absurd (omega arith)
take-take (suc m) (suc n) [] h = refl
take-take (suc m) (suc n) (x ∷ xs) h = ap (λ l. x ∷ l) (take-take m n xs (omega arith))

take-ever :
    (m : ℕ) (changes : List (String × ℕ)) (xs ys : List String)
    → take m xs ≡ take m ys
    → take m (ever changes xs) ≡ take m (ever changes ys)
take-ever m [] xs ys h = h
take-ever m ((hash, _) ∷ changes) xs ys h =
    take-ever m changes (hash ∷ xs) (hash ∷ ys) (take_cons m xs ys hash h)
  where
    take_cons :
        (m : ℕ) (xs ys : List String) (x : String)
        → take m xs ≡ take m ys
        → take m (x ∷ xs) ≡ take m (x ∷ ys)
    take_cons zero xs ys x h = refl
    take_cons (suc m) xs ys x h =
        ap (λ l. x ∷ l)
          (sym (take-take m (suc m) xs (omega arith))
            ∙ ap (take m) h
            ∙ take-take m (suc m) ys (omega arith))

take_enough : (n : ℕ) (xs : List String) → length xs ≤ n → take n xs ≡ xs
take_enough zero [] h = refl
take_enough zero (x ∷ xs) h = absurd (omega arith)
take_enough (suc n) [] h = refl
take_enough (suc n) (x ∷ xs) h = ap (λ l. x ∷ l) (take_enough n xs (omega arith))

compared-rotate_all :
    (policy : PasswordHistoryPolicy) (changes : List (String × ℕ)) (c : Credential)
    → length c.password_history ≤ policy.depth
    → compared (rotate_all policy changes c) ≡ take (suc policy.depth) (ever changes (compared c))
unfolding rotate_all rotate_password
compared-rotate_all policy [] c h = sym (take_enough (suc policy.depth) (compared c) (omega arith))
compared-rotate_all policy ((hash, now) ∷ changes) c h =
    let d = policy.depth in
    compared-rotate_all policy changes (rotate_password hash policy now c)
      (length-take_le d (compared c))
    ∙ take-ever (suc d) changes (hash ∷ take d (compared c)) (hash ∷ compared c)
        (ap (λ l. hash ∷ l) (take-take d d (compared c) (omega arith)))

reused-matches_any :
    (verify : String → String → Bool) (candidate : String) (c : Credential)
    → is_password_reused verify candidate c ≡ matches_any verify candidate (compared c)
unfolding is_password_reused
reused-matches_any verify candidate c = refl

module _ (verify : String → String → Bool) (candidate : String) (policy : PasswordHistoryPolicy)
    (changes : List (String × ℕ)) (c : Credential)
    (kept : length c.password_history ≤ policy.depth) where
  -- When the stored history is no longer than the policy's depth, then after any sequence of
  -- password changes a candidate counts as used before exactly if it matches one of the newest
  -- hashes that the credential has ever had, the current one and as many before it as the depth.
  is_password_reused-rotate_all :
      is_password_reused verify candidate (rotate_all policy changes c)
      ≡ matches_any verify candidate (take (suc policy.depth) (ever changes (compared c)))
  is_password_reused-rotate_all =
      reused-matches_any verify candidate (rotate_all policy changes c)
      ∙ ap (matches_any verify candidate) (compared-rotate_all policy changes c kept)

-- When the stored history is no longer than the policy's depth, it is no longer than that after
-- any sequence of password changes.
pub length-rotate_all :
    (policy : PasswordHistoryPolicy) (changes : List (String × ℕ)) (c : Credential)
    → length c.password_history ≤ policy.depth
    → length (rotate_all policy changes c).password_history ≤ policy.depth
length-rotate_all policy changes c kept = omega (
  arith,
  ap length (compared-rotate_all policy changes c kept),
  length-take_le (suc policy.depth) (ever changes (compared c)),
)
