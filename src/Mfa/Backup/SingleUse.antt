-- ===== src/Mfa/Backup/SingleUse.antt =====
-- How often a code is accepted, over any sequence of attempts of a user.
use verixa.Prelude.{
  ℕ, ◌+◌, ◌≤◌, String, Bool, true, false, ◌&&◌, List, [], ◌∷◌, Option, none, some, ◌==◌,
  if◌then◌else◌, ◌≡◌, refl, sym, ap, ◌∙◌, arith, Bool-cases, Option-cases, inl, inr, ◌⊎◌, filter,
}
use mathlib.Core.Path.{subst}
use verixa.Prelude.Dict.{values}
use verixa.Prelude.Text.{Text, text_eq, text_eq→≡}
use verixa.Mfa.Method.{MfaMethod, json, is_active, update_secret}
use verixa.Mfa.Store.{Methods, save, find_active_by_user_id}
use verixa.Mfa.Store.Indexed.{IsIndexed, first, first-filter, first-holds, first-set, set-IsIndexed}
use verixa.Mfa.Backup.{
  Verifier, verify, Outcome, exhausted, failed, ok, is_backup, find_backup, parse_stored_hashes,
  take_match, outcome_of, Consumed, spend, match_hashes, consume_found, consume,
}

-- How many hashes a test fits.
unfoldable pub count : (String → Bool) → List String → ℕ
count fits [] = 0
count fits (hash ∷ hashes) = (if fits hash then 1 else 0) + count fits hashes

some_injective : {A : Type 0} (a b : A) → some a ≡ some b → a ≡ b
some_injective a b e = ground arith

take_match-cons :
    (fits : String → Bool) (hash : String) (hashes left : List String)
    → take_match fits (hash ∷ hashes) ≡ some left
    → ((fits hash ≡ true) × (hashes ≡ left))
      ⊎ ((fits hash ≡ false)
          × ((rest : List String) × (take_match fits hashes ≡ some rest) × (hash ∷ rest ≡ left)))
unfolding take_match
take_match-cons fits hash hashes left e = elim (Bool-cases (fits hash)) [
  | inl fit ↦ inl (fit, ground (arith, fit))
  | inr unfit ↦ elim (Option-cases (take_match fits hashes)) [
    | inl nothing ↦ absurd (ground (arith, unfit, nothing))
    | inr found ↦ inr (unfit, (found.0, found.1, ground (arith, unfit, found.1)))
  ]
]

-- Taking a match uses up one hash that fits, and adds none for any other test.
count-take_match :
    (fits : String → Bool) (hashes left : List String)
    → take_match fits hashes ≡ some left
    → count fits hashes ≡ count fits left + 1
unfolding count take_match
count-take_match fits [] left e = absurd (ground arith)
count-take_match fits (hash ∷ hashes) left e = elim (take_match-cons fits hash hashes left e) [
  | inl here ↦
      subst (λ x. count fits (hash ∷ hashes) ≡ count fits x + 1) here.1 (ground (arith, here.0))
  | inr later ↦
      subst (λ x. count fits (hash ∷ hashes) ≡ count fits x + 1) later.1.2
        (ground (arith, later.0, count-take_match fits hashes later.1.0 later.1.1))
]

count-take_match_le :
    (other fits : String → Bool) (hashes left : List String)
    → take_match fits hashes ≡ some left
    → count other left ≤ count other hashes
unfolding count take_match
count-take_match_le other fits [] left e = absurd (ground arith)
count-take_match_le other fits (hash ∷ hashes) left e =
    elim (take_match-cons fits hash hashes left e) [
      | inl here ↦ subst (λ x. count other x ≤ count other (hash ∷ hashes)) here.1 (ground arith)
      | inr later ↦
          subst (λ x. count other x ≤ count other (hash ∷ hashes)) later.1.2
            (ground (arith, count-take_match_le other fits hashes later.1.0 later.1.1))
    ]

-- The method whose codes a user may spend.
abbrev eligible : String → MfaMethod → Bool
eligible user_id m = (m.user_id == user_id) && (is_active m.status && is_backup m.type)

abbrev or_nil : Option (List String) → List String
or_nil none = []
or_nil (some hashes) = hashes

abbrev listed : Option MfaMethod → List String
listed none = []
listed (some m) = or_nil (parse_stored_hashes m.secret)

-- The hashes of the codes that a user has left.
unfoldable pub hashes_of : String → Methods → List String
hashes_of user_id st = listed (first (eligible user_id) (values st))

find_backup-first : (ms : List MfaMethod) → find_backup ms ≡ first (λ m. is_backup m.type) ms
unfolding find_backup first
find_backup-first [] = refl
find_backup-first (m ∷ ms) = rw (find_backup-first ms) refl

find_eligible :
    (user_id : String) (st : Methods)
    → find_backup (find_active_by_user_id user_id st) ≡ first (eligible user_id) (values st)
find_eligible user_id st =
    find_backup-first (find_active_by_user_id user_id st)
    ∙ first-filter (λ m. is_backup m.type) (λ m. is_active m.status)
        (filter (λ m. m.user_id == user_id) (values st))
    ∙ first-filter (λ m. is_active m.status && is_backup m.type) (λ m. m.user_id == user_id)
        (values st)

abbrev pub is_success : Outcome → Bool
is_success (ok n) = true
is_success exhausted = true
is_success failed = false

outcome_of-success : (left : List String) → is_success (outcome_of left) ≡ true
outcome_of-success [] = refl
outcome_of-success (h ∷ left) = refl

-- A call either fails and leaves the repository, or spends one hash that its code fits.
abbrev Spends : (String → Bool) → String → Methods → Consumed → Type 0
Spends fits user_id st o =
    ((is_success o.outcome ≡ false) × (o.methods ≡ st))
    ⊎ ((is_success o.outcome ≡ true)
        × IsIndexed o.methods
        × (take_match fits (hashes_of user_id st) ≡ some (hashes_of user_id o.methods)))

module _ (v : Verifier) (user_id : String) (code : Text) (now : ℕ) (st : Methods)
    (k : IsIndexed st) where
  hashes_of-save :
      (m : MfaMethod) (left : List String)
      → first (eligible user_id) (values st) ≡ some m
      → hashes_of user_id (save (update_secret (json left) now m) st) ≡ left
  unfolding hashes_of update_secret
  hashes_of-save m left e = ap listed (
      first-set (eligible user_id) m (update_secret (json left) now m) st k e refl
        (first-holds (eligible user_id) (values st) m e))

  spend-Spends :
      (m : MfaMethod) (hashes : List String) (taken : Option (List String))
      → first (eligible user_id) (values st) ≡ some m
      → hashes_of user_id st ≡ hashes
      → take_match (verify v code) hashes ≡ taken
      → Spends (verify v code) user_id st (spend user_id now m st taken)
  spend-Spends m hashes none e h t = inl (refl, refl)
  spend-Spends m hashes (some left) e h t = inr (
    outcome_of-success left,
    set-IsIndexed (update_secret (json left) now m) st k,
    ap (take_match (verify v code)) h ∙ t ∙ ap some (sym (hashes_of-save m left e)),
  )

  match_hashes-Spends :
      (m : MfaMethod) (parsed : Option (List String))
      → first (eligible user_id) (values st) ≡ some m
      → parse_stored_hashes m.secret ≡ parsed
      → Spends (verify v code) user_id st (match_hashes v user_id code now m st parsed)
  unfolding hashes_of
  match_hashes-Spends m none e h = inl (refl, refl)
  match_hashes-Spends m (some hashes) e h =
      spend-Spends m hashes (take_match (verify v code) hashes) e (ap listed e ∙ ap or_nil h) refl

  consume_found-Spends :
      (found : Option MfaMethod)
      → first (eligible user_id) (values st) ≡ found
      → Spends (verify v code) user_id st (consume_found v user_id code now st found)
  consume_found-Spends none e = inl (refl, refl)
  consume_found-Spends (some m) e = match_hashes-Spends m (parse_stored_hashes m.secret) e refl

  consume-Spends : Spends (verify v code) user_id st (consume v user_id code now st)
  unfolding consume
  consume-Spends =
      subst (λ o. Spends (verify v code) user_id st (consume_found v user_id code now st o))
        (sym (find_eligible user_id st))
        (consume_found-Spends (first (eligible user_id) (values st)) refl)

-- How often a code is accepted in a sequence of attempts, each a code and a time.
unfoldable pub accepted : Verifier → String → Text → List (Text × ℕ) → Methods → ℕ
accepted v user_id wanted [] st = 0
accepted v user_id wanted ((code, now) ∷ rest) st =
    let o = consume v user_id code now st in
    (if text_eq code wanted && is_success o.outcome then 1 else 0)
    + accepted v user_id wanted rest o.methods

-- One call's share of a count.
step_le :
    (same success : Bool) (rest left all : ℕ)
    → (same ≡ true → success ≡ true → all ≡ left + 1)
    → rest ≤ left
    → left ≤ all
    → (if same && success then 1 else 0) + rest ≤ all
step_le true true rest left all h a b = omega (arith, h refl refl)
step_le true false rest left all h a b = omega arith
step_le false success rest left all h a b = omega arith

-- In any sequence of attempts of a user, over a repository whose methods stand once under their
-- ids, a backup code is accepted at most as often as there are stored hashes at the start that
-- the code fits.
pub accepted_le :
    (v : Verifier) (user_id : String) (wanted : Text) (calls : List (Text × ℕ)) (st : Methods)
    → IsIndexed st
    → accepted v user_id wanted calls st ≤ count (verify v wanted) (hashes_of user_id st)
unfolding accepted
accepted_le v user_id wanted [] st k = omega arith
accepted_le v user_id wanted ((code, now) ∷ rest) st k =
    elim (consume-Spends v user_id code now st k) [
      | inl fails ↦
          step_le (text_eq code wanted) (is_success (consume v user_id code now st).outcome) _ _ _
            (λ same e. absurd (ground (arith, e, fails.0)))
            (subst
              (λ x.
                accepted v user_id wanted rest x ≤ count (verify v wanted) (hashes_of user_id st))
              (sym fails.1) (accepted_le v user_id wanted rest st k))
            (omega arith)
      | inr spends ↦
          let o = consume v user_id code now st in
          let left = hashes_of user_id o.methods in
          step_le (text_eq code wanted) (is_success o.outcome) _ (count (verify v wanted) left) _
            (λ same e.
              subst (λ c. count (verify v c) (hashes_of user_id st) ≡ count (verify v c) left + 1)
                (text_eq→≡ code wanted same)
                (count-take_match (verify v code) (hashes_of user_id st) left spends.2))
            (accepted_le v user_id wanted rest o.methods spends.1)
            (count-take_match_le (verify v wanted) (verify v code) (hashes_of user_id st) left
              spends.2)
    ]
