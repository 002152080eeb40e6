-- ===== src/Verification/Status.antt =====
-- packages/verification/domain/value-objects/verification-status.ts: the status of a request and
-- the table of transitions.
use verixa.Prelude.{
  ℕ, String, Bool, true, false, List, [], ◌∷◌, Option, none, some, ◌≡◌, refl, ◌==◌, eqb, eq_iff,
  if◌then◌else◌, arith, ◌↔◌, sym, ap, ◌∙◌,
}

pub data VerificationStatus : Type 0 where
  pending_evidence submitted in_review needs_more_info approved rejected : VerificationStatus

-- The `VerificationStatusValue` strings: `toString`.
abbrev pub to_string : VerificationStatus → String
to_string pending_evidence = "pending_evidence"
to_string submitted = "submitted"
to_string in_review = "in_review"
to_string needs_more_info = "needs_more_info"
to_string approved = "approved"
to_string rejected = "rejected"

-- A number for each status, so that `===` on statuses is a test on numbers.
abbrev rank : VerificationStatus → ℕ
rank pending_evidence = 0
rank submitted = 1
rank in_review = 2
rank needs_more_info = 3
rank approved = 4
rank rejected = 5

abbrev pub equals : VerificationStatus → VerificationStatus → Bool
equals a b = eqb (rank a) (rank b)

abbrev pub allowed_transitions : VerificationStatus → List VerificationStatus
allowed_transitions pending_evidence = submitted ∷ []
allowed_transitions submitted = in_review ∷ []
allowed_transitions in_review = approved ∷ rejected ∷ needs_more_info ∷ []
allowed_transitions needs_more_info = pending_evidence ∷ []
allowed_transitions approved = []
allowed_transitions rejected = []

abbrev pub terminal_statuses : List VerificationStatus
terminal_statuses = approved ∷ rejected ∷ []

abbrev pub all_statuses : List VerificationStatus
all_statuses = pending_evidence ∷ submitted ∷ in_review ∷ needs_more_info ∷ approved ∷ rejected ∷ []

-- `includes` and `Set.has`.
abbrev pub includes : List VerificationStatus → VerificationStatus → Bool
includes [] s = false
includes (t ∷ ts) s = elim (equals t s) [ true ↦ true | false ↦ includes ts s ]

unfoldable pub can_transition_to : VerificationStatus → VerificationStatus → Bool
can_transition_to from to = includes (allowed_transitions from) to

abbrev is_empty : List VerificationStatus → Bool
is_empty [] = true
is_empty (_ ∷ _) = false

unfoldable pub is_terminal : VerificationStatus → Bool
is_terminal s = is_empty (allowed_transitions s)

find : List VerificationStatus → String → Option VerificationStatus
find [] raw = none
find (s ∷ ss) raw = if to_string s == raw then some s else find ss raw

-- `create`: `none` stands for the "unsupported" validation error.
pub create : String → Option VerificationStatus
unfolding find
create raw = find all_statuses raw

-- A status has no way out in the table of transitions exactly when it is listed as terminal.
pub is_terminal-includes : (s : VerificationStatus) → is_terminal s ≡ includes terminal_statuses s
unfolding is_terminal
is_terminal-includes pending_evidence = refl
is_terminal-includes _ = refl

create-to_string : (s : VerificationStatus) → create (to_string s) ≡ some s
unfolding create
create-to_string pending_evidence = refl
create-to_string _ = refl

find_sound :
    (ss : List VerificationStatus) (raw : String) {s : VerificationStatus}
    → find ss raw ≡ some s
    → to_string s ≡ raw
unfolding find
find_sound [] raw h = ground arith
find_sound (t ∷ ss) raw {s} h = ground (arith, eq_iff (to_string t) raw, find_sound ss raw {s = s})

to_string-create : (raw : String) {s : VerificationStatus} → create raw ≡ some s → to_string s ≡ raw
unfolding create
to_string-create raw h = find_sound all_statuses raw h

-- Parsing a text gives a status exactly when the text is the printed form of that status.
pub create_iff :
    (raw : String) (s : VerificationStatus) → (create raw ≡ some s) ↔ (to_string s ≡ raw)
create_iff raw s = (to_string-create raw, λ e. sym (ap create e) ∙ create-to_string s)
