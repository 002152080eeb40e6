-- ===== src/Verification/Request/Decisions.antt =====
-- When `approve` and `reject` succeed, what they change, and how they fail.
use verixa.Prelude.{
  ℕ, ◌<◌, String, true, Option, none, some, ◌≡◌, ◌≢◌, ◌⊎◌, inl, inr, arith, eq_iff, refl, ◌↔◌, ◌∙◌,
  ap, sym, Bool-cases, [], ◌∷◌,
}
use mathlib.Core.Path.{subst}
use verixa.Kernel.Result.{ok, err}
use verixa.Verification.Status.{
  VerificationStatus, approved, rejected, in_review, is_terminal, submitted, pending_evidence,
  needs_more_info, equals,
}
use verixa.Verification.Assignment.{ReviewAssignment}
use verixa.Verification.Request.{
  VerificationRequest, RequestError, Operation, submitting, starting_review, reopening, claiming,
  asking_more, deciding, invalid_status_transition, review_decision_not_permitted, Outcome, approve,
  reject, status_of, decided, decide, decision_permitted, perform,
}

-- The reviewer holds a claim on the request that is active at the time given.
pub data HoldsClaim (r : VerificationRequest) (reviewer_id : String) (now : ℕ) : Type 0 where
  holds :
      (a : ReviewAssignment)
      → r.assignment ≡ some a
      → a.reviewer_id ≡ reviewer_id
      → now < a.claim_expires_at
      → HoldsClaim r reviewer_id now

permitted-HoldsClaim :
    (r : VerificationRequest) (reviewer_id : String) (now : ℕ)
    → decision_permitted r.assignment reviewer_id now ≡ true
    → HoldsClaim r reviewer_id now
unfolding decision_permitted
permitted-HoldsClaim r reviewer_id now h = go r.assignment refl h
  where
    go :
        (o : Option ReviewAssignment)
        → r.assignment ≡ o
        → decision_permitted o reviewer_id now ≡ true
        → HoldsClaim r reviewer_id now
    go none e k = ground arith
    go (some a) e k = holds a e (ground (arith, eq_iff a.reviewer_id reviewer_id)) (ground arith)

HoldsClaim-permitted :
    (r : VerificationRequest) (reviewer_id : String) (now : ℕ)
    → HoldsClaim r reviewer_id now
    → decision_permitted r.assignment reviewer_id now ≡ true
unfolding decision_permitted
HoldsClaim-permitted r reviewer_id now (holds a e k l) =
    ground (arith, eq_iff a.reviewer_id reviewer_id)

decide_in_review :
    (outcome : Outcome) (reviewer_id note : String) (now : ℕ) (r : VerificationRequest)
    → r.status ≡ in_review
    → HoldsClaim r reviewer_id now
    → decide outcome reviewer_id note now r ≡ ok (decided outcome reviewer_id note now r)
unfolding decide
decide_in_review outcome reviewer_id note now r s h =
    ground (arith, HoldsClaim-permitted r reviewer_id now h)

decide-ok :
    (outcome : Outcome) (reviewer_id note : String) (now : ℕ) (r : VerificationRequest)
    {s : VerificationRequest}
    → decide outcome reviewer_id note now r ≡ ok s
    → (r.status ≡ in_review)
      × HoldsClaim r reviewer_id now
      × (s ≡ decided outcome reviewer_id note now r)
unfolding decide
decide-ok outcome reviewer_id note now r h =
    (ground arith, permitted-HoldsClaim r reviewer_id now (ground arith), ground arith)

-- The status that an approval or a rejection ends in.
pub data EndsIn : Outcome → VerificationStatus → Type 0 where
  approval : EndsIn approve approved
  rejection : EndsIn reject rejected

-- A request after a decision, field by field: the decision and its one event carry the reviewer, the
-- time and the note, the claim is gone, and what identifies the request is as before.
abbrev pub IsDecided :
    Outcome → String → String → ℕ → VerificationRequest → VerificationRequest → Type 0
IsDecided outcome reviewer_id note now r s =
    EndsIn outcome s.status
    × (s ≡ record {
      id = r.id;
      subject_user_id = r.subject_user_id;
      organization_id = r.organization_id;
      type = r.type;
      status = s.status;
      assignment = none;
      decision = some (record { decided_by = reviewer_id; decided_at = now; note = note });
      needs_more_info_note = r.needs_more_info_note;
      created_at = r.created_at;
      updated_at = now;
      domain_events =
          record {
            request_id = r.id;
            subject_user_id = r.subject_user_id;
            organization_id = r.organization_id;
            verification_type = r.type;
            decision = outcome;
            decided_by = reviewer_id;
            decided_at = now;
            note = note;
          }
          ∷ [];
    })

decided-IsDecided :
    (outcome : Outcome) (reviewer_id note : String) (now : ℕ) (r : VerificationRequest)
    → IsDecided outcome reviewer_id note now r (decided outcome reviewer_id note now r)
decided-IsDecided approve reviewer_id note now r = (approval, refl)
decided-IsDecided reject reviewer_id note now r = (rejection, refl)

EndsIn-status_of : {o : Outcome} {s : VerificationStatus} → EndsIn o s → s ≡ status_of o
EndsIn-status_of approval = refl
EndsIn-status_of rejection = refl

IsDecided-decided :
    (outcome : Outcome) (reviewer_id note : String) (now : ℕ) (r s : VerificationRequest)
    → IsDecided outcome reviewer_id note now r s
    → s ≡ decided outcome reviewer_id note now r
IsDecided-decided outcome reviewer_id note now r s (e, p) =
    p
    ∙ ap (λ x. record (decided outcome reviewer_id note now r) { status = x }) (EndsIn-status_of e)

-- An approval or a rejection by a reviewer at a time succeeds, with the request s as its result,
-- exactly when the request is in review, the reviewer holds a claim on it that has not expired
-- at that time, and s is the request with the outcome's status, the decision by that reviewer at
-- that time recorded with the note, no claim, one event, which carries the decision, and all
-- else as before but the time of the update.
pub decide-ok_iff :
    (outcome : Outcome) (reviewer_id note : String) (now : ℕ) (r s : VerificationRequest)
    → (decide outcome reviewer_id note now r ≡ ok s) ↔ (
        (r.status ≡ in_review)
        × HoldsClaim r reviewer_id now
        × IsDecided outcome reviewer_id note now r s)
decide-ok_iff outcome reviewer_id note now r s = (
  λ e.
      let c = decide-ok outcome reviewer_id note now r e in
      (
        c.0,
        c.1,
        subst (IsDecided outcome reviewer_id note now r) (sym c.2)
            (decided-IsDecided outcome reviewer_id note now r),
      ),
  λ c.
      decide_in_review outcome reviewer_id note now r c.0 c.1
      ∙ ap ok (sym (IsDecided-decided outcome reviewer_id note now r s c.2)),
)

-- When an approval or a rejection fails, either the request is not in review and the error is
-- the invalid status transition, or it is in review, the reviewer holds no active claim on it,
-- and the error is the decision that is not permitted.
pub decide-err :
    (outcome : Outcome) (reviewer_id note : String) (now : ℕ) (r : VerificationRequest)
    {e : RequestError}
    → decide outcome reviewer_id note now r ≡ err e
    → ((r.status ≢ in_review) × (e ≡ invalid_status_transition r.status (status_of outcome)))
      ⊎ ((r.status ≡ in_review)
          × (¬ HoldsClaim r reviewer_id now)
          × (e ≡ review_decision_not_permitted r.id))
unfolding decide
decide-err outcome reviewer_id note now r h = elim (Bool-cases (equals r.status in_review)) [
  | inl s ↦
      inr
        (ground arith, λ k. ground (arith, HoldsClaim-permitted r reviewer_id now k), ground arith)
  | inr n ↦ inl (λ s. ground arith, ground arith)
]

-- The status that an operation would move a request to.
abbrev pub target : Operation → VerificationStatus
target submitting = submitted
target starting_review = in_review
target reopening = pending_evidence
target (claiming _ _) = in_review
target (asking_more _ _) = needs_more_info
target (deciding outcome _ _) = status_of outcome

-- On a request with a terminal status every operation fails, with the invalid transition from
-- that status to the one that the operation aims at.
pub perform_terminal :
    (op : Operation) (now : ℕ) (r : VerificationRequest)
    → is_terminal r.status ≡ true
    → perform op now r ≡ err (invalid_status_transition r.status (target op))
unfolding perform is_terminal
perform_terminal submitting now r h = ground arith
perform_terminal _ now r h = ground arith
