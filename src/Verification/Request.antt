-- ===== src/Verification/Request.antt =====
-- packages/verification/domain/entities/verification-request.ts: the aggregate root. A method
-- returns the new aggregate or an error. `new Date()` and `createId()` are arguments.
pub mod Consistency
pub mod Decisions
pub mod Claims
pub mod Trace
mod Tests
use verixa.Prelude.{
  ℕ, String, Bool, true, false, not, ◌&&◌, ◌||◌, List, [], ◌∷◌, Option, none, some, if◌then◌else◌,
}
use verixa.Prelude.Number.{Number}
use verixa.Kernel.Result.{Result, ok, err, ◌>>=◌}
use verixa.Verification.Status.{
  VerificationStatus, pending_evidence, submitted, in_review, needs_more_info, approved, rejected,
  equals, includes, terminal_statuses, can_transition_to,
}
use verixa.Verification.Assignment
use verixa.Verification.Assignment.{
  ReviewAssignment, ValidationError, is_active_at, is_expired_at, is_held_by,
}

pub data VerificationType : Type 0 where
  identity_document address liveness : VerificationType

-- The two values of `VerificationDecisionValue`.
pub data Outcome : Type 0 where
  approve reject : Outcome

abbrev pub status_of : Outcome → VerificationStatus
status_of approve = approved
status_of reject = rejected

pub record VerificationDecision : Type 0 where
  pub decided_by : String
  pub decided_at : ℕ
  pub note : String

pub record VerificationDecided : Type 0 where
  pub request_id : String
  pub subject_user_id : String
  pub organization_id : String
  pub verification_type : VerificationType
  pub decision : Outcome
  pub decided_by : String
  pub decided_at : ℕ
  pub note : String

pub record VerificationRequest : Type 0 where
  pub id : String
  pub subject_user_id : String
  pub organization_id : String
  pub type : VerificationType
  pub status : VerificationStatus
  pub assignment : Option ReviewAssignment
  pub decision : Option VerificationDecision
  pub needs_more_info_note : Option String
  pub created_at : ℕ
  pub updated_at : ℕ
  pub domain_events : List VerificationDecided

pub data RequestError : Type 0 where
  invalid_status_transition : VerificationStatus → VerificationStatus → RequestError
  review_claim_conflict : String → String → RequestError
  review_decision_not_permitted : String → RequestError
  validation : ValidationError → RequestError

-- The three `throw new Error` of `reconstitute`.
pub data IntegrityError : Type 0 where
  decision_mismatch note_mismatch assignment_mismatch : IntegrityError

abbrev pub is_some {ℓ} : {A : Type ℓ} → Option A → Bool
is_some none = false
is_some (some _) = true

-- `!==` on booleans.
abbrev differ : Bool → Bool → Bool
differ true b = not b
differ false b = b

pub request : String → String → String → VerificationType → ℕ → VerificationRequest
request id subject_user_id organization_id type now = record {
  id = id;
  subject_user_id = subject_user_id;
  organization_id = organization_id;
  type = type;
  status = pending_evidence;
  assignment = none;
  decision = none;
  needs_more_info_note = none;
  created_at = now;
  updated_at = now;
  domain_events = [];
}

pub reconstitute : VerificationRequest → Result VerificationRequest IntegrityError
reconstitute props =
    if differ (includes terminal_statuses props.status) (is_some props.decision)
    then err decision_mismatch
    else if differ (equals props.status needs_more_info) (is_some props.needs_more_info_note)
    then err note_mismatch
    else if is_some props.assignment && not (equals props.status in_review)
    then err assignment_mismatch
    else ok (record props { domain_events = [] })

abbrev expired_or_free : Option ReviewAssignment → ℕ → Bool
expired_or_free none now = true
expired_or_free (some a) now = is_expired_at a now

pub is_claimable_at : VerificationRequest → ℕ → Bool
is_claimable_at r now =
    if not (equals r.status in_review) then false else expired_or_free r.assignment now

-- `copy({ status })` stamps the clock and drops the pending events.
transition_to :
    VerificationStatus → ℕ → VerificationRequest → Result VerificationRequest RequestError
unfolding can_transition_to
transition_to next now r =
    if not (can_transition_to r.status next)
    then err (invalid_status_transition r.status next)
    else ok (record r { status = next; updated_at = now; domain_events = [] })

pub submit : ℕ → VerificationRequest → Result VerificationRequest RequestError
unfolding transition_to
submit now r = transition_to submitted now r

pub start_review : ℕ → VerificationRequest → Result VerificationRequest RequestError
unfolding transition_to
start_review now r = transition_to in_review now r

pub reopen_for_evidence : ℕ → VerificationRequest → Result VerificationRequest RequestError
unfolding transition_to
reopen_for_evidence now r = transition_to pending_evidence now r >>= λ t.
    ok (record t { needs_more_info_note = none; updated_at = now; domain_events = [] })

abbrev held_at : Option ReviewAssignment → ℕ → Option String
held_at none now = none
held_at (some a) now = if is_active_at a now then some a.reviewer_id else none

abbrev take_claim :
    VerificationRequest
    → ℕ
    → Result ReviewAssignment ValidationError
    → Result VerificationRequest RequestError
take_claim r now (err e) = err (validation e)
take_claim r now (ok a) =
    ok (record r { assignment = some a; updated_at = now; domain_events = [] })

pub claim_by :
    String → ℕ → Option Number → VerificationRequest → Result VerificationRequest RequestError
unfolding Assignment.claim
claim_by reviewer_id now ttl r =
    if not (equals r.status in_review)
    then err (invalid_status_transition r.status in_review)
    else elim (held_at r.assignment now) [
      | some holder ↦ err (review_claim_conflict r.id holder)
      | none ↦ take_claim r now (Assignment.claim r.id reviewer_id now ttl)
    ]

-- `decisionNotPermitted(…) === undefined`
pub decision_permitted : Option ReviewAssignment → String → ℕ → Bool
decision_permitted none reviewer_id now = false
decision_permitted (some a) reviewer_id now = is_active_at a now && is_held_by a reviewer_id

pub request_more_information :
    String → String → ℕ → VerificationRequest → Result VerificationRequest RequestError
unfolding decision_permitted can_transition_to
request_more_information reviewer_id note now r =
    if not (can_transition_to r.status needs_more_info)
    then err (invalid_status_transition r.status needs_more_info)
    else if not (decision_permitted r.assignment reviewer_id now)
    then err (review_decision_not_permitted r.id)
    else ok (record r {
      status = needs_more_info;
      assignment = none;
      needs_more_info_note = some note;
      updated_at = now;
      domain_events = [];
    })

abbrev pub decided_event : Outcome → String → String → ℕ → VerificationRequest → VerificationDecided
decided_event outcome reviewer_id note now r = record {
  request_id = r.id;
  subject_user_id = r.subject_user_id;
  organization_id = r.organization_id;
  verification_type = r.type;
  decision = outcome;
  decided_by = reviewer_id;
  decided_at = now;
  note = note;
}

abbrev pub decided : Outcome → String → String → ℕ → VerificationRequest → VerificationRequest
decided outcome reviewer_id note now r = record r {
  status = status_of outcome;
  assignment = none;
  decision = some (record { decided_by = reviewer_id; decided_at = now; note = note });
  updated_at = now;
  domain_events = decided_event outcome reviewer_id note now r ∷ [];
}

-- `approve` and `reject` are `decide` at their outcome.
pub decide :
    Outcome → String → String → ℕ → VerificationRequest → Result VerificationRequest RequestError
unfolding decision_permitted can_transition_to
decide outcome reviewer_id note now r =
    if not (can_transition_to r.status (status_of outcome))
    then err (invalid_status_transition r.status (status_of outcome))
    else if not (decision_permitted r.assignment reviewer_id now)
    then err (review_decision_not_permitted r.id)
    else ok (decided outcome reviewer_id note now r)

-- The operations of the aggregate, as one type, for statements about all of them.
pub data Operation : Type 0 where
  submitting starting_review reopening : Operation
  claiming : String → Option Number → Operation
  asking_more : String → String → Operation
  deciding : Outcome → String → String → Operation

pub perform : Operation → ℕ → VerificationRequest → Result VerificationRequest RequestError
unfolding submit start_review reopen_for_evidence claim_by request_more_information decide
perform submitting now r = submit now r
perform starting_review now r = start_review now r
perform reopening now r = reopen_for_evidence now r
perform (claiming reviewer_id ttl) now r = claim_by reviewer_id now ttl r
perform (asking_more reviewer_id note) now r = request_more_information reviewer_id note now r
perform (deciding outcome reviewer_id note) now r = decide outcome reviewer_id note now r
