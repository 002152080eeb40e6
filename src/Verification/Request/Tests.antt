-- ===== src/Verification/Request/Tests.antt =====
-- The life of one request, and the theorems about requests at it.
use verixa.Prelude.{ℕ, String, true, none, some, List, [], ◌∷◌, ◌≡◌, ◌≢◌, ◌↔◌, ◌⊎◌, refl, arith}
use verixa.Prelude.Number.{ℤ, finite}
use verixa.Kernel.Result.{ok, err, is_ok}
use verixa.Verification.Status.{in_review, approved, is_terminal, can_transition_to}
use verixa.Verification.Assignment.{ReviewAssignment}
use verixa.Verification.Request.{
  VerificationRequest, Operation, submitting, starting_review, claiming, deciding, Outcome, address,
  request, reconstitute, perform, decide, decided, claim_by, invalid_status_transition,
  review_claim_conflict, review_decision_not_permitted, is_some,
}
use verixa.Verification.Request.Consistency.{IsConsistent, reconstitute-ok_iff}
use verixa.Verification.Request.Decisions.{
  HoldsClaim, holds, decide-ok_iff, IsDecided, decide-err, target,
}
use verixa.Verification.Request.Claims.{claim_excludes, claim_lapses}
use verixa.Verification.Request.Trace.{
  run, owed, run-reconstitute, run_publishes_once, perform-can_transition_to,
}

abbrev life : List (Operation × ℕ)
life =
    (submitting, 1)
    ∷ (starting_review, 2)
    ∷ (claiming "ann" none, 3)
    ∷ (deciding Outcome.reject "bob" "no", 4)
    ∷ (deciding Outcome.approve "ann" "fine", 5)
    ∷ []

abbrev reviewed : VerificationRequest
reviewed = record {
  id = "r1";
  subject_user_id = "u1";
  organization_id = "o1";
  type = address;
  status = in_review;
  assignment = none;
  decision = none;
  needs_more_info_note = none;
  created_at = 0;
  updated_at = 2;
  domain_events = [];
}

abbrev anns : ReviewAssignment
anns = record { request_id = "r1"; reviewer_id = "ann"; assigned_at = 3; claim_expires_at = 103 }

abbrev claimed : VerificationRequest
claimed = record reviewed { assignment = some anns; updated_at = 3 }

claim_of_ann : claim_by "ann" 3 (some (finite (ℤ.pos 100))) reviewed ≡ ok claimed
unfolding claim_by
claim_of_ann = refl

life_approves : (run life (request "r1" "u1" "o1" address 0)).0.status ≡ approved
unfolding run perform request
life_approves = refl

reviewed-IsConsistent : IsConsistent reviewed
unfolding is_terminal
reviewed-IsConsistent = ground arith

ann-HoldsClaim : HoldsClaim claimed "ann" 50
ann-HoldsClaim = holds anns refl refl (omega arith)

abbrev fine : VerificationRequest
fine = decided Outcome.approve "ann" "fine" 50 claimed

decide-ok_iff_example : (decide Outcome.approve "ann" "fine" 50 claimed ≡ ok fine) ↔ (
    (claimed.status ≡ in_review)
    × HoldsClaim claimed "ann" 50
    × IsDecided Outcome.approve "ann" "fine" 50 claimed fine)
decide-ok_iff_example = decide-ok_iff Outcome.approve "ann" "fine" 50 claimed fine

bob_refused : decide Outcome.reject "bob" "no" 4 claimed ≡ err (review_decision_not_permitted "r1")
unfolding decide
bob_refused = refl

decide-err_example :
    ((claimed.status ≢ in_review)
      × (review_decision_not_permitted "r1"
          ≡ invalid_status_transition claimed.status (target (deciding Outcome.reject "bob" "no"))))
    ⊎ ((claimed.status ≡ in_review)
        × (¬ HoldsClaim claimed "bob" 4)
        × (review_decision_not_permitted "r1" ≡ review_decision_not_permitted claimed.id))
decide-err_example = decide-err Outcome.reject "bob" "no" 4 claimed bob_refused

fine_is_terminal : is_terminal fine.status ≡ true
unfolding is_terminal
fine_is_terminal = refl

abbrev bob : String
bob = "bob"

claim_excludes_example :
    (claim_by "bob" 102 none claimed ≡ err (review_claim_conflict "r1" "ann"))
    × (bob ≢ "ann"
        → decide Outcome.approve "bob" "mine" 102 claimed
          ≡ err (review_decision_not_permitted "r1"))
claim_excludes_example =
    claim_excludes "ann" 3 100 (finite (ℤ.pos 100)) reviewed refl claim_of_ann "bob" "mine"
      Outcome.approve none 102 (omega arith)

claim_lapses_example :
    (is_ok (claim_by "bob" 103 none claimed) ≡ true)
    × (decide Outcome.approve "ann" "late" 103 claimed ≡ err (review_decision_not_permitted "r1"))
claim_lapses_example =
    claim_lapses "ann" 3 100 (finite (ℤ.pos 100)) reviewed refl claim_of_ann "bob" "late"
      Outcome.approve 103 (omega arith)

reconstitute-ok_iff_example :
    (reconstitute reviewed ≡ ok reviewed) ↔ (IsConsistent reviewed × (reviewed ≡ reviewed))
reconstitute-ok_iff_example = reconstitute-ok_iff reviewed reviewed

run-reconstitute_example :
    let s = (run life (request "r1" "u1" "o1" address 0)).0 in
    reconstitute s ≡ ok (record s { domain_events = [] })
run-reconstitute_example = run-reconstitute "r1" "u1" "o1" address 0 life

run_publishes_once_example :
    let end = run life (request "r1" "u1" "o1" address 0) in end.1 ≡ owed end.0
run_publishes_once_example = run_publishes_once "r1" "u1" "o1" address 0 life

claim_performed : perform (claiming "ann" (some (finite (ℤ.pos 100)))) 3 reviewed ≡ ok claimed
unfolding perform
claim_performed = refl

perform-can_transition_to_example :
    (can_transition_to reviewed.status claimed.status ≡ true)
    ⊎ ((reviewed.status ≡ in_review)
        × (claimed.status ≡ in_review)
        × (is_some claimed.assignment ≡ true))
perform-can_transition_to_example =
    perform-can_transition_to (claiming "ann" (some (finite (ℤ.pos 100)))) 3 reviewed
      claim_performed
