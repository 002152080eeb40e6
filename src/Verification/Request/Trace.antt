-- ===== src/Verification/Request/Trace.antt =====
-- A request over its whole life: the operations that clients call on it, in any order and at any
-- time, a refused one leaving it as it was, with the events that are pulled after each success.
use verixa.Prelude.{
  ℕ, String, true, Option, none, some, List, [], ◌∷◌, ◌++◌, ◌≡◌, refl, arith, ◌⊎◌, sym, ap, ◌∙◌,
}
use mathlib.Core.List.{append-nil, append_assoc}
use verixa.Kernel.Result.{Result, ok, err}
use verixa.Verification.Status.{
  VerificationStatus, approved, in_review, is_terminal, can_transition_to,
}
use verixa.Verification.Request.{
  VerificationRequest, VerificationType, VerificationDecided, VerificationDecision, RequestError,
  Operation, Outcome, submitting, request, reconstitute, perform, is_some,
}
use verixa.Verification.Request.Consistency.{
  IsConsistent, perform-IsConsistent, reconstitute_of_IsConsistent,
}

abbrev after : VerificationRequest → Result VerificationRequest RequestError → VerificationRequest
after r (ok s) = s
after r (err e) = r

abbrev published : Result VerificationRequest RequestError → List VerificationDecided
published (ok s) = s.domain_events
published (err e) = []

-- The request at the end of a run, and the events that the run published, in order.
unfoldable pub run :
    List (Operation × ℕ) → VerificationRequest → VerificationRequest × List VerificationDecided
run [] r = (r, [])
run ((op, now) ∷ ops) r =
    let rest = run ops (after r (perform op now r)) in
    (rest.0, published (perform op now r) ++ rest.1)

abbrev outcome_of : VerificationStatus → Outcome
outcome_of approved = Outcome.approve
outcome_of _ = Outcome.reject

-- The events that a request in its present state must have published: one for a recorded
-- decision, with the decision's content, and none before it.
abbrev decision_events :
    VerificationRequest → Option VerificationDecision → List VerificationDecided
decision_events r none = []
decision_events r (some d) =
    record {
      request_id = r.id;
      subject_user_id = r.subject_user_id;
      organization_id = r.organization_id;
      verification_type = r.type;
      decision = outcome_of r.status;
      decided_by = d.decided_by;
      decided_at = d.decided_at;
      note = d.note;
    }
    ∷ []

abbrev pub owed : VerificationRequest → List VerificationDecided
owed r = decision_events r r.decision

perform-owed :
    (op : Operation) (now : ℕ) (r : VerificationRequest)
    → IsConsistent r
    → owed r ++ published (perform op now r) ≡ owed (after r (perform op now r))
unfolding perform is_terminal
perform-owed submitting now r c = ground arith
perform-owed _ now r c = ground arith

after-IsConsistent :
    (op : Operation) (now : ℕ) (r : VerificationRequest)
    → IsConsistent r
    → IsConsistent (after r (perform op now r))
after-IsConsistent op now r c = go (perform op now r) refl
  where
    go :
        (m : Result VerificationRequest RequestError)
        → perform op now r ≡ m
        → IsConsistent (after r m)
    go (ok s) e = perform-IsConsistent op now r c e
    go (err x) e = c

run-IsConsistent :
    (ops : List (Operation × ℕ)) (r : VerificationRequest)
    → IsConsistent r
    → IsConsistent (run ops r).0
unfolding run
run-IsConsistent [] r c = c
run-IsConsistent ((op, now) ∷ ops) r c =
    run-IsConsistent ops (after r (perform op now r)) (after-IsConsistent op now r c)

run-owed :
    (ops : List (Operation × ℕ)) (r : VerificationRequest)
    → IsConsistent r
    → owed r ++ (run ops r).1 ≡ owed (run ops r).0
unfolding run
run-owed [] r c = append-nil (owed r)
run-owed ((op, now) ∷ ops) r c =
    let s = after r (perform op now r) in
    sym (append_assoc (owed r) (published (perform op now r)) (run ops s).1)
    ∙ ap (λ l. l ++ (run ops s).1) (perform-owed op now r c)
    ∙ run-owed ops s (after-IsConsistent op now r c)

module _ (id subject_user_id organization_id : String) (type : VerificationType) (opened_at : ℕ)
    (ops : List (Operation × ℕ)) where
  abbrev opened : VerificationRequest
  opened = request id subject_user_id organization_id type opened_at

  opened-IsConsistent : IsConsistent opened
  unfolding request is_terminal
  opened-IsConsistent = ground arith

  -- After any sequence of operations at any times on a newly opened request, the integrity
  -- checks of reconstitute accept the request and give it back without its pending events.
  pub run-reconstitute :
      let s = (run ops opened).0 in reconstitute s ≡ ok (record s { domain_events = [] })
  run-reconstitute =
      reconstitute_of_IsConsistent _ (run-IsConsistent ops opened opened-IsConsistent)

  -- Over any sequence of operations at any times on a newly opened request, refused ones
  -- included, the events that are published are exactly the one event of the recorded decision,
  -- with its content, or none when there is no decision.
  pub run_publishes_once : (run ops opened).1 ≡ owed (run ops opened).0
  unfolding request
  run_publishes_once = run-owed ops opened opened-IsConsistent

-- When an operation on a request succeeds, the status before and the status after are an edge of
-- the table of transitions, or both are in-review and the result is claimed.
pub perform-can_transition_to :
    (op : Operation) (now : ℕ) (r : VerificationRequest) {s : VerificationRequest}
    → perform op now r ≡ ok s
    → (can_transition_to r.status s.status ≡ true)
      ⊎ ((r.status ≡ in_review) × (s.status ≡ in_review) × (is_some s.assignment ≡ true))
unfolding perform
perform-can_transition_to submitting now r h = ground arith
perform-can_transition_to _ now r h = ground arith
