-- ===== src/Verification/Request/Consistency.antt =====
-- The agreement between the fields of a request that `reconstitute` checks of a stored row.
use verixa.Prelude.{◌↔◌, ◌∙◌, ap, sym, ℕ, true, ◌≡◌, [], arith}
use verixa.Kernel.Result.{ok}
use verixa.Verification.Status.{in_review, needs_more_info, is_terminal, equals}
use verixa.Verification.Request.{
  VerificationRequest, Operation, submitting, is_some, reconstitute, perform,
}

pub record IsConsistent (r : VerificationRequest) : Type 0 where
  pub decided : is_some r.decision ≡ is_terminal r.status
  pub noted : is_some r.needs_more_info_note ≡ equals r.status needs_more_info
  pub claimed : is_some r.assignment ≡ true → r.status ≡ in_review

reconstitute-ok :
    (r : VerificationRequest) {s : VerificationRequest}
    → reconstitute r ≡ ok s
    → IsConsistent r × (s ≡ record r { domain_events = [] })
unfolding reconstitute is_terminal
reconstitute-ok r h = ground arith

pub reconstitute_of_IsConsistent :
    (r : VerificationRequest)
    → IsConsistent r
    → reconstitute r ≡ ok (record r { domain_events = [] })
unfolding reconstitute is_terminal
reconstitute_of_IsConsistent r h = ground arith

-- The reconstitution of a request gives s exactly when a decision is recorded just for the
-- terminal statuses, a note just for needs-more-info, and a claim only for a request in review,
-- and s is the request without its pending events.
pub reconstitute-ok_iff :
    (r s : VerificationRequest)
    → (reconstitute r ≡ ok s) ↔ (IsConsistent r × (s ≡ record r { domain_events = [] }))
reconstitute-ok_iff r s =
    (reconstitute-ok r, λ c. reconstitute_of_IsConsistent r c.0 ∙ ap ok (sym c.1))

pub perform-IsConsistent :
    (op : Operation) (now : ℕ) (r : VerificationRequest) {s : VerificationRequest}
    → IsConsistent r
    → perform op now r ≡ ok s
    → IsConsistent s
unfolding perform is_terminal
perform-IsConsistent submitting now r c h = ground arith
perform-IsConsistent _ now r c h = ground arith
