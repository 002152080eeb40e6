-- ===== src/Verification/Request/Claims.antt =====
-- What a claim gives a reviewer, and for how long.
use verixa.Prelude.{ℕ, ◌+◌, ◌≤◌, ◌<◌, String, true, Option, none, some, ◌≡◌, ◌≢◌, arith, eq_iff}
use verixa.Prelude.Number.{Number, positive?}
use verixa.Kernel.Result.{ok, err, is_ok}
use verixa.Verification.Request.{
  VerificationRequest, review_claim_conflict, review_decision_not_permitted, Outcome, claim_by,
  decide, is_claimable_at,
}

module _ (holder : String) (claimed_at ttl : ℕ) (n : Number) (r : VerificationRequest)
    {s : VerificationRequest} (positive : positive? n ≡ some ttl)
    (claimed : claim_by holder claimed_at (some n) r ≡ ok s) where
  claim_by-expiry :
      s.assignment
      ≡ some (record {
        request_id = r.id;
        reviewer_id = holder;
        assigned_at = claimed_at;
        claim_expires_at = claimed_at + ttl;
      })
  unfolding claim_by
  claim_by-expiry = ground arith

  -- After a claim with a positive time to live succeeds, at every time before it expires another
  -- claim, by any reviewer, fails with a conflict that names the holder, and a decision by
  -- another reviewer fails as not permitted.
  pub claim_excludes :
      (other note : String) (outcome : Outcome) (again : Option Number) (now : ℕ)
      → now < claimed_at + ttl
      → (claim_by other now again s ≡ err (review_claim_conflict s.id holder))
        × (other ≢ holder
            → decide outcome other note now s ≡ err (review_decision_not_permitted s.id))
  unfolding claim_by decide
  claim_excludes other note outcome again now h =
      (ground arith, λ d. ground (arith, eq_iff holder other))

  -- After a claim with a positive time to live succeeds, at every time from its expiry on a
  -- claim with the default time to live succeeds for any reviewer, and a decision by the earlier
  -- holder fails as not permitted.
  pub claim_lapses :
      (other note : String) (outcome : Outcome) (now : ℕ)
      → claimed_at + ttl ≤ now
      → (is_ok (claim_by other now none s) ≡ true)
        × (decide outcome holder note now s ≡ err (review_decision_not_permitted s.id))
  unfolding claim_by decide
  claim_lapses other note outcome now h = (ground arith, ground arith)

-- A request is claimable at a time exactly when a claim with the default time to live succeeds
-- at that time.
pub is_claimable_at-claim_by :
    (reviewer_id : String) (now : ℕ) (r : VerificationRequest)
    → is_claimable_at r now ≡ is_ok (claim_by reviewer_id now none r)
unfolding claim_by is_claimable_at
is_claimable_at-claim_by reviewer_id now r = ground arith
