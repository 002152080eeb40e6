-- ===== src/Verification/Assignment.antt =====
-- packages/verification/domain/entities/review-assignment.ts: the expiring claim of a reviewer.
-- A `Date` is its `getTime()`, in milliseconds from the epoch.
use verixa.Prelude.{ℕ, ◌+◌, ◌*◌, String, Bool, not, Option, none, some, ltb, ◌==◌}
use verixa.Prelude.Number.{ℤ, Number, finite, positive?}
use verixa.Kernel.Result.{Result, ok, err}

-- `ValidationError`: the fields that it names.
pub data ValidationError : Type 0 where
  claim_ttl_ms_invalid : ValidationError

pub record ReviewAssignment : Type 0 where
  pub request_id : String
  pub reviewer_id : String
  pub assigned_at : ℕ
  pub claim_expires_at : ℕ

abbrev pub default_claim_ttl_ms : ℕ
default_claim_ttl_ms = 15 * 60 * 1000

-- `params.ttlMs ?? DEFAULT_CLAIM_TTL_MS`
abbrev ttl_or_default : Option Number → Number
ttl_or_default none = finite (ℤ.pos default_claim_ttl_ms)
ttl_or_default (some ttl) = ttl

abbrev with_ttl : String → String → ℕ → Option ℕ → Result ReviewAssignment ValidationError
with_ttl request_id reviewer_id assigned_at none = err claim_ttl_ms_invalid
with_ttl request_id reviewer_id assigned_at (some ttl) = ok (record {
  request_id = request_id;
  reviewer_id = reviewer_id;
  assigned_at = assigned_at;
  claim_expires_at = assigned_at + ttl;
})

unfoldable pub claim : String → String → ℕ → Option Number → Result ReviewAssignment ValidationError
claim request_id reviewer_id assigned_at ttl =
    with_ttl request_id reviewer_id assigned_at (positive? (ttl_or_default ttl))

abbrev pub is_active_at : ReviewAssignment → ℕ → Bool
is_active_at a now = ltb now a.claim_expires_at

abbrev pub is_expired_at : ReviewAssignment → ℕ → Bool
is_expired_at a now = not (is_active_at a now)

abbrev pub is_held_by : ReviewAssignment → String → Bool
is_held_by a reviewer_id = a.reviewer_id == reviewer_id
