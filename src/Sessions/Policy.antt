-- ===== src/Sessions/Policy.antt =====
-- packages/sessions/domain/value-objects/session-expiry-policy.ts
mod Tests
use verixa.Prelude.{
  ℕ, zero, suc, ◌+◌, ◌*◌, ◌≤◌, ◌<◌, Bool, true, false, not, ◌&&◌, List, [], ◌∷◌, ◌++◌, Option, none,
  some, ltb, leb, if◌then◌else◌, ◌≡◌, refl, arith,
}
use verixa.Prelude.Number.{ℤ, pos, negsuc, Number, finite, non_finite, positive?}
use verixa.Kernel.Result.{Result, ok, err}

pub record SessionExpiryPolicy : Type 0 where
  pub refresh_token_ttl_ms : ℕ
  pub access_token_ttl_ms : ℕ
  pub absolute_lifetime_ms : ℕ
  pub idle_timeout_ms : ℕ

-- The argument of `create`, before validation.
pub record SessionExpiryPolicyProps : Type 0 where
  pub refresh_token_ttl_ms : Number
  pub access_token_ttl_ms : Number
  pub absolute_lifetime_ms : Number
  pub idle_timeout_ms : Number

pub data Field : Type 0 where
  refresh_token_ttl access_token_ttl absolute_lifetime idle_timeout : Field

pub data Problem : Type 0 where
  not_positive longer_than_refresh : Problem

-- The entries of `fieldErrors`: a field with a problem of it.
abbrev pub FieldErrors : Type 0
FieldErrors = List (Field × Problem)

abbrev positive_errors : Field → Number → FieldErrors
positive_errors f n = elim (positive? n) [ none ↦ (f, not_positive) ∷ [] | some _ ↦ [] ]

-- `a > b` on integers.
abbrev gtb_ℤ : ℤ → ℤ → Bool
gtb_ℤ (pos a) (pos b) = ltb b a
gtb_ℤ (pos a) (negsuc b) = true
gtb_ℤ (negsuc a) (pos b) = false
gtb_ℤ (negsuc a) (negsuc b) = ltb a b

abbrev exceeds : Number → Number → Bool
exceeds (finite a) (finite b) = gtb_ℤ a b
exceeds (finite a) non_finite = false
exceeds non_finite b = false

abbrev order_errors : Number → Number → FieldErrors
order_errors access refresh =
    if exceeds access refresh then (access_token_ttl, longer_than_refresh) ∷ [] else []

abbrev field_errors : SessionExpiryPolicyProps → FieldErrors
field_errors p =
    positive_errors refresh_token_ttl p.refresh_token_ttl_ms
    ++ (positive_errors access_token_ttl p.access_token_ttl_ms
        ++ (positive_errors absolute_lifetime p.absolute_lifetime_ms
            ++ (positive_errors idle_timeout p.idle_timeout_ms
                ++ order_errors p.access_token_ttl_ms p.refresh_token_ttl_ms)))

-- The value of a number that the validation has let through.
abbrev value_of : Number → ℕ
value_of (finite (pos n)) = n
value_of (finite (negsuc _)) = 0
value_of non_finite = 0

pub create : SessionExpiryPolicyProps → Result SessionExpiryPolicy FieldErrors
create p = elim (field_errors p) [
  | e ∷ es ↦ err (e ∷ es)
  | [] ↦ ok (record {
    refresh_token_ttl_ms = value_of p.refresh_token_ttl_ms;
    access_token_ttl_ms = value_of p.access_token_ttl_ms;
    absolute_lifetime_ms = value_of p.absolute_lifetime_ms;
    idle_timeout_ms = value_of p.idle_timeout_ms;
  })
]

abbrev days : ℕ → Number
days n = finite (pos (n * 24 * 60 * 60 * 1000))

abbrev pub default_props : SessionExpiryPolicyProps
default_props = record {
  access_token_ttl_ms = finite (pos (15 * 60 * 1000));
  refresh_token_ttl_ms = days 30;
  absolute_lifetime_ms = days 30;
  idle_timeout_ms = days 7;
}

abbrev pub absolute_expiry_from : SessionExpiryPolicy → ℕ → ℕ
absolute_expiry_from p opened_at = opened_at + p.absolute_lifetime_ms

abbrev pub refresh_token_expiry_from : SessionExpiryPolicy → ℕ → ℕ
refresh_token_expiry_from p issued_at = issued_at + p.refresh_token_ttl_ms

-- `now - lastSeenAt >= idleTimeoutMs`, with no subtraction.
abbrev pub is_idle_expired : SessionExpiryPolicy → ℕ → ℕ → Bool
is_idle_expired p last_seen_at now = leb (last_seen_at + p.idle_timeout_ms) now

-- A policy that `create` returns has positive durations, and access tokens that do not outlive
-- refresh tokens.
pub record IsValid (p : SessionExpiryPolicy) : Type 0 where
  pub refresh : 0 < p.refresh_token_ttl_ms
  pub access : 0 < p.access_token_ttl_ms
  pub lifetime : 0 < p.absolute_lifetime_ms
  pub idle : 0 < p.idle_timeout_ms
  pub order : p.access_token_ttl_ms ≤ p.refresh_token_ttl_ms

-- A policy that passes validation has four positive durations, and an access token lives no
-- longer in it than a refresh token.
pub create-IsValid :
    (props : SessionExpiryPolicyProps) {p : SessionExpiryPolicy} → create props ≡ ok p → IsValid p
unfolding create
create-IsValid props h = ground arith

-- The defaults pass the validation: the `throw` of `default()` is not reached.
pub default_policy_valid : (p : SessionExpiryPolicy) × (create default_props ≡ ok p)
unfolding create
default_policy_valid = (_, refl)
