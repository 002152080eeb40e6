-- ===== src/Kernel/Result.antt =====
-- `Result<T, E>` of packages/shared-kernel/domain/result.ts.
use verixa.Prelude.{if◌then◌else◌, arith, Bool, true, false, ◌≡◌, ◌⊎◌, inl, inr, refl}

pub data Result {ℓ κ} (A : Type ℓ) (E : Type κ) : Type (ℓ ⊔ κ) where
  ok : A → Result A E
  err : E → Result A E

module _ {ℓ κ} {A : Type ℓ} {E : Type κ} where
  abbrev pub is_ok : Result A E → Bool
  is_ok (ok a) = true
  is_ok (err e) = false

-- `flatMap`, and the pattern `if (Result.isErr(r)) return r;` of the callers.
infixl 5 ◌>>=◌
abbrev pub ◌>>=◌ {ℓ κ μ} :
    {A : Type ℓ} {B : Type κ} {E : Type μ} → Result A E → (A → Result B E) → Result B E
ok a >>= f = f a
err e >>= f = err e

pub Result-cases {ℓ κ} :
    {A : Type ℓ} {E : Type κ} (r : Result A E) → ((a : A) × (r ≡ ok a)) ⊎ ((e : E) × (r ≡ err e))
Result-cases (ok a) = inl (a, refl)
Result-cases (err e) = inr (e, refl)

module _ {ℓ κ μ} {A : Type ℓ} {B : Type κ} {E : Type μ} where
  -- A chain that succeeds has succeeded at its first link.
  pub bind_ok :
      (r : Result A E) (f : A → Result B E) (b : B)
      → r >>= f ≡ ok b
      → (a : A) × (r ≡ ok a) × (f a ≡ ok b)
  bind_ok (ok a) f b h = (a, refl, h)
  bind_ok (err e) f b h = absurd (ground arith)

pub ok_injective {ℓ κ} :
    {A : Type ℓ} {E : Type κ} (a b : A) → ◌≡◌ {A = Result A E} (ok a) (ok b) → a ≡ b
ok_injective a b e = ground arith

pub if_ok {ℓ κ} :
    {A : Type ℓ} {E : Type κ} (refused : Bool) (e : E) (r : Result A E) (a : A)
    → (if refused then err e else r) ≡ ok a
    → r ≡ ok a
if_ok true e r a h = absurd (ground arith)
if_ok false e r a h = h
