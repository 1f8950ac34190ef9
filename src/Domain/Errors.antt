-- ===== src/Domain/Errors.antt =====
-- packages/domain/src/errors.ts. An exception is a value: what throws returns a `Result`. Of a
-- `DomainError` its kind and its code are kept; the developer's message and the details are not.
use aytrackerv.Prelude.{ℕ, ◌≡◌, refl, Bool, true, false, String}

pub data DomainErrorKind : Type 0 where
  validation not_found conflict forbidden unauthenticated precondition_failed : DomainErrorKind
  rate_limited entitlement_required internal : DomainErrorKind

pub record DomainError : Type 0 where
  pub kind : DomainErrorKind
  pub code : String

abbrev pub validation_error : String → DomainError
validation_error c = record { kind = validation; code = c }

abbrev pub not_found_error : String → DomainError
not_found_error c = record { kind = not_found; code = c }

abbrev pub conflict_error : String → DomainError
conflict_error c = record { kind = conflict; code = c }

abbrev pub forbidden_error : String → DomainError
forbidden_error c = record { kind = forbidden; code = c }

abbrev pub unauthenticated_error : DomainError
unauthenticated_error = record { kind = unauthenticated; code = "auth.unauthenticated" }

abbrev pub precondition_failed_error : String → DomainError
precondition_failed_error c = record { kind = precondition_failed; code = c }

abbrev pub entitlement_required_error : DomainError
entitlement_required_error = record { kind = entitlement_required; code = "entitlement.required" }

unfoldable pub http_status_for_kind : DomainErrorKind → ℕ
http_status_for_kind validation = 400
http_status_for_kind unauthenticated = 401
http_status_for_kind forbidden = 403
http_status_for_kind entitlement_required = 403
http_status_for_kind not_found = 404
http_status_for_kind conflict = 409
http_status_for_kind precondition_failed = 422
http_status_for_kind rate_limited = 429
http_status_for_kind internal = 500

-- What code returns that may throw instead.
pub data Result {ℓ} (A : Type ℓ) : Type ℓ where
  err : DomainError → Result A
  ok : A → Result A

infixl 5 ◌>>◌ ◌>>=◌
-- A statement, and what follows it unless it throws.
abbrev pub ◌>>◌ {ℓ} : {B : Type ℓ} → Result (Unit {0}) → Result B → Result B
err thrown >> rest = err thrown
ok _ >> rest = rest

-- The same, where what follows uses the value.
abbrev pub ◌>>=◌ {κ ℓ} : {B : Type κ} {A : Type ℓ} → Result A → (A → Result B) → Result B
err thrown >>= rest = err thrown
ok value >>= rest = rest value

-- `if (c) throw e;`
abbrev pub throw_if : Bool → DomainError → Result (Unit {0})
throw_if true e = err e
throw_if false e = ok tt

abbrev pub is_ok {ℓ} : {A : Type ℓ} → Result A → Bool
is_ok (ok _) = true
is_ok (err _) = false

-- What did not throw ran its first part, and then the rest on what that returned.
pub bind_ran {ℓ κ} :
    {A : Type ℓ} {B : Type κ} (first : Result A) (rest : A → Result B) {result : B}
    → (first >>= rest) ≡ ok result
    → (value : A) × (first ≡ ok value) × (rest value ≡ ok result)
bind_ran (err thrown) rest h = cc
bind_ran (ok value) rest h = (value, refl, h)

pub then_ran {ℓ} :
    {B : Type ℓ} (first : Result (Unit {0})) (rest : Result B) {result : B}
    → (first >> rest) ≡ ok result
    → (first ≡ ok tt) × (rest ≡ ok result)
then_ran (err thrown) rest h = cc
then_ran (ok tt) rest h = (refl, h)
