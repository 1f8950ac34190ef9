-- ===== src/Billing/Entitlements.antt =====
-- packages/billing/src/entitlements.ts
pub mod Decisions
use text.Mathlib.Text.{◌==◌ as str_eq}
use aytrackerv.Prelude.{
  ℕ, ◌+◌, Bool, true, false, not, ◌&&◌, String, Option, none, some, List, [], ◌∷◌, any, filter, map,
  leb, if◌then◌else◌,
}
use aytrackerv.Prelude.Sort.{sort}
use aytrackerv.Domain.Errors.{Result, ok, ◌>>◌, throw_if, entitlement_required_error}
use aytrackerv.Domain.Time.{Instant}

pub record EntitlementRecord : Type 0 where
  pub feature_code : String
  pub is_enabled : Bool
  pub limit : Option ℕ
  pub expires_at : Option Instant

pub record EntitlementSnapshot : Type 0 where
  pub organization_id : ℕ
  pub entitlements : List EntitlementRecord
  pub market_blocked_features : List String
  pub resolved_at : Instant

-- `class Entitlements`, with the instant at which it was made.
pub record Entitlements : Type 0 where
  pub snapshot : EntitlementSnapshot
  pub now : Instant

abbrev first_of : Option EntitlementRecord → Option EntitlementRecord → Option EntitlementRecord
first_of none o = o
first_of (some e) o = some e

-- `byCode.get(code)`: the constructor fills the map in order, so the last record of a code counts.
unfoldable pub by_code : String → List EntitlementRecord → Option EntitlementRecord
by_code code [] = none
by_code code (e ∷ es) =
    let later = by_code code es in
    first_of later (if str_eq code e.feature_code then some e else none)

abbrev pub is_over : Option Instant → Instant → Bool
is_over none now = false
is_over (some at) now = leb at now

abbrev pub is_granted : Option EntitlementRecord → Instant → Bool
is_granted none now = false
is_granted (some e) now = e.is_enabled && not (is_over e.expires_at now)

unfoldable pub can : Entitlements → String → Bool
can this feature_code =
    if any (str_eq feature_code) this.snapshot.market_blocked_features
    then false
    else is_granted (by_code feature_code this.snapshot.entitlements) this.now

unfoldable pub require : Entitlements → String → Result (Unit {0})
require this feature_code = throw_if (not (can this feature_code)) entitlement_required_error

abbrev pub limit_of : Option EntitlementRecord → Option ℕ
limit_of none = none
limit_of (some e) = e.limit

unfoldable pub limit_for : Entitlements → String → Option ℕ
limit_for this feature_code =
    if not (can this feature_code)
    then none
    else limit_of (by_code feature_code this.snapshot.entitlements)

abbrev pub is_below : Option ℕ → ℕ → Bool
is_below none total = true
is_below (some limit) total = leb total limit

unfoldable pub can_add : Entitlements → String → ℕ → ℕ → Bool
unfolding limit_for
can_add this feature_code current_usage adding =
    if not (can this feature_code)
    then false
    else is_below (limit_for this feature_code) (current_usage + adding)

unfoldable pub require_capacity : Entitlements → String → ℕ → ℕ → Result (Unit {0})
unfolding require can_add
require_capacity this feature_code current_usage adding =
    require this feature_code
    >> throw_if (not (can_add this feature_code current_usage adding)) entitlement_required_error

-- `code_le` is the order of `sort()` on strings.
unfoldable pub enabled_feature_codes : (String → String → Bool) → Entitlements → List String
enabled_feature_codes code_le this =
    sort code_le (filter (can this) (map (λ e. e.feature_code) this.snapshot.entitlements))
