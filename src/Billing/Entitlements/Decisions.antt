-- ===== src/Billing/Entitlements/Decisions.antt =====
-- What an organization may use, and how much of it.
use text.Mathlib.Text.{◌==◌ as str_eq}
use aytrackerv.Prelude.{ℕ, ◌+◌, ◌≤◌, ◌≡◌, ◌↔◌, true, false, String, Option, none, some, arith, any}
use aytrackerv.Domain.Errors.{is_ok}
use aytrackerv.Billing.Entitlements.{
  Entitlements, EntitlementRecord, by_code, can, require_capacity, require, can_add, limit_for,
  is_over,
}

-- The limit of the record, if it has one, has room for the total.
abbrev pub HasRoom : Option ℕ → ℕ → Type 0
HasRoom none total = Unit
HasRoom (some limit) total = total ≤ limit

-- The record is enabled, and it is not over.
abbrev pub IsGranted : Entitlements → EntitlementRecord → Type 0
IsGranted this e = (e.is_enabled ≡ true) × (is_over e.expires_at this.now ≡ false)

-- Capacity is granted exactly if the market does not block the feature and the last record of its
-- code is enabled, is not over, and has room for what is there already and what is added.
pub require_capacity_iff :
    (this : Entitlements) (code : String) (usage adding : ℕ)
    → (is_ok (require_capacity this code usage adding) ≡ true) ↔ (
        (any (str_eq code) this.snapshot.market_blocked_features ≡ false)
        × ((e : EntitlementRecord) × (by_code code this.snapshot.entitlements ≡ some e)
            × IsGranted this e
            × HasRoom e.limit (usage + adding)))
unfolding require_capacity require can_add can limit_for
require_capacity_iff this code usage adding = ((λ h. ground arith), (λ h. ground arith))
