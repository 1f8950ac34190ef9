-- ===== src/Billing/Examples.antt =====
-- Runs of the rules of entitlements, and their theorems at concrete inputs.
use text.Mathlib.Text.{◌==◌ as str_eq}
use aytrackerv.Prelude.{◌≡◌, ◌↔◌, refl, true, false, some, [], ◌∷◌, any}
use aytrackerv.Domain.Errors.{is_ok}
use aytrackerv.Billing.Entitlements.{
  Entitlements, EntitlementRecord, by_code, can, require, can_add, limit_for, require_capacity,
}
use aytrackerv.Billing.Entitlements.Decisions.{HasRoom, IsGranted, require_capacity_iff}

abbrev portal : EntitlementRecord
portal = record {
  feature_code = "driver.portal";
  is_enabled = true;
  limit = some 5;
  expires_at = some 900;
}

-- The later record of a code counts.
abbrev plan : Entitlements
plan = record {
  snapshot = record {
    organization_id = 1;
    entitlements = record portal { limit = some 2 } ∷ portal ∷ [];
    market_blocked_features = "ai.assistant" ∷ [];
    resolved_at = 0;
  };
  now = 100;
}

fifth_driver : is_ok (require_capacity plan "driver.portal" 4 1) ≡ true
unfolding require_capacity require can_add can limit_for by_code
fifth_driver = refl

sixth_driver : is_ok (require_capacity plan "driver.portal" 5 1) ≡ false
unfolding require_capacity require can_add can limit_for by_code
sixth_driver = refl

require_capacity_iff_example : (is_ok (require_capacity plan "driver.portal" 4 1) ≡ true) ↔ (
    (any (str_eq "driver.portal") ("ai.assistant" ∷ []) ≡ false)
    × ((e : EntitlementRecord) × (by_code "driver.portal" plan.snapshot.entitlements ≡ some e)
        × IsGranted plan e
        × HasRoom e.limit 5))
require_capacity_iff_example = require_capacity_iff plan "driver.portal" 4 1
