-- ===== src/Billing.antt =====
-- packages/billing: what the plan of an organization grants.
pub mod Entitlements
pub mod Rollout
mod Examples
