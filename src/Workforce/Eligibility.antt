-- ===== src/Workforce/Eligibility.antt =====
-- modules/workforce/src/domain/eligibility.ts: the definitions, and what they decide.
mod Defs
pub mod Decision
pub mod Picker
unfoldable pub use Defs.*
