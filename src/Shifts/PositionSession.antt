-- ===== src/Shifts/PositionSession.antt =====
-- modules/shifts/src/domain/position-session.ts: the definitions, and their theorems by topic.
mod Defs
pub mod Plans
pub mod Summary
pub mod Switching
pub mod Corrections
unfoldable pub use Defs.*
