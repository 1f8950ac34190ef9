-- ===== src/Shifts/Shift.antt =====
-- modules/shifts/src/domain/shift.ts: the definitions, and their theorems by topic.
mod Defs
pub mod Transitions
pub mod Duration
pub mod Clocks
unfoldable pub use Defs.*
