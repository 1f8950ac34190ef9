-- ===== src/Drivers/Trip.antt =====
-- modules/drivers/src/domain/trip.ts: the definitions, and their theorems by topic.
mod Defs
pub mod Totals
pub mod Pauses
unfoldable pub use Defs.*
