-- ===== src/Shifts/Driving.antt =====
-- modules/shifts/src/domain/driving.ts and the assignments behind it: the definitions, and their
-- theorems by topic.
mod Defs
pub mod Vehicles
pub mod Permissions
pub mod Guards
unfoldable pub use Defs.*
