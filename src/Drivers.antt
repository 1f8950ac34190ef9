-- ===== src/Drivers.antt =====
-- modules/drivers: the life of a trip and its totals.
pub mod Trip
pub mod Store
pub mod Commands
mod Examples
