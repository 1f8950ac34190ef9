-- ===== src/Fleet.antt =====
-- modules/fleet: which documents run out, and who may take a vehicle.
pub mod Expiration
pub mod Assignment
mod Examples
