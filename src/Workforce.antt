-- ===== src/Workforce.antt =====
-- modules/workforce: who may work at which position.
pub mod Eligibility
mod Examples
