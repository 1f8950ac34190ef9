-- ===== src/Auth.antt =====
-- packages/auth: which session counts, and what an actor may do.
pub mod Authorization
pub mod Session
pub mod Lockout
mod Examples
