-- ===== src/Domain.antt =====
-- packages/domain: the error vocabulary and the arithmetic of time.
pub mod Errors
pub mod Numbers
pub mod Time
pub mod Money
mod Examples
mod MoneyExamples
