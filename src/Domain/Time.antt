-- ===== src/Domain/Time.antt =====
-- packages/domain/src/time.ts: the definitions, and what the merged total of intervals means.
mod Defs
pub mod Coverage
pub mod Rounding
unfoldable pub use Defs.*
