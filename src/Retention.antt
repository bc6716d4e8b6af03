-- ===== src/Retention.antt =====
-- internal/retention/retention.go: which records of a policy are deleted.
mod Defs
pub mod Kept
pub mod Bounds
unfoldable pub use Defs.*
