-- ===== src/Restore.antt =====
-- Restore planning: internal/restore/plan.go and conflict.go.
mod Conflict
mod Plan
pub mod Namespaces
pub mod Items
pub mod Actions
unfoldable pub use Conflict.*
unfoldable pub use Plan.*
