-- ===== src/Scheduler.antt =====
-- internal/scheduler/scheduler.go: when a policy is due.
mod Defs
pub mod Due
unfoldable pub use Defs.*
