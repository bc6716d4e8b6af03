-- ===== src/PolicyRun.antt =====
-- The reconciler of a BackupPolicy: internal/controller/policy_controller.go, and the names of the
-- tasks that it creates (internal/scheduler/scheduler.go).
pub mod Name
mod Tasks
mod Loop
mod Reconcile
pub mod Concurrency
pub mod Window
pub mod Replace
pub mod Coverage
unfoldable pub use Tasks.*
unfoldable pub use Loop.*
unfoldable pub use Reconcile.*
