-- ===== src/RecordRun.antt =====
-- The reconciler of a BackupRecord: internal/controller/record_controller.go.
mod Verify
mod Finalize
mod Reconcile
pub mod Intact
pub mod Removed
pub mod Expired
unfoldable pub use Verify.*
unfoldable pub use Finalize.*
unfoldable pub use Reconcile.*
