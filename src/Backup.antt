-- ===== src/Backup.antt =====
-- The reconciler of a BackupTask: internal/controller/backup_controller.go and common.go.
mod Phases
mod Status
mod Stages
mod Validate
mod Reconcile
unfoldable pub use Phases.*
unfoldable pub use Status.*
unfoldable pub use Stages.*
unfoldable pub use Validate.*
unfoldable pub use Reconcile.*
