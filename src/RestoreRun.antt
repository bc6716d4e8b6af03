-- ===== src/RestoreRun.antt =====
-- The execution of a restore: internal/restore/restorer.go and
-- internal/controller/restore_controller.go.
mod Apply
mod Status
mod Stage
mod Stages
mod Checks
mod Reconcile
unfoldable pub use Apply.*
unfoldable pub use Status.*
unfoldable pub use Stage.*
unfoldable pub use Stages.*
unfoldable pub use Checks.*
unfoldable pub use Reconcile.*
