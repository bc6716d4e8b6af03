-- ===== src/BackupLaws.antt =====
-- What the reconciler of a BackupTask keeps to (internal/controller/backup_controller.go).
pub mod Phases
pub mod Cancel
pub mod Validated
pub mod Progress
pub mod Completion
