-- ===== src/Webhook/Task.antt =====
-- The validation of a BackupTask (api/v1alpha1/webhook_validation.go).
mod Defs
pub mod Frozen
unfoldable pub use Defs.*
