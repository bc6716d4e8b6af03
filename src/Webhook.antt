-- ===== src/Webhook.antt =====
-- The admission webhooks of api/v1alpha1: defaults, and the validation of each resource.
pub mod Check
pub mod Selection
pub mod Repository
pub mod Policy
pub mod Task
pub mod Record
pub mod Restore
pub mod Config
pub mod Mapping
pub mod Defaults
