-- ===== src/Lifecycle/Observe.antt =====
-- BackupPluginConfigReconciler of internal/controller/lifecycle_controllers.go. The hash of a
-- specification is a parameter, and the status patch succeeds.
use backup_restore.Prelude.{String, some}
use backup_restore.Api.{BackupPluginConfig, BackupPluginConfigSpec, BackupPluginConfigStatus, Time}

unfoldable pub reconcile_config :
    (BackupPluginConfigSpec → String)
    → (version : String) → BackupPluginConfig
    → Time
    → BackupPluginConfigStatus
reconcile_config hash version config now = record {
  observed_generation = config.meta.generation;
  phase = "Ready";
  reason = "ConfigApplied";
  message = "global defaults validated and observed";
  effective_config_hash = hash config.spec;
  last_applied_at = some now;
  operator_version = version;
}
