-- ===== src/Api/Config.antt =====
-- api/v1alpha1/backuppluginconfig_types.go.
use backup_restore.Prelude.{String, Bool, List, Option}
use backup_restore.Prelude.Int.{ℤ}
use backup_restore.Api.Common.{Duration, ObjectMeta, Time}

pub record ConcurrencyConfig : Type 0 where
  pub max_backup_tasks : ℤ
  pub max_restore_tasks : ℤ
  pub max_snapshots_per_task : ℤ
  pub max_repository_operations : ℤ

pub record KubernetesClientConfig : Type 0 where
  pub qps : ℤ
  pub burst : ℤ
  pub page_size : ℤ

pub record SecurityConfig : Type 0 where
  pub allowed_secret_namespaces : List String
  pub require_encryption_for_secrets : Bool
  pub allow_insecure_sftp : Bool
  pub hook_execution_enabled : Bool

pub record GarbageCollectionConfig : Type 0 where
  pub interval : Duration
  pub staging_grace_period : Duration
  pub terminal_task_ttl_days : ℤ

pub record BackupPluginConfigSpec : Type 0 where
  pub default_timezone : String
  pub default_backup_timeout : Duration
  pub default_restore_timeout : Duration
  pub default_snapshot_timeout : Duration
  pub concurrency : ConcurrencyConfig
  pub kubernetes_client : KubernetesClientConfig
  pub security : SecurityConfig
  pub garbage_collection : GarbageCollectionConfig
  pub workspace_path : String
  pub log_level : String

pub record BackupPluginConfig : Type 0 where
  pub meta : ObjectMeta
  pub spec : BackupPluginConfigSpec

pub record BackupPluginConfigStatus : Type 0 where
  pub observed_generation : ℤ
  pub phase : String
  pub reason : String
  pub message : String
  pub effective_config_hash : String
  pub last_applied_at : Option Time
  pub operator_version : String
