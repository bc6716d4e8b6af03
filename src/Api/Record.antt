-- ===== src/Api/Record.antt =====
-- api/v1alpha1/backuprecord_types.go.
use backup_restore.Prelude.{String, Bool, List, Option}
use backup_restore.Prelude.Int.{ℤ}
use backup_restore.Api.Common.{
  Time, ObjectMeta, ObjectReference, SecretKeyReference, ResourceIdentity, SnapshotResult,
}
use backup_restore.Api.Task.{BackupExecutionSpec, BackupTaskSourceType}

pub data RecordPhase : Type 0 where
  unset pending available partially_available verifying broken snapshot_missing : RecordPhase
  repo_unavailable expired deleting deleted : RecordPhase
  other : String → RecordPhase

pub record BackupSource : Type 0 where
  pub cluster_ref : String
  pub cluster_uid : String
  pub kubernetes_version : String
  pub namespaces : List String
  pub scope_mode : String

pub record BackupInventory : Type 0 where
  pub resource_count : ℤ
  pub namespace_count : ℤ
  pub pvc_count : ℤ
  pub snapshot_count : ℤ
  pub failed_resource_count : ℤ
  pub failed_snapshot_count : ℤ
  pub backup_bytes : ℤ

pub record RecordEncryptionSpec : Type 0 where
  pub enabled : Bool
  pub algorithm : String
  pub key_ref : Option SecretKeyReference

pub record BackupRecordSpec : Type 0 where
  pub identity : ResourceIdentity
  pub backup_id : String
  pub source_task_ref : ObjectReference
  pub source_type : BackupTaskSourceType
  pub policy_ref : Option ObjectReference
  pub backup_spec : BackupExecutionSpec
  pub backup_spec_hash : String
  pub repository_ref : ObjectReference
  pub source : BackupSource
  pub backup_path : String
  pub checksum : String
  pub checksum_algorithm : String
  pub format_version : String
  pub operator_version : String
  pub encryption : RecordEncryptionSpec
  pub inventory : BackupInventory
  pub snapshots : List SnapshotResult
  pub content_completeness : String
  pub snapshot_lifecycle : String
  pub expires_at : Option Time

pub record RecordDeletionStatus : Type 0 where
  pub mode : String
  pub repository_data_deleted : Bool
  pub snapshots_deleted : ℤ
  pub started_at : Option Time

pub record BackupRecordStatus : Type 0 where
  pub observed_generation : ℤ
  pub phase : RecordPhase
  pub reason : String
  pub message : String
  pub error_code : String
  pub restorable : Bool
  pub last_verified_at : Option Time
  pub verified_files : ℤ
  pub missing_snapshots : List String
  pub restore_count : ℤ
  pub last_restore_time : Option Time
  pub protected : Bool
  pub deletion : RecordDeletionStatus

pub record BackupRecord : Type 0 where
  pub meta : ObjectMeta
  pub spec : BackupRecordSpec
  pub status : BackupRecordStatus
