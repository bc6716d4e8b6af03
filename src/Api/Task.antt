-- ===== src/Api/Task.antt =====
-- api/v1alpha1/backuptask_types.go.
use backup_restore.Prelude.{String, Bool, List, Option}
use backup_restore.Prelude.Int.{ℤ}
use backup_restore.Api.Common.{
  Duration, Time, ObjectMeta, ObjectReference, ResourceIdentity, RetryPolicy, Condition,
  ExecutionProgress, ErrorDetail, SnapshotResult,
}
use backup_restore.Api.Selection.{BackupSelectionSpec}
use backup_restore.Api.Policy.{RetentionSpec}

pub data BackupTaskSourceType : Type 0 where
  unset policy one_time : BackupTaskSourceType
  other : String → BackupTaskSourceType

pub data BackupTrigger : Type 0 where
  unset manual schedule retry clone : BackupTrigger
  other : String → BackupTrigger

pub data BackupPhase : Type 0 where
  unset pending validating preparing collecting_resources running_pre_hooks : BackupPhase
  creating_snapshots packaging uploading verifying generating_record : BackupPhase
  completed partially_failed failed cancelling cancelled : BackupPhase
  other : String → BackupPhase

pub record BackupExecutionSpec : Type 0 where
  pub repository_ref : ObjectReference
  pub selection : BackupSelectionSpec
  pub retention : RetentionSpec
  pub timeout : Duration
  pub retry_policy : RetryPolicy
  pub failure_policy : String
  pub allow_partial_record : Bool

pub record BackupTaskSource : Type 0 where
  pub type : BackupTaskSourceType
  pub policy_ref : Option ObjectReference

pub record BackupTaskSpec : Type 0 where
  pub identity : ResourceIdentity
  pub trigger : BackupTrigger
  pub source : BackupTaskSource
  pub parent_task_ref : Option ObjectReference
  pub scheduled_at : Option Time
  pub backup_spec : Option BackupExecutionSpec
  pub backup_spec_hash : String
  pub policy_generation : ℤ
  pub repository_generation : ℤ
  pub cancel_requested : Bool
  pub cancel_reason : String
  pub idempotency_key : String

pub record TaskCheckpoint : Type 0 where
  pub step : String
  pub key : String
  pub external_id : String
  pub completed : Bool
  pub updated_at : Time

pub record BackupTaskStatus : Type 0 where
  pub observed_generation : ℤ
  pub phase : BackupPhase
  pub conditions : List Condition
  pub started_at : Option Time
  pub completed_at : Option Time
  pub reason : String
  pub message : String
  pub error_code : String
  pub step : String
  pub backup_id : String
  pub progress : ExecutionProgress
  pub attempt : ℤ
  pub last_heartbeat_time : Option Time
  pub checkpoints : List TaskCheckpoint
  pub errors : List ErrorDetail
  pub warnings : ℤ
  pub snapshots : List SnapshotResult
  pub archive_path : String
  pub archive_checksum : String
  pub backup_bytes : ℤ
  pub record_ref : Option ObjectReference

pub record BackupTask : Type 0 where
  pub meta : ObjectMeta
  pub spec : BackupTaskSpec
  pub status : BackupTaskStatus
