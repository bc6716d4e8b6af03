-- ===== src/Api/Policy.antt =====
-- api/v1alpha1/backuppolicy_types.go.
use backup_restore.Prelude.{String, Bool, List, Option}
use backup_restore.Prelude.Int.{ℤ}
use backup_restore.Api.Common.{
  Duration, Time, ObjectMeta, ObjectReference, ResourceIdentity, RetryPolicy, Condition,
}
use backup_restore.Api.Selection.{BackupSelectionSpec}

pub data ConcurrencyPolicy : Type 0 where
  unset allow forbid replace : ConcurrencyPolicy
  other : String → ConcurrencyPolicy

pub data MissedRunPolicy : Type 0 where
  unset skip run_once run_all : MissedRunPolicy
  other : String → MissedRunPolicy

pub data PolicyPhase : Type 0 where
  unset pending ready paused invalid degraded deleting : PolicyPhase
  other : String → PolicyPhase

pub record BackupScheduleSpec : Type 0 where
  pub cron : String
  pub timezone : String

pub record RetentionSpec : Type 0 where
  pub max_copies : ℤ
  pub min_copies : ℤ
  pub max_age_days : ℤ
  pub delete_snapshots : Bool

pub record BackupPolicySpec : Type 0 where
  pub identity : ResourceIdentity
  pub selection : BackupSelectionSpec
  pub repository_ref : ObjectReference
  pub schedule : BackupScheduleSpec
  pub enabled : Bool
  pub suspend : Bool
  pub concurrency_policy : ConcurrencyPolicy
  pub missed_run_policy : MissedRunPolicy
  pub starting_deadline : Duration
  pub max_catch_up_runs : ℤ
  pub retention : RetentionSpec
  pub retry_policy : RetryPolicy
  pub timeout : Duration

pub record SkippedRun : Type 0 where
  pub scheduled_at : Time
  pub reason : String

pub record BackupPolicyStatus : Type 0 where
  pub observed_generation : ℤ
  pub phase : PolicyPhase
  pub conditions : List Condition
  pub reason : String
  pub error_code : String
  pub resolved_repository_uid : String
  pub last_schedule_time : Option Time
  pub last_evaluated_schedule_time : Option Time
  pub next_schedule_time : Option Time
  pub active_tasks : List ObjectReference
  pub skipped_runs : List SkippedRun

pub record BackupPolicy : Type 0 where
  pub meta : ObjectMeta
  pub spec : BackupPolicySpec
  pub status : BackupPolicyStatus
