-- ===== src/Api/Restore.antt =====
-- api/v1alpha1/restoretask_types.go.
use backup_restore.Prelude.{String, Bool, List, Option}
use backup_restore.Prelude.Int.{ℤ}
use backup_restore.Api.Common.{
  Duration, Time, ObjectMeta, ObjectReference, ResourceIdentity, ErrorDetail, ResourceObjectRef,
}
use backup_restore.Api.Task.{TaskCheckpoint}

pub data RestorePhase : Type 0 where
  unset pending validating_backup downloading generating_plan pre_checking : RestorePhase
  restoring_namespaces restoring_cluster_resources restoring_pvc : RestorePhase
  restoring_namespaced_resources verifying : RestorePhase
  completed partially_failed failed cancelling cancelled : RestorePhase
  other : String → RestorePhase

pub record RestoreResourceSelection : Type 0 where
  pub include : List String
  pub exclude : List String
  pub include_cluster_resources : Bool

-- Conflict policies stay texts here: the values of `per_resource` are not checked on admission.
pub record RestoreConflictPolicy : Type 0 where
  pub default : String
  pub per_resource : List (String × String)
  pub allow_recreate : Bool
  pub high_risk_confirmed : Bool

pub record RestoreTaskSpec : Type 0 where
  pub identity : ResourceIdentity
  pub trigger : String
  pub parent_task_ref : Option ObjectReference
  pub backup_record_ref : ObjectReference
  pub target_cluster_ref : String
  pub mode : String
  pub namespace_mapping : List (String × String)
  pub resource_selection : RestoreResourceSelection
  pub restore_pvc : Bool
  pub metadata_only : Bool
  pub storage_class_mapping : List (String × String)
  pub conflict_policy : RestoreConflictPolicy
  pub dry_run : Bool
  pub failure_policy : String
  pub timeout : Duration
  pub cancel_requested : Bool
  pub cancel_reason : String
  pub plan_hash : String

pub record RestorePlanSummary : Type 0 where
  pub reference : String
  pub hash : String
  pub total_objects : ℤ
  pub total_pvcs : ℤ
  pub conflict_count : ℤ
  pub blocking_count : ℤ
  pub warning_count : ℤ
  pub generated_at : Option Time

pub record RestoreProgress : Type 0 where
  pub total : ℤ
  pub processed : ℤ
  pub created : ℤ
  pub updated : ℤ
  pub skipped : ℤ
  pub renamed : ℤ
  pub failed : ℤ
  pub total_pvcs : ℤ
  pub bound_pvcs : ℤ
  pub failed_pvcs : ℤ

pub record RestoreTaskStatus : Type 0 where
  pub observed_generation : ℤ
  pub phase : RestorePhase
  pub started_at : Option Time
  pub completed_at : Option Time
  pub reason : String
  pub message : String
  pub error_code : String
  pub step : String
  pub plan : RestorePlanSummary
  pub progress : RestoreProgress
  pub last_heartbeat_time : Option Time
  pub checkpoints : List TaskCheckpoint
  pub errors : List ErrorDetail
  pub residual_resources : List ResourceObjectRef

pub record RestoreTask : Type 0 where
  pub meta : ObjectMeta
  pub spec : RestoreTaskSpec
  pub status : RestoreTaskStatus
