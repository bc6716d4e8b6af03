-- ===== src/Api/Common.antt =====
-- api/v1alpha1/common_types.go.
use backup_restore.Prelude.{String, Bool, List, Option}
use backup_restore.Prelude.Int.{ℤ}

-- Nanoseconds.
abbrev pub Duration : Type 0
Duration = ℤ

-- Nanoseconds since the Unix epoch.
abbrev pub Time : Type 0
Time = ℤ

pub record ObjectMeta : Type 0 where
  pub name : String
  pub uid : String
  pub generation : ℤ
  pub creation_timestamp : Time
  pub deletion_timestamp : Option Time
  pub finalizers : List String
  pub labels : List (String × String)
  pub annotations : List (String × String)

pub record ObjectReference : Type 0 where
  pub name : String
  pub uid : String

pub record SecretKeyReference : Type 0 where
  pub namespace : String
  pub name : String
  pub key : String

pub record ResourceIdentity : Type 0 where
  pub cluster_ref : String

pub record Condition : Type 0 where
  pub kind : String
  pub status : String
  pub observed_generation : ℤ
  pub reason : String
  pub message : String

pub record RetryPolicy : Type 0 where
  pub max_attempts : ℤ
  pub backoff : Duration
  pub max_backoff : Duration
  pub retryable_codes : List String

pub record ExecutionProgress : Type 0 where
  pub percent : ℤ
  pub total_resources : ℤ
  pub processed_resources : ℤ
  pub succeeded_resources : ℤ
  pub failed_resources : ℤ
  pub total_pvcs : ℤ
  pub processed_pvcs : ℤ
  pub succeeded_snapshots : ℤ
  pub failed_snapshots : ℤ
  pub bytes_estimated : ℤ
  pub bytes_processed : ℤ
  pub bytes_uploaded : ℤ

pub record ResourceObjectRef : Type 0 where
  pub group : String
  pub version : String
  pub resource : String
  pub namespace : String
  pub name : String

pub record ErrorDetail : Type 0 where
  pub code : String
  pub message : String
  pub retryable : Bool
  pub object_ref : Option ResourceObjectRef
  pub at : Time

pub record SnapshotResult : Type 0 where
  pub pvc_namespace : String
  pub pvc_name : String
  pub storage_class : String
  pub volume_snapshot_name : String
  pub volume_snapshot_content_name : String
  pub snapshot_handle : String
  pub snapshot_class : String
  pub driver : String
  pub ready_to_use : Bool
  pub restore_size : ℤ
  pub creation_time : Option Time
  pub phase : String
  pub error : String
