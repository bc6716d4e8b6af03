-- ===== src/Api/Selection.antt =====
-- api/v1alpha1/backupselection_types.go.
use backup_restore.Prelude.{String, Bool, List, Option}
use backup_restore.Api.Common.{Duration}

pub data BackupSelectionMode : Type 0 where
  cluster : BackupSelectionMode
  namespace : BackupSelectionMode
  other : String → BackupSelectionMode

pub record ResourceSelection : Type 0 where
  pub include : List String
  pub exclude : List String
  pub include_cluster : List String
  pub exclude_cluster : List String

pub record PvcSelectionSpec : Type 0 where
  pub enabled : Bool
  pub include : List String
  pub exclude : List String
  pub label_selector : Option String
  pub snapshot_class_name : String
  pub snapshot_class_mapping : List (String × String)
  pub snapshot_timeout : Duration
  pub failure_policy : String
  pub lifecycle : String

pub record ResourceHook : Type 0 where
  pub name : String
  pub namespace : String
  pub pod_selector : Option String
  pub container : String
  pub command : List String
  pub timeout : Duration
  pub on_error : String

pub record HookSpec : Type 0 where
  pub pre : List ResourceHook
  pub post : List ResourceHook

pub record BackupSelectionSpec : Type 0 where
  pub mode : BackupSelectionMode
  pub include_namespaces : List String
  pub exclude_namespaces : List String
  pub resources : ResourceSelection
  pub label_selector : Option String
  pub include_cluster_resources : Bool
  pub include_secrets : Bool
  pub include_crds : Bool
  pub include_custom_resources : Bool
  pub pvc : PvcSelectionSpec
  pub consistency_mode : String
  pub hooks : HookSpec
