-- ===== src/Examples/Restores.antt =====
-- The theorems on restore plans at work.
use backup_restore.Prelude.{◌≡◌, ◌⊎◌, String, true, false, List, [], ◌∷◌, All, is_empty, none}
use backup_restore.Prelude.Int.{pos}
use backup_restore.Prelude.Sort.{IsAscending}
use backup_restore.Api.{RestoreTaskSpec, RestoreConflictPolicy}
use backup_restore.Webhook.Defaults.{hour}
use backup_restore.Restore.{IndexEntry, build_plan}
use backup_restore.Restore.Items.{order_of, IsPlaced, IsWanted, build_plan-IsAscending}
use backup_restore.Restore.Namespaces.{Gives, build_plan-Gives}
use backup_restore.Examples.Samples.{identity, reference}

abbrev pub conflict_policy : RestoreConflictPolicy
conflict_policy = record {
  default = "Rename";
  per_resource = ("configmaps", "Overwrite") ∷ [];
  allow_recreate = false;
  high_risk_confirmed = false;
}

abbrev pub restore_spec : RestoreTaskSpec
restore_spec = record {
  identity = identity;
  trigger = "Manual";
  parent_task_ref = none;
  backup_record_ref = reference "record-1";
  target_cluster_ref = "prod";
  mode = "Mapped";
  namespace_mapping = ("shop", "bank") ∷ [];
  resource_selection = record {
    include = [];
    exclude = "pods" ∷ [];
    include_cluster_resources = false;
  };
  restore_pvc = false;
  metadata_only = false;
  storage_class_mapping = [];
  conflict_policy = conflict_policy;
  dry_run = false;
  failure_policy = "Continue";
  timeout = pos hour;
  cancel_requested = false;
  cancel_reason = "";
  plan_hash = "";
}

abbrev pub config_map : String → IndexEntry
config_map namespace = record {
  gvr = "configmaps";
  api_version = "v1";
  kind = "ConfigMap";
  namespace = namespace;
  name = "settings";
  source_uid = "";
  file = "f.json";
  dependencies = [];
}

abbrev pub two_maps : List IndexEntry
two_maps = config_map "shop" ∷ config_map "bank" ∷ []

build_plan-IsAscending_example :
    IsAscending order_of (build_plan (λ m. m) two_maps restore_spec)
    × All
        (λ item. IsPlaced item × IsWanted restore_spec item)
        (build_plan (λ m. m) two_maps restore_spec)
build_plan-IsAscending_example = build_plan-IsAscending (λ m. m) two_maps restore_spec

build_plan-Gives_example :
    All
      (λ item.
        (is_empty item.source_namespace ≡ true)
        ⊎ Gives (build_plan (λ m. m) two_maps restore_spec) item.target_namespace)
      (build_plan (λ m. m) two_maps restore_spec)
build_plan-Gives_example = build_plan-Gives (λ m. m) two_maps restore_spec (λ m source target h. h)
