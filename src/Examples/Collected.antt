-- ===== src/Examples/Collected.antt =====
-- The theorems on retention runs and garbage collection at work.
use backup_restore.Prelude.{arith, ◌*◌, refl, true, false, List, [], ◌∷◌, some}
use backup_restore.Prelude.Int.{pos}
use backup_restore.Api.{BackupRecord, BackupPhase, RestorePhase, BackupPluginConfig}
use backup_restore.Errors.{done}
use backup_restore.Webhook.Defaults.{hour}
use backup_restore.Retention.{day}
use backup_restore.Lifecycle.{RetainWorld, GarbageWorld, reconcile_garbage}
use backup_restore.Lifecycle.Swept.{Begins, wanted_garbage, reconcile_garbage-Begins}
use backup_restore.Examples.Samples.{meta_of, record_at, reference, task_in}
use backup_restore.Examples.Retained.{older_sort}
use backup_restore.Examples.Restored.{restore_task}

abbrev of_policy : BackupRecord → BackupRecord
of_policy r = record r { spec = record (r.spec) { policy_ref = some (reference "hourly") } }

-- Two records of the policy and one of none.
abbrev stored : List BackupRecord
stored =
    of_policy (record_at "a" 100 false)
    ∷ record_at "b" 200 false
    ∷ of_policy (record_at "c" 300 false)
    ∷ []

abbrev retain_world : RetainWorld
retain_world = record {
  cluster_ref = "prod";
  records = done stored;
  sort = older_sort;
  current = λ name. done (record_at name 100 false);
  patch = λ r. done tt;
  delete = λ r. done tt;
}

abbrev garbage_world : GarbageWorld
garbage_world = record {
  cluster_ref = "prod";
  backups = done (task_in BackupPhase.completed false ∷ task_in BackupPhase.packaging false ∷ []);
  restores = done (restore_task RestorePhase.failed false ∷ []);
  delete = λ g. done tt;
  entries =
      record { name = "uid-1"; is_directory = true; modified = pos 0 }
      ∷ record { name = "note"; is_directory = false; modified = pos 0 }
      ∷ [];
}

abbrev config : BackupPluginConfig
config = record {
  meta = meta_of "cluster" (pos 0);
  spec = record {
    default_timezone = "UTC";
    default_backup_timeout = pos hour;
    default_restore_timeout = pos hour;
    default_snapshot_timeout = pos hour;
    concurrency = record {
      max_backup_tasks = pos 2;
      max_restore_tasks = pos 1;
      max_snapshots_per_task = pos 4;
      max_repository_operations = pos 4;
    };
    kubernetes_client = record { qps = pos 20; burst = pos 40; page_size = pos 500 };
    security = record {
      allowed_secret_namespaces = "backup-system" ∷ [];
      require_encryption_for_secrets = true;
      allow_insecure_sftp = false;
      hook_execution_enabled = false;
    };
    garbage_collection = record {
      interval = pos hour;
      staging_grace_period = pos hour;
      terminal_task_ttl_days = pos 30;
    };
    workspace_path = "/workspace";
    log_level = "info";
  };
}

reconcile_garbage-Begins_example :
    Begins
      (wanted_garbage garbage_world 30
        (pos hour)
        (pos (90 * day))
        (task_in BackupPhase.completed false ∷ task_in BackupPhase.packaging false ∷ [])
        (restore_task RestorePhase.failed false ∷ []))
      (reconcile_garbage garbage_world config (pos (90 * day)))
reconcile_garbage-Begins_example =
    reconcile_garbage-Begins garbage_world config (pos (90 * day))
      (task_in BackupPhase.completed false ∷ task_in BackupPhase.packaging false ∷ [])
      (restore_task RestorePhase.failed false ∷ []) 30 refl refl refl (omega arith)
