-- ===== src/Examples/Samples.antt =====
-- Sample resources.
use backup_restore.Prelude.{ℕ, ◌*◌, String, Bool, true, false, [], ◌∷◌, Option, none, some}
use backup_restore.Prelude.Int.{pos}
use backup_restore.Api.{
  ObjectMeta, ObjectReference, ResourceIdentity, BackupSelectionMode, BackupSelectionSpec,
  BackupExecutionSpec, BackupTaskSourceType, BackupTrigger, BackupPhase, BackupTaskSpec,
  BackupTaskStatus, BackupTask, RecordPhase, BackupRecordSpec, BackupRecordStatus, BackupRecord,
  RetentionSpec, RetryPolicy, LocalRepositoryMode, RepositoryType, BackupRepository, Time,
  ExecutionProgress,
}
use backup_restore.Webhook.Check.{Parsers}
use backup_restore.Webhook.Defaults.{hour, minute, second}

abbrev pub parsers : Parsers
parsers = record { cron_ok = λ s. true; location_ok = λ s. true; selector_ok = λ s. true }

abbrev pub meta_of : String → Time → ObjectMeta
meta_of name created = record {
  name = name;
  uid = "uid-1";
  generation = pos 1;
  creation_timestamp = created;
  deletion_timestamp = none;
  finalizers = [];
  labels = [];
  annotations = [];
}

abbrev pub identity : ResourceIdentity
identity = record { cluster_ref = "prod" }

abbrev pub reference : String → ObjectReference
reference name = record { name = name; uid = "uid-1" }

abbrev pub selection : BackupSelectionSpec
selection = record {
  mode = BackupSelectionMode.namespace;
  include_namespaces = "shop" ∷ [];
  exclude_namespaces = [];
  resources = record { include = []; exclude = []; include_cluster = []; exclude_cluster = [] };
  label_selector = none;
  include_cluster_resources = false;
  include_secrets = true;
  include_crds = false;
  include_custom_resources = false;
  pvc = record {
    enabled = false;
    include = [];
    exclude = [];
    label_selector = none;
    snapshot_class_name = "";
    snapshot_class_mapping = [];
    snapshot_timeout = pos minute;
    failure_policy = "FailFast";
    lifecycle = "RetainAfterRecordDeletion";
  };
  consistency_mode = "CrashConsistent";
  hooks = record { pre = []; post = [] };
}

abbrev pub retention : ℕ → ℕ → ℕ → RetentionSpec
retention max_copies min_copies days = record {
  max_copies = pos max_copies;
  min_copies = pos min_copies;
  max_age_days = pos days;
  delete_snapshots = false;
}

abbrev pub retry_policy : RetryPolicy
retry_policy = record {
  max_attempts = pos 3;
  backoff = pos (30 * second);
  max_backoff = pos minute;
  retryable_codes = [];
}

abbrev pub execution : BackupExecutionSpec
execution = record {
  repository_ref = reference "vault";
  selection = selection;
  retention = retention 7 1 30;
  timeout = pos hour;
  retry_policy = retry_policy;
  failure_policy = "Continue";
  allow_partial_record = false;
}

abbrev pub task_spec : Option BackupExecutionSpec → String → Bool → BackupTaskSpec
task_spec backup_spec hash cancel_requested = record {
  identity = identity;
  trigger = BackupTrigger.manual;
  source = record { type = BackupTaskSourceType.one_time; policy_ref = none };
  parent_task_ref = none;
  scheduled_at = none;
  backup_spec = backup_spec;
  backup_spec_hash = hash;
  policy_generation = pos 0;
  repository_generation = pos 1;
  cancel_requested = cancel_requested;
  cancel_reason = "";
  idempotency_key = "";
}

abbrev pub progress : ExecutionProgress
progress = record {
  percent = pos 0;
  total_resources = pos 0;
  processed_resources = pos 0;
  succeeded_resources = pos 0;
  failed_resources = pos 0;
  total_pvcs = pos 0;
  processed_pvcs = pos 0;
  succeeded_snapshots = pos 0;
  failed_snapshots = pos 0;
  bytes_estimated = pos 0;
  bytes_processed = pos 0;
  bytes_uploaded = pos 0;
}

abbrev pub task_status : BackupPhase → BackupTaskStatus
task_status phase = record {
  observed_generation = pos 1;
  phase = phase;
  conditions = [];
  started_at = some (pos 0);
  completed_at = none;
  reason = "";
  message = "";
  error_code = "";
  step = "";
  backup_id = "";
  progress = progress;
  attempt = pos 0;
  last_heartbeat_time = none;
  checkpoints = [];
  errors = [];
  warnings = pos 0;
  snapshots = [];
  archive_path = "";
  archive_checksum = "";
  backup_bytes = pos 0;
  record_ref = none;
}

abbrev pub task_in : BackupPhase → Bool → BackupTask
task_in phase cancel_requested = record {
  meta = meta_of "nightly" (pos 0);
  spec = task_spec (some execution) "h" cancel_requested;
  status = task_status phase;
}

abbrev pub record_spec : BackupRecordSpec
record_spec = record {
  identity = identity;
  backup_id = "b1";
  source_task_ref = reference "nightly";
  source_type = BackupTaskSourceType.one_time;
  policy_ref = none;
  backup_spec = execution;
  backup_spec_hash = "h";
  repository_ref = reference "vault";
  source = record {
    cluster_ref = "prod";
    cluster_uid = "u";
    kubernetes_version = "1.30";
    namespaces = "shop" ∷ [];
    scope_mode = "Namespace";
  };
  backup_path = "prod/b1";
  checksum = "00";
  checksum_algorithm = "SHA256";
  format_version = "1.0";
  operator_version = "1";
  encryption = record { enabled = false; algorithm = ""; key_ref = none };
  inventory = record {
    resource_count = pos 1;
    namespace_count = pos 1;
    pvc_count = pos 0;
    snapshot_count = pos 0;
    failed_resource_count = pos 0;
    failed_snapshot_count = pos 0;
    backup_bytes = pos 1;
  };
  snapshots = [];
  content_completeness = "Complete";
  snapshot_lifecycle = "";
  expires_at = none;
}

abbrev pub record_status : Bool → BackupRecordStatus
record_status protected = record {
  observed_generation = pos 1;
  phase = RecordPhase.available;
  reason = "Verified";
  message = "";
  error_code = "";
  restorable = true;
  last_verified_at = none;
  verified_files = pos 0;
  missing_snapshots = [];
  restore_count = pos 0;
  last_restore_time = none;
  protected = protected;
  deletion = record {
    mode = "";
    repository_data_deleted = false;
    snapshots_deleted = pos 0;
    started_at = none;
  };
}

-- A record with its creation time and its protection.
abbrev pub record_at : String → ℕ → Bool → BackupRecord
record_at name created protected = record {
  meta = meta_of name (pos created);
  spec = record_spec;
  status = record_status protected;
}

abbrev pub repository : BackupRepository
repository = record {
  meta = meta_of "vault" (pos 0);
  spec = record {
    identity = identity;
    type = RepositoryType.local;
    enabled = true;
    local = some (record {
      mode = LocalRepositoryMode.host_path;
      path = "/data";
      node_name = "n1";
      node_selector = [];
      pvc = none;
      uid = pos 0;
      gid = pos 0;
    });
    sftp = none;
    compression = record { algorithm = "Gzip"; level = pos 6 };
    encryption = record {
      enabled = true;
      algorithm = "AES256GCM";
      key_ref = some (record { namespace = "backup-system"; name = "key"; key = "k" });
    };
    health_check_interval = pos minute;
    timeout = pos minute;
    retry_count = pos 3;
    minimum_free_bytes = none;
    deletion_protection = false;
  };
  phase = "Ready";
}
