-- ===== src/Webhook/Defaults.antt =====
-- The mutating webhooks: api/v1alpha1/webhook_defaults.go. A method that writes to its receiver
-- returns the new specification.
pub mod Laws
use backup_restore.Prelude.{
  ℕ, String, Bool, true, false, ◌&&◌, List, [], ◌∷◌, Option, none, some, ◌*◌, if◌then◌else◌,
  is_empty, ◌^◌,
}
use backup_restore.Prelude.Int.{ℤ, pos, leb_ℤ, eqb_ℤ}
use backup_restore.Api.{
  Duration, RetryPolicy, RetentionSpec, BackupExecutionSpec, BackupSelectionSpec,
  SftpRepositorySpec, BackupRepositorySpec, BackupPolicySpec, ConcurrencyPolicy, MissedRunPolicy,
  BackupTaskSourceType, BackupTrigger, BackupTaskSpec, ObjectReference, RestoreTaskSpec,
  BackupPluginConfigSpec,
}
use backup_restore.Webhook.Task.{is_one_time}

unfoldable pub duration_or : Duration → Duration → Duration
duration_or current fallback = if leb_ℤ current (pos 0) then fallback else current

-- `if x == 0 { x = fallback }`.
unfoldable pub int_or : ℤ → ℤ → ℤ
int_or current fallback = if eqb_ℤ current (pos 0) then fallback else current

-- `if s == "" { s = fallback }`, and defaultString.
unfoldable pub default_string : String → String → String
default_string value fallback = if is_empty value then fallback else value

abbrev pub second : ℕ
second = 1000000000

abbrev pub minute : ℕ
minute = 60 * second

abbrev pub hour : ℕ
hour = 60 * minute

unfoldable pub default_retry_policy : RetryPolicy → RetryPolicy
default_retry_policy p = record p {
  max_attempts = int_or p.max_attempts (pos 3);
  backoff = duration_or p.backoff (pos (30 * second));
  max_backoff = duration_or p.max_backoff (pos (10 * minute));
}

unfoldable pub default_retention : RetentionSpec → RetentionSpec
default_retention retention = record retention {
  max_copies = int_or retention.max_copies (pos 7);
  min_copies = int_or retention.min_copies (pos 1);
  max_age_days = int_or retention.max_age_days (pos 30);
}

unfoldable pub default_selection : BackupSelectionSpec → BackupSelectionSpec
default_selection selection = record selection {
  pvc = record (selection.pvc) {
    failure_policy = default_string selection.pvc.failure_policy "ContinueAndMarkPartial";
    lifecycle = default_string selection.pvc.lifecycle "RetainAfterRecordDeletion";
    snapshot_timeout = duration_or selection.pvc.snapshot_timeout (pos (10 * minute));
  };
  consistency_mode = default_string selection.consistency_mode "CrashConsistent";
}

unfoldable pub default_backup_execution : BackupExecutionSpec → BackupExecutionSpec
default_backup_execution spec = record spec {
  selection = default_selection spec.selection;
  retention = default_retention spec.retention;
  timeout = duration_or spec.timeout (pos (4 * hour));
  retry_policy = default_retry_policy spec.retry_policy;
  failure_policy = default_string spec.failure_policy "Continue";
}

unfoldable pub default_sftp : Option SftpRepositorySpec → Option SftpRepositorySpec
default_sftp none = none
default_sftp (some s) = some (record s {
  port = int_or s.port (pos 22);
  connect_timeout = duration_or s.connect_timeout (pos (10 * second));
  operation_timeout = duration_or s.operation_timeout (pos (5 * minute));
  keep_alive_interval = duration_or s.keep_alive_interval (pos (30 * second));
  max_connections = int_or s.max_connections (pos 4);
})

unfoldable pub default_repository : BackupRepositorySpec → BackupRepositorySpec
default_repository spec = record spec {
  health_check_interval = duration_or spec.health_check_interval (pos (30 * minute));
  timeout = duration_or spec.timeout (pos (30 * second));
  retry_count = int_or spec.retry_count (pos 3);
  compression = record {
    algorithm = default_string spec.compression.algorithm "Gzip";
    level = int_or spec.compression.level (pos 6);
  };
  encryption = record (spec.encryption) {
    algorithm = default_string spec.encryption.algorithm "AES256GCM";
  };
  sftp = default_sftp spec.sftp;
}

unfoldable pub concurrency_or : ConcurrencyPolicy → ConcurrencyPolicy
concurrency_or ConcurrencyPolicy.unset = ConcurrencyPolicy.forbid
concurrency_or policy = policy

unfoldable pub missed_run_or : MissedRunPolicy → MissedRunPolicy
missed_run_or MissedRunPolicy.unset = MissedRunPolicy.skip
missed_run_or policy = policy

unfoldable pub default_policy : BackupPolicySpec → BackupPolicySpec
default_policy spec = record spec {
  selection = default_selection spec.selection;
  schedule = record (spec.schedule) { timezone = default_string spec.schedule.timezone "Etc/UTC" };
  concurrency_policy = concurrency_or spec.concurrency_policy;
  missed_run_policy = missed_run_or spec.missed_run_policy;
  starting_deadline = duration_or spec.starting_deadline (pos hour);
  max_catch_up_runs = int_or spec.max_catch_up_runs (pos 1);
  retention = default_retention spec.retention;
  retry_policy = default_retry_policy spec.retry_policy;
  timeout = duration_or spec.timeout (pos (4 * hour));
}

unfoldable pub trigger_or : BackupTrigger → BackupTrigger
trigger_or BackupTrigger.unset = BackupTrigger.manual
trigger_or trigger = trigger

-- A source with no type is read off the references that are set.
abbrev pub guess_source : Option ObjectReference → Option BackupExecutionSpec → BackupTaskSourceType
guess_source (some ref) spec = BackupTaskSourceType.policy
guess_source none (some spec) = BackupTaskSourceType.one_time
guess_source none none = BackupTaskSourceType.unset

unfoldable pub source_or : BackupTaskSourceType → BackupTaskSourceType → BackupTaskSourceType
source_or BackupTaskSourceType.unset guess = guess
source_or type guess = type

-- A one-time task keeps one copy unless it says otherwise.
unfoldable pub one_copy : BackupTaskSourceType → RetentionSpec → RetentionSpec
one_copy type retention =
    if is_one_time type && eqb_ℤ retention.max_copies (pos 0)
    then record retention { max_copies = pos 1 }
    else retention

unfoldable pub default_task_execution :
    BackupTaskSourceType → Option BackupExecutionSpec → Option BackupExecutionSpec
default_task_execution type none = none
default_task_execution type (some spec) =
    some (default_backup_execution (record spec { retention = one_copy type spec.retention }))

unfoldable pub default_task : BackupTaskSpec → BackupTaskSpec
default_task spec =
    let type = source_or spec.source.type (guess_source spec.source.policy_ref spec.backup_spec) in
    record spec {
      trigger = trigger_or spec.trigger;
      source = record (spec.source) { type = type };
      backup_spec = default_task_execution type spec.backup_spec;
    }

unfoldable pub default_restore : RestoreTaskSpec → RestoreTaskSpec
default_restore spec = record spec {
  trigger = default_string spec.trigger "Manual";
  mode = default_string spec.mode "Original";
  conflict_policy = record (spec.conflict_policy) {
    default = default_string spec.conflict_policy.default "Skip";
  };
  failure_policy = default_string spec.failure_policy "Continue";
  timeout = duration_or spec.timeout (pos (4 * hour));
}

unfoldable pub namespaces_or : List String → List String
namespaces_or [] = "backup-system" ∷ []
namespaces_or (n ∷ ns) = n ∷ ns

unfoldable pub default_config : BackupPluginConfigSpec → BackupPluginConfigSpec
default_config spec = record {
  default_timezone = default_string spec.default_timezone "Etc/UTC";
  default_backup_timeout = duration_or spec.default_backup_timeout (pos (4 * hour));
  default_restore_timeout = duration_or spec.default_restore_timeout (pos (4 * hour));
  default_snapshot_timeout = duration_or spec.default_snapshot_timeout (pos (10 * minute));
  concurrency = record {
    max_backup_tasks = int_or spec.concurrency.max_backup_tasks (pos 3);
    max_restore_tasks = int_or spec.concurrency.max_restore_tasks (pos 1);
    max_snapshots_per_task = int_or spec.concurrency.max_snapshots_per_task (pos 10);
    max_repository_operations = int_or spec.concurrency.max_repository_operations (pos 4);
  };
  kubernetes_client = record {
    qps = int_or spec.kubernetes_client.qps (pos 20);
    burst = int_or spec.kubernetes_client.burst (pos 40);
    page_size = int_or spec.kubernetes_client.page_size (pos 500);
  };
  security = record (spec.security) {
    allowed_secret_namespaces = namespaces_or spec.security.allowed_secret_namespaces;
  };
  garbage_collection = record {
    interval = duration_or spec.garbage_collection.interval (pos hour);
    staging_grace_period =
        duration_or spec.garbage_collection.staging_grace_period (pos (24 * hour));
    terminal_task_ttl_days = int_or spec.garbage_collection.terminal_task_ttl_days (pos 90);
  };
  workspace_path = default_string spec.workspace_path "/workspace";
  log_level = default_string spec.log_level "info";
}
