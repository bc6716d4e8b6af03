-- ===== src/PolicyRun/Tasks.antt =====
-- The stored tasks of internal/controller/policy_controller.go, as a list that the calls read and
-- change, and the task that is created for a due time. The hash of an execution specification is
-- taken to succeed.
use backup_restore.Prelude.{
  String, true, false, ◌&&◌, not, List, [], ◌∷◌, ◌++◌, Option, none, some, str_eq, str_append,
  get_text, if◌then◌else◌,
}
use backup_restore.Prelude.Int.{pos}
use backup_restore.Api.{
  Time, ObjectReference, BackupRepository, BackupPolicy, SkippedRun, BackupTask,
  BackupTaskSourceType, BackupTrigger, BackupPhase, BackupTaskStatus, ExecutionProgress,
}
use backup_restore.Errors.{Failure, Io, done, failed}
use backup_restore.Scheduler.{Cron}
use backup_restore.Backup.{terminal_backup, keep_last, policy_execution_spec, with_uid}
use backup_restore.PolicyRun.Name.{deterministic_task_name, unix, signed_decimal}

abbrev pub policy_finalizer : String
policy_finalizer = "protection.platform.io/policy-protection"

abbrev pub label_policy_uid : String
label_policy_uid = "protection.platform.io/policy-uid"

abbrev pub label_scheduled_at : String
label_scheduled_at = "protection.platform.io/scheduled-at"

abbrev pub label_trigger : String
label_trigger = "protection.platform.io/trigger"

abbrev pub label_cluster : String
label_cluster = "protection.platform.io/cluster"

-- What a call finds outside the stored tasks: the repositories, the result of the preview, the cron
-- library, whether the cluster lists the tasks and takes a new task or a change of one; the hash
-- of an execution specification, the hash in a task's name, the text of a time, and the identity
-- that the cluster gives to a new task.
pub record PolicyWorld : Type 0 where
  pub cluster_ref : String
  pub repository : String → Io BackupRepository
  pub preview : Io (Unit {0})
  pub cron : Cron
  pub listed : Io (Unit {0})
  pub admit : BackupTask → Io (Unit {0})
  pub patch : BackupTask → Io (Unit {0})
  pub spec_hash : BackupPolicy → BackupRepository → String
  pub hash : String → String
  pub rfc3339 : Time → String
  pub new_uid : String → String

abbrev pub reference_of : BackupTask → ObjectReference
reference_of task = record { name = task.meta.name; uid = task.meta.uid }

unfoldable pub find_task : String → List BackupTask → Option BackupTask
find_task name [] = none
find_task name (task ∷ tasks) =
    if str_eq task.meta.name name then some task else find_task name tasks

-- A patch of the task of this name.
unfoldable pub put_task : BackupTask → List BackupTask → List BackupTask
put_task changed [] = []
put_task changed (task ∷ tasks) =
    if str_eq task.meta.name changed.meta.name
    then changed ∷ tasks
    else task ∷ put_task changed tasks

-- activeTasks.
unfoldable pub active_tasks : String → List BackupTask → List ObjectReference
active_tasks uid [] = []
active_tasks uid (task ∷ tasks) =
    let rest = active_tasks uid tasks in
    if str_eq (get_text label_policy_uid task.meta.labels) uid
      && not (terminal_backup task.status.phase)
    then reference_of task ∷ rest
    else rest

abbrev pub cancelled_task : BackupTask → BackupTask
cancelled_task task = record task {
  spec = record (task.spec) {
    cancel_requested = true;
    cancel_reason = "replaced by a newer scheduled run";
  };
}

-- The tasks as a step leaves them, and its error.
abbrev pub Stored : Type 0
Stored = List BackupTask × Option Failure

-- cancelActive: the first task that is not found ends the loop, without an error.
unfoldable pub cancel_active :
    (BackupTask → Io (Unit {0})) → List ObjectReference → List BackupTask → Stored
unfolding find_task put_task
cancel_active patch [] tasks = (tasks, none)
cancel_active patch (ref ∷ refs) tasks = elim (find_task ref.name tasks) [
  | none ↦ (tasks, none)
  | some task ↦ elim (patch (cancelled_task task)) [
    | failed e ↦ (tasks, some e)
    | done _ ↦ cancel_active patch refs (put_task (cancelled_task task) tasks)
  ]
]

-- appendLimitedSkipped.
unfoldable pub append_limited_skipped : List SkippedRun → Time → String → List SkippedRun
unfolding keep_last
append_limited_skipped values at reason =
    keep_last 20 (values ++ record { scheduled_at = at; reason = reason } ∷ [])

-- ScheduledKey.
unfoldable pub scheduled_key : PolicyWorld → String → Time → String
scheduled_key w uid at = str_append uid (str_append "/" (w.rfc3339 at))

abbrev pub no_progress : ExecutionProgress
no_progress = record {
  percent = pos 0;
  total_resources = pos 0;
  processed_resources = pos 0;
  succeeded_resources = pos 0;
  failed_resources = pos 0;
  total_pvcs = pos 0;
  processed_pvcs = pos 0;
  succeeded_snapshots = pos 0;
  failed_snapshots = pos 0;
  bytes_estimated = pos 0;
  bytes_processed = pos 0;
  bytes_uploaded = pos 0;
}

-- The status of a task that has just been created.
abbrev pub no_status : BackupTaskStatus
no_status = record {
  observed_generation = pos 0;
  phase = BackupPhase.unset;
  conditions = [];
  started_at = none;
  completed_at = none;
  reason = "";
  message = "";
  error_code = "";
  step = "";
  backup_id = "";
  progress = no_progress;
  attempt = pos 0;
  last_heartbeat_time = none;
  checkpoints = [];
  errors = [];
  warnings = pos 0;
  snapshots = [];
  archive_path = "";
  archive_checksum = "";
  backup_bytes = pos 0;
  record_ref = none;
}

-- The task of a slot.
unfoldable pub scheduled_task : PolicyWorld → BackupPolicy → BackupRepository → Time → BackupTask
unfolding scheduled_key
scheduled_task w policy repository at =
    let name = deterministic_task_name w.hash policy.meta.name at in
    record {
      meta = record {
        name = name;
        uid = w.new_uid name;
        generation = pos 1;
        creation_timestamp = pos 0;
        deletion_timestamp = none;
        finalizers = [];
        labels =
            (label_policy_uid, policy.meta.uid)
            ∷ (label_scheduled_at, signed_decimal (unix at))
            ∷ (label_trigger, "Schedule")
            ∷ (label_cluster, policy.spec.identity.cluster_ref)
            ∷ [];
        annotations = [];
      };
      spec = record {
        identity = policy.spec.identity;
        trigger = BackupTrigger.schedule;
        source = record {
          type = BackupTaskSourceType.policy;
          policy_ref = some (record { name = policy.meta.name; uid = policy.meta.uid });
        };
        parent_task_ref = none;
        scheduled_at = some at;
        backup_spec = some (with_uid (policy_execution_spec policy) repository.meta.uid);
        backup_spec_hash = w.spec_hash policy repository;
        policy_generation = policy.meta.generation;
        repository_generation = repository.meta.generation;
        cancel_requested = false;
        cancel_reason = "";
        idempotency_key = scheduled_key w policy.meta.uid at;
      };
      status = no_status;
    }
