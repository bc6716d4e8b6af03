-- ===== src/Backup/Reconcile.antt =====
-- Reconcile of internal/controller/backup_controller.go.
use backup_restore.Prelude.{
  String, Bool, true, false, ◌&&◌, not, List, [], ◌∷◌, ◌++◌, none, some, is_empty, str_eq,
  if◌then◌else◌,
}
use backup_restore.Api.{BackupPhase, BackupTask, BackupRecordStatus, ObjectReference, Time}
use backup_restore.Errors.{operator_error, Io}
use backup_restore.Backup.Phases.{
  terminal_backup, committed_backup, timed_out, contains_string, remove_string, backup_task_timeout,
}
use backup_restore.Backup.Status.{Reply, stop, transition, fail, cancel}
use backup_restore.Backup.Stages.{
  StageResult, moved, erred, prepare, Collected, collect, pre_hooks, ClaimOutcome, create_snapshots,
  Archive, package_backup, upload, verify, generate_record, wait_for_record,
}
use backup_restore.Backup.Validate.{Lookups, validate}

abbrev pub backup_task_finalizer : String
backup_task_finalizer = "protection.platform.io/backup-task-execution"

-- What one call finds outside.
pub record World : Type 0 where
  pub cluster_ref : String
  pub lookups : Lookups
  pub workspace : Io (Unit {0})
  pub collected : Io Collected
  pub claims : Io (List ClaimOutcome)
  pub archive : Io Archive
  pub uploaded : Io (Unit {0})
  pub verified : Io (Unit {0})
  pub generated : Io ObjectReference
  pub record_status : Io BackupRecordStatus

-- The `switch` on the phase.
unfoldable pub run_stage : BackupPhase → World → BackupTask → Time → StageResult
run_stage BackupPhase.pending w task now = validate w.lookups task now
run_stage BackupPhase.validating w task now = prepare w.workspace task now
run_stage BackupPhase.preparing w task now = collect w.collected task now
run_stage BackupPhase.collecting_resources w task now = pre_hooks task now
run_stage BackupPhase.running_pre_hooks w task now = create_snapshots w.claims task now
run_stage BackupPhase.creating_snapshots w task now = package_backup w.archive task now
run_stage BackupPhase.packaging w task now = upload w.uploaded task now
run_stage BackupPhase.uploading w task now = verify w.verified task now
run_stage BackupPhase.verifying w task now = generate_record w.generated task now
run_stage BackupPhase.generating_record w task now = wait_for_record w.record_status task now
run_stage _ w task now = erred task (operator_error "BR-INTERNAL-001" false)

abbrev pub after_stage : StageResult → Time → BackupTask × Reply
after_stage (moved task reply) now = (task, reply)
after_stage (erred task e) now = fail task e now

-- A task that is being deleted.
unfoldable pub on_deletion : BackupTask → Time → BackupTask × Reply
on_deletion task now =
    if not (terminal_backup task.status.phase)
    then cancel task "task was deleted" now
    else if contains_string task.meta.finalizers backup_task_finalizer
    then (
      record task {
        meta = record (task.meta) {
          finalizers = remove_string task.meta.finalizers backup_task_finalizer;
        };
      },
      stop,
    )
    else (task, stop)

unfoldable pub with_finalizer : BackupTask → BackupTask
with_finalizer task =
    if contains_string task.meta.finalizers backup_task_finalizer then task else record task {
      meta = record (task.meta) { finalizers = task.meta.finalizers ++ backup_task_finalizer ∷ [] };
    }

abbrev pub is_unset : BackupPhase → Bool
is_unset BackupPhase.unset = true
is_unset _ = false

-- A task that is not being deleted, with its finalizer.
unfoldable pub on_live : World → BackupTask → Time → BackupTask × Reply
on_live w task now =
    let phase = task.status.phase in
    if terminal_backup phase
    then (task, stop)
    else if task.spec.cancel_requested && not (committed_backup phase)
    then cancel task task.spec.cancel_reason now
    else if timed_out task.status.started_at (backup_task_timeout task.spec.backup_spec) now
    then fail task (operator_error "BR-INTERNAL-001" false) now
    else if is_unset phase
    then transition task BackupPhase.pending 0 "Queued" "backup task accepted" now
    else after_stage (run_stage phase w task now) now

abbrev pub is_foreign : World → BackupTask → Bool
is_foreign w task =
    not (is_empty w.cluster_ref) && not (str_eq task.spec.identity.cluster_ref w.cluster_ref)

unfoldable pub reconcile : World → BackupTask → Time → BackupTask × Reply
reconcile w task now = elim (task.meta.deletion_timestamp) [
  | some _ ↦ if is_foreign w task then (task, stop) else on_deletion task now
  | none ↦ if is_foreign w task then (task, stop) else on_live w (with_finalizer task) now
]
