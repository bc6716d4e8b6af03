-- ===== src/RestoreRun/Reconcile.antt =====
-- Reconcile of internal/controller/restore_controller.go.
use backup_restore.Prelude.{
  String, Bool, true, false, ◌&&◌, ◌||◌, not, ℕ, List, [], ◌∷◌, ◌++◌, none, some, is_empty, str_eq,
  if◌then◌else◌,
}
use backup_restore.Api.{RestorePhase, RestoreTask, BackupRecord, Time}
use backup_restore.Errors.{operator_error, Io}
use backup_restore.Backup.{Reply, stop, requeue, contains_string, remove_string, timed_out}
use backup_restore.Restore.{PlanItem}
use backup_restore.RestoreRun.Status.{
  count_restore, terminal_restore, restore_transition, restore_fail, restore_cancel, complete,
}
use backup_restore.RestoreRun.Apply.{Answers, Call}
use backup_restore.RestoreRun.Stages.{
  RestoreStep, moved, erred, rejected, moved_to, Downloads, Planning, validate_backup, download,
  generate_plan,
}
use backup_restore.RestoreRun.Checks.{
  note_calls, Target, Present, precheck, apply_stage, verify_restore,
}

abbrev pub restore_finalizer : String
restore_finalizer = "protection.platform.io/restore-task-execution"

-- What one call finds outside.
pub record RestoreWorld : Type 0 where
  pub cluster_ref : String
  pub found_record : Io BackupRecord
  pub downloads : Downloads
  pub planning : Planning
  pub plan : Io (List PlanItem)
  pub targets : ℕ → Target
  pub record_read : Io (Unit {0})
  pub answers : ℕ → Answers
  pub objects : ℕ → Present

-- The task as it is stored afterwards, the reply, and the calls that change the cluster.
pub record RestoreOutcome : Type 0 where
  pub task : RestoreTask
  pub reply : Reply
  pub calls : List Call

abbrev pub quiet : RestoreTask → Reply → RestoreOutcome
quiet task reply = record { task = task; reply = reply; calls = [] }

unfoldable pub apply_to : RestoreWorld → RestorePhase → RestoreTask → Time → RestoreStep
unfolding apply_stage
apply_to w stage task now = apply_stage w.plan w.record_read w.answers stage task now

abbrev pub dry_run_done : Io BackupRecord → RestoreTask → Time → RestoreStep
unfolding complete count_restore
dry_run_done noted task now =
    moved
      (complete task "DryRunCompleted" "restore plan passed precheck; no resources were changed"
        now)
      stop (note_calls noted now)

-- The `switch` on the phase.
unfoldable pub run_restore_stage : RestorePhase → RestoreWorld → RestoreTask → Time → RestoreStep
unfolding complete count_restore apply_to restore_transition
run_restore_stage RestorePhase.pending w task now = validate_backup w.found_record task now
run_restore_stage RestorePhase.validating_backup w task now = download w.downloads task now
run_restore_stage RestorePhase.downloading w task now = generate_plan w.planning task now
run_restore_stage RestorePhase.generating_plan w task now = precheck w.plan w.targets task now
run_restore_stage RestorePhase.pre_checking w task now =
    if task.spec.dry_run
    then dry_run_done w.found_record task now
    else apply_to w RestorePhase.restoring_namespaces task now
run_restore_stage RestorePhase.restoring_namespaces w task now =
    apply_to w RestorePhase.restoring_cluster_resources task now
run_restore_stage RestorePhase.restoring_cluster_resources w task now =
    apply_to w RestorePhase.restoring_pvc task now
run_restore_stage RestorePhase.restoring_pvc w task now =
    apply_to w RestorePhase.restoring_namespaced_resources task now
run_restore_stage RestorePhase.restoring_namespaced_resources w task now =
    moved_to task RestorePhase.verifying "ResourcesApplied" "all restore plan stages were applied"
      now
run_restore_stage RestorePhase.verifying w task now =
    verify_restore w.plan w.objects w.found_record task now
run_restore_stage _ w task now = rejected task (operator_error "BR-INTERNAL-001" false)

abbrev pub after_restore_stage : RestoreStep → Time → RestoreOutcome
unfolding restore_fail
after_restore_stage (moved task reply calls) now = record {
  task = task;
  reply = reply;
  calls = calls;
}
after_restore_stage (erred task errors e calls) now = record {
  task = restore_fail task errors e now;
  reply = stop;
  calls = calls;
}

unfoldable pub on_restore_deletion : RestoreTask → Time → RestoreOutcome
unfolding terminal_restore restore_cancel
on_restore_deletion task now =
    if not (terminal_restore task.status.phase)
    then quiet (restore_cancel task "task was deleted" now) stop
    else if contains_string task.meta.finalizers restore_finalizer
    then quiet
        (record task {
          meta = record (task.meta) {
            finalizers = remove_string task.meta.finalizers restore_finalizer;
          };
        })
        stop
    else quiet task stop

unfoldable pub with_restore_finalizer : RestoreTask → RestoreTask
with_restore_finalizer task =
    if contains_string task.meta.finalizers restore_finalizer then task else record task {
      meta = record (task.meta) { finalizers = task.meta.finalizers ++ restore_finalizer ∷ [] };
    }

abbrev pub is_new : RestorePhase → Bool
is_new RestorePhase.unset = true
is_new _ = false

unfoldable pub on_live_restore : RestoreWorld → RestoreTask → Time → RestoreOutcome
unfolding terminal_restore restore_cancel restore_fail restore_transition run_restore_stage
on_live_restore w task now =
    if terminal_restore task.status.phase
    then quiet task stop
    else if task.spec.cancel_requested
    then quiet (restore_cancel task task.spec.cancel_reason now) stop
    else if timed_out task.status.started_at task.spec.timeout now
    then quiet (restore_fail task task.status.errors (operator_error "BR-INTERNAL-001" false) now)
        stop
    else if is_new task.status.phase
    then quiet (restore_transition task RestorePhase.pending "Queued" "restore task accepted" now)
        requeue
    else after_restore_stage (run_restore_stage task.status.phase w task now) now

abbrev pub is_foreign_restore : RestoreWorld → RestoreTask → Bool
is_foreign_restore w task =
    not (is_empty w.cluster_ref)
    && (not (str_eq task.spec.identity.cluster_ref w.cluster_ref)
        || not (str_eq task.spec.target_cluster_ref w.cluster_ref))

unfoldable pub reconcile_restore : RestoreWorld → RestoreTask → Time → RestoreOutcome
unfolding on_live_restore on_restore_deletion with_restore_finalizer
reconcile_restore w task now = elim (task.meta.deletion_timestamp) [
  | some _ ↦ if is_foreign_restore w task then quiet task stop else on_restore_deletion task now
  | none ↦
      if is_foreign_restore w task
      then quiet task stop
      else on_live_restore w (with_restore_finalizer task) now
]
