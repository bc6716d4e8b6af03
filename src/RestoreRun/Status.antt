-- ===== src/RestoreRun/Status.antt =====
-- The small helpers of internal/controller/common.go for restores, and transition, fail, cancel and
-- complete of restore_controller.go. A status patch succeeds; conditions, metrics and the texts of
-- error messages are left out.
use backup_restore.Prelude.{
  String, Bool, true, false, List, [], ◌∷◌, ◌++◌, Option, none, some, is_empty, if◌then◌else◌,
}
use backup_restore.Prelude.Int.{pos, ltb_ℤ, ◌+ℤ◌}
use backup_restore.Api.{RestorePhase, RestoreTask, ErrorDetail, BackupRecord, Time}
use backup_restore.Errors.{Failure, error_code, is_retryable}
use backup_restore.Backup.{append_checkpoint}

-- The phase constants, as a checkpoint spells them.
unfoldable pub restore_phase_text : RestorePhase → String
restore_phase_text RestorePhase.unset = ""
restore_phase_text RestorePhase.pending = "Pending"
restore_phase_text RestorePhase.validating_backup = "ValidatingBackup"
restore_phase_text RestorePhase.downloading = "Downloading"
restore_phase_text RestorePhase.generating_plan = "GeneratingPlan"
restore_phase_text RestorePhase.pre_checking = "PreChecking"
restore_phase_text RestorePhase.restoring_namespaces = "RestoringNamespaces"
restore_phase_text RestorePhase.restoring_cluster_resources = "RestoringClusterResources"
restore_phase_text RestorePhase.restoring_pvc = "RestoringPVC"
restore_phase_text RestorePhase.restoring_namespaced_resources = "RestoringNamespacedResources"
restore_phase_text RestorePhase.verifying = "Verifying"
restore_phase_text RestorePhase.completed = "Completed"
restore_phase_text RestorePhase.partially_failed = "PartiallyFailed"
restore_phase_text RestorePhase.failed = "Failed"
restore_phase_text RestorePhase.cancelling = "Cancelling"
restore_phase_text RestorePhase.cancelled = "Cancelled"
restore_phase_text (RestorePhase.other text) = text

unfoldable pub terminal_restore : RestorePhase → Bool
terminal_restore RestorePhase.completed = true
terminal_restore RestorePhase.partially_failed = true
terminal_restore RestorePhase.failed = true
terminal_restore RestorePhase.cancelled = true
terminal_restore _ = false

abbrev pub error_detail : Failure → Time → ErrorDetail
error_detail e now = record {
  code = error_code e;
  message = "";
  retryable = is_retryable e;
  object_ref = none;
  at = now;
}

-- The start is noted by the first transition beyond Pending.
abbrev pub restore_start : RestorePhase → Option Time → Time → Option Time
restore_start RestorePhase.pending started now = started
restore_start phase none now = some now
restore_start phase (some start) now = some start

unfoldable pub restore_transition :
    RestoreTask → RestorePhase → (reason message : String) → Time → RestoreTask
unfolding append_checkpoint restore_phase_text
restore_transition task phase reason message now = record task {
  status = record (task.status) {
    started_at = restore_start phase task.status.started_at now;
    observed_generation = task.meta.generation;
    phase = phase;
    step = restore_phase_text phase;
    reason = reason;
    message = message;
    last_heartbeat_time = some now;
    checkpoints = append_checkpoint task.status.checkpoints (restore_phase_text phase) reason now;
  };
}

-- The patch has what differs from the task in memory, whose list of errors may be longer than the
-- stored one; what else a failed stage changed in memory is not stored.
unfoldable pub restore_fail : RestoreTask → List ErrorDetail → Failure → Time → RestoreTask
unfolding error_code is_retryable
restore_fail stored errors e now = record stored {
  status = record (stored.status) {
    phase = RestorePhase.failed;
    error_code = error_code e;
    reason = "RestoreFailed";
    message = "";
    completed_at = some now;
    errors = errors ++ error_detail e now ∷ [];
  };
}

unfoldable pub restore_cancel : RestoreTask → String → Time → RestoreTask
restore_cancel task reason now = record task {
  status = record (task.status) {
    phase = RestorePhase.cancelled;
    reason = "Cancelled";
    message = if is_empty reason then "cancel requested" else reason;
    completed_at = some now;
  };
}

unfoldable pub complete : RestoreTask → (reason message : String) → Time → RestoreTask
complete task reason message now = record task {
  status = record (task.status) {
    completed_at = some now;
    reason = reason;
    message = message;
    phase =
        if ltb_ℤ (pos 0) task.status.progress.failed
        then RestorePhase.partially_failed
        else RestorePhase.completed;
  };
}

-- The record that a restore ended with is counted.
unfoldable pub count_restore : BackupRecord → Time → BackupRecord
unfolding ◌+ℤ◌
count_restore found_record now = record found_record {
  status = record (found_record.status) {
    restore_count = found_record.status.restore_count +ℤ pos 1;
    last_restore_time = some now;
  };
}
