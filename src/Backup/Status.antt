-- ===== src/Backup/Status.antt =====
-- transition, fail and cancel of internal/controller/backup_controller.go. They write to the task
-- and patch its status; a patch is taken to succeed, so the task that is returned is the stored
-- one. Conditions, events, metrics, the text of error messages, and the names of the pod and its
-- node are left out.
use backup_restore.Prelude.{
  ℕ, ◌^◌, ◌-◌, String, Bool, ◌&&◌, [], ◌∷◌, ◌++◌, Option, none, some, min, is_empty, if◌then◌else◌,
}
use backup_restore.Prelude.Int.{ℤ, pos, pos_part, ltb_ℤ, ◌+ℤ◌, ◌*ℤ◌}
use backup_restore.Api.{BackupPhase, BackupTask, RetryPolicy, Time, Duration}
use backup_restore.Errors.{Failure, error_code, is_retryable}
use backup_restore.Retention.{wrap64}
use backup_restore.Backup.Phases.{
  append_checkpoint, keep_last, backup_task_retry_policy, phase_text,
}

-- ctrl.Result.
pub data Reply : Type 0 where
  stop : Reply
  requeue : Reply
  requeue_after : Duration → Reply

abbrev start_of : BackupPhase → Option Time → Time → Option Time
start_of BackupPhase.pending started now = started
start_of phase none now = some now
start_of phase (some start) now = some start

unfoldable pub transition :
    BackupTask → BackupPhase → ℕ → String → String → Time → BackupTask × Reply
unfolding append_checkpoint phase_text
transition task phase percent reason message now = (
  record task {
    status = record (task.status) {
      started_at = start_of phase task.status.started_at now;
      observed_generation = task.meta.generation;
      phase = phase;
      step = phase_text phase;
      reason = reason;
      message = message;
      progress = record (task.status.progress) { percent = pos percent };
      last_heartbeat_time = some now;
      checkpoints = append_checkpoint task.status.checkpoints (phase_text phase) reason now;
    };
  },
  requeue,
)

-- The pause before a retry, in an int64.
unfoldable pub retry_delay : RetryPolicy → ℤ → Duration
unfolding ◌*ℤ◌ wrap64
retry_delay policy attempt =
    let delay = wrap64 (policy.backoff *ℤ pos (2 ^ min (pos_part attempt - 1) 6)) in
    if ltb_ℤ (pos 0) policy.max_backoff && ltb_ℤ policy.max_backoff delay
    then policy.max_backoff
    else delay

-- The bookkeeping of a failed step, before the decision to try again.
unfoldable pub note_failure : BackupTask → Failure → Time → BackupTask
unfolding error_code is_retryable keep_last
note_failure task err now = record task {
  status = record (task.status) {
    attempt = task.status.attempt +ℤ pos 1;
    error_code = error_code err;
    reason = "StepFailed";
    errors = keep_last 50 (
        task.status.errors
        ++ record {
          code = error_code err;
          message = "";
          retryable = is_retryable err;
          object_ref = none;
          at = now;
        }
          ∷ []);
  };
}

give_up : BackupTask → Time → BackupTask
give_up task now = record task {
  status = record (task.status) { phase = BackupPhase.failed; completed_at = some now };
}

may_retry : RetryPolicy → ℤ → Failure → Bool
unfolding is_retryable
may_retry policy attempt err = is_retryable err && ltb_ℤ attempt policy.max_attempts

unfoldable pub fail : BackupTask → Failure → Time → BackupTask × Reply
unfolding note_failure give_up may_retry backup_task_retry_policy
fail task err now =
    let policy = backup_task_retry_policy task.spec.backup_spec in
    let noted = note_failure task err now in
    if may_retry policy noted.status.attempt err
    then (noted, requeue_after (retry_delay policy noted.status.attempt))
    else (give_up noted now, stop)

-- The snapshots that cancel deletes are those of the status; errors of the deletion are dropped.
unfoldable pub cancel : BackupTask → String → Time → BackupTask × Reply
cancel task reason now = (
  record task {
    status = record (task.status) {
      phase = BackupPhase.cancelled;
      reason = "Cancelled";
      message = if is_empty reason then "cancel requested" else reason;
      error_code = "BR-BACKUP-CANCELLED-005";
      completed_at = some now;
    };
  },
  stop,
)
