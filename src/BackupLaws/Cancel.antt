-- ===== src/BackupLaws/Cancel.antt =====
-- Cancellation and failure of a BackupTask (internal/controller/backup_controller.go).
use backup_restore.Prelude.{◌≡◌, ◌≢◌, true, false, none, arith, ◌⊎◌}
use backup_restore.Prelude.Int.{ℤ, pos, ltb_ℤ, ◌+ℤ◌, ◌≤ℤ◌}
use backup_restore.Api.{BackupPhase, BackupTask, Time, RetryPolicy}
use backup_restore.Errors.{Failure, is_retryable, error_code}
use backup_restore.Backup.{
  committed_backup, fail, note_failure, World, with_finalizer, on_live, reconcile, retry_delay,
  requeue_after, stop, backup_task_retry_policy, transition,
}
use backup_restore.BackupLaws.Phases.{run_stage-Follows, with_finalizer-status, with_finalizer-spec}

-- Past the commit point a cancellation is ignored: unless the task is deleted, it does not become
-- cancelled.
pub reconcile-ignores_cancel :
    (w : World) (task : BackupTask) (now : Time)
    → task.meta.deletion_timestamp ≡ none
    → committed_backup task.status.phase ≡ true
    → task.status.phase ≢ BackupPhase.cancelled
    → (reconcile w task now).0.status.phase ≢ BackupPhase.cancelled
unfolding reconcile on_live fail transition committed_backup
reconcile-ignores_cancel w task now kept committed live h = ground (
  arith,
  run_stage-Follows w (with_finalizer task) now task.status.phase,
  with_finalizer-status task,
  with_finalizer-spec task,
)

-- A failed step is tried again exactly if its error is retryable and the attempts, this one
-- included, are fewer than the policy's; else the task ends as failed. Either way the attempt is
-- counted and the code of the error is recorded.
fail_lem :
    (task : BackupTask) (err : Failure) (now : Time)
    → let policy = backup_task_retry_policy task.spec.backup_spec in
      let attempt = task.status.attempt +ℤ pos 1 in
      let (task', reply) = fail task err now in
      (task'.status.attempt ≡ attempt)
      × (task'.status.error_code ≡ error_code err)
      × (((is_retryable err ≡ true)
            × (ltb_ℤ attempt policy.max_attempts ≡ true)
            × (task'.status.phase ≡ task.status.phase)
            × (reply ≡ requeue_after (retry_delay policy attempt)))
          ⊎ (((is_retryable err ≡ false) ⊎ (ltb_ℤ attempt policy.max_attempts ≡ false))
              × (task'.status.phase ≡ BackupPhase.failed)
              × (reply ≡ stop)))
unfolding fail note_failure
fail_lem task err now = ground arith

-- The pause before a retry is never longer than a positive MaxBackoff.
retry_delay-le-max :
    (policy : RetryPolicy) (attempt : ℤ)
    → pos 1 ≤ℤ policy.max_backoff
    → retry_delay policy attempt ≤ℤ policy.max_backoff
unfolding retry_delay
retry_delay-le-max policy attempt positive = ground arith
