-- ===== src/Backup/Phases.antt =====
-- The phase tests, the bounded lists and the small helpers of internal/controller/common.go and
-- backup_controller.go.
use backup_restore.Prelude.{
  ℕ, ◌-◌, ◌*◌, String, Bool, true, false, ◌&&◌, not, List, [], ◌∷◌, ◌++◌, Option, none, some,
  length, drop, ltb, str_eq, if◌then◌else◌,
}
use backup_restore.Prelude.Int.{pos, ltb_ℤ, ◌+ℤ◌}
use backup_restore.Api.{
  BackupPhase, TaskCheckpoint, BackupExecutionSpec, BackupPolicy, RetryPolicy, Time, Duration,
}
use backup_restore.Webhook.Defaults.{hour, minute, second}

unfoldable pub terminal_backup : BackupPhase → Bool
terminal_backup BackupPhase.completed = true
terminal_backup BackupPhase.partially_failed = true
terminal_backup BackupPhase.failed = true
terminal_backup BackupPhase.cancelled = true
terminal_backup _ = false

unfoldable pub committed_backup : BackupPhase → Bool
unfolding terminal_backup
committed_backup BackupPhase.uploading = true
committed_backup BackupPhase.verifying = true
committed_backup BackupPhase.generating_record = true
committed_backup phase = terminal_backup phase

unfoldable pub timed_out : Option Time → Duration → Time → Bool
timed_out none timeout now = false
timed_out (some start) timeout now = ltb_ℤ (pos 0) timeout && ltb_ℤ (start +ℤ timeout) now

-- `if len(values) > n { values = values[len(values)-n:] }`.
unfoldable pub keep_last {ℓ} : {A : Type ℓ} → ℕ → List A → List A
keep_last n values = if ltb n (length values) then drop (length values - n) values else values

unfoldable pub append_checkpoint :
    List TaskCheckpoint → String → String → Time → List TaskCheckpoint
unfolding keep_last
append_checkpoint values step key now = keep_last 30 (
    values
    ++ record { step = step; key = key; external_id = ""; completed = true; updated_at = now } ∷ [])

unfoldable pub contains_string : List String → String → Bool
contains_string [] expected = false
contains_string (value ∷ values) expected =
    if str_eq value expected then true else contains_string values expected

unfoldable pub remove_string : List String → String → List String
remove_string [] expected = []
remove_string (value ∷ values) expected =
    let rest = remove_string values expected in
    if not (str_eq value expected) then value ∷ rest else rest

unfoldable pub backup_task_timeout : Option BackupExecutionSpec → Duration
backup_task_timeout none = pos (4 * hour)
backup_task_timeout (some spec) =
    if ltb_ℤ (pos 0) spec.timeout then spec.timeout else pos (4 * hour)

unfoldable pub backup_task_retry_policy : Option BackupExecutionSpec → RetryPolicy
backup_task_retry_policy (some spec) = spec.retry_policy
backup_task_retry_policy none = record {
  max_attempts = pos 3;
  backoff = pos (30 * second);
  max_backoff = pos (10 * minute);
  retryable_codes = [];
}

unfoldable pub policy_execution_spec : BackupPolicy → BackupExecutionSpec
policy_execution_spec policy = record {
  repository_ref = policy.spec.repository_ref;
  selection = policy.spec.selection;
  retention = policy.spec.retention;
  timeout = policy.spec.timeout;
  retry_policy = policy.spec.retry_policy;
  failure_policy = "Continue";
  allow_partial_record = true;
}

-- The phase constants, as a checkpoint spells them.
unfoldable pub phase_text : BackupPhase → String
phase_text BackupPhase.unset = ""
phase_text BackupPhase.pending = "Pending"
phase_text BackupPhase.validating = "Validating"
phase_text BackupPhase.preparing = "Preparing"
phase_text BackupPhase.collecting_resources = "CollectingResources"
phase_text BackupPhase.running_pre_hooks = "RunningPreHooks"
phase_text BackupPhase.creating_snapshots = "CreatingSnapshots"
phase_text BackupPhase.packaging = "Packaging"
phase_text BackupPhase.uploading = "Uploading"
phase_text BackupPhase.verifying = "Verifying"
phase_text BackupPhase.generating_record = "GeneratingRecord"
phase_text BackupPhase.completed = "Completed"
phase_text BackupPhase.partially_failed = "PartiallyFailed"
phase_text BackupPhase.failed = "Failed"
phase_text BackupPhase.cancelling = "Cancelling"
phase_text BackupPhase.cancelled = "Cancelled"
phase_text (BackupPhase.other text) = text
