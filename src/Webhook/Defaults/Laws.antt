-- ===== src/Webhook/Defaults/Laws.antt =====
-- The defaults of api/v1alpha1/webhook_defaults.go are stable.
use backup_restore.Prelude.{◌≡◌, refl, String, List, [], ◌∷◌, Option, none, some, arith}
use backup_restore.Prelude.Int.{ℤ}
use backup_restore.Api.{
  Duration, RetentionSpec, RetryPolicy, BackupSelectionSpec, BackupExecutionSpec, BackupPolicySpec,
  BackupRepositorySpec, SftpRepositorySpec, BackupTaskSpec, BackupTaskSourceType, BackupTrigger,
  ConcurrencyPolicy, MissedRunPolicy, RestoreTaskSpec, BackupPluginConfigSpec, ObjectReference,
}
use backup_restore.Webhook.Defaults.{
  duration_or, int_or, default_string, default_repository, default_policy, default_task,
  default_restore, default_config, default_backup_execution, default_retention, default_selection,
  default_retry_policy, concurrency_or, missed_run_or, trigger_or, source_or, namespaces_or,
  default_sftp, one_copy, default_task_execution, guess_source,
}

duration_or_idem : (d f : Duration) → duration_or (duration_or d f) f ≡ duration_or d f
unfolding duration_or
duration_or_idem d f = ground arith

int_or_idem : (n f : ℤ) → int_or (int_or n f) f ≡ int_or n f
unfolding int_or
int_or_idem n f = ground arith

default_string_idem : (s f : String) → default_string (default_string s f) f ≡ default_string s f
unfolding default_string
default_string_idem s f = ground arith

concurrency_or_idem : (p : ConcurrencyPolicy) → concurrency_or (concurrency_or p) ≡ concurrency_or p
unfolding concurrency_or
concurrency_or_idem p = ground arith

missed_run_or_idem : (p : MissedRunPolicy) → missed_run_or (missed_run_or p) ≡ missed_run_or p
unfolding missed_run_or
missed_run_or_idem p = ground arith

trigger_or_idem : (t : BackupTrigger) → trigger_or (trigger_or t) ≡ trigger_or t
unfolding trigger_or
trigger_or_idem t = ground arith

namespaces_or_idem : (ns : List String) → namespaces_or (namespaces_or ns) ≡ namespaces_or ns
unfolding namespaces_or
namespaces_or_idem [] = refl
namespaces_or_idem (n ∷ ns) = refl

ruleset fields = (
  duration_or_idem, int_or_idem, default_string_idem, concurrency_or_idem, missed_run_or_idem,
  trigger_or_idem, namespaces_or_idem,
)

default_retention_idem :
    (r : RetentionSpec) → default_retention (default_retention r) ≡ default_retention r
unfolding default_retention
default_retention_idem r = simp fields

default_retry_policy_idem :
    (p : RetryPolicy) → default_retry_policy (default_retry_policy p) ≡ default_retry_policy p
unfolding default_retry_policy
default_retry_policy_idem p = simp fields

default_selection_idem :
    (s : BackupSelectionSpec) → default_selection (default_selection s) ≡ default_selection s
unfolding default_selection
default_selection_idem s = simp fields

default_sftp_idem : (s : Option SftpRepositorySpec) → default_sftp (default_sftp s) ≡ default_sftp s
unfolding default_sftp
default_sftp_idem none = refl
default_sftp_idem (some s) = simp fields

ruleset parts = (
  fields, default_retention_idem, default_retry_policy_idem, default_selection_idem,
  default_sftp_idem,
)

default_backup_execution_idem :
    (s : BackupExecutionSpec)
    → default_backup_execution (default_backup_execution s) ≡ default_backup_execution s
unfolding default_backup_execution
default_backup_execution_idem s = simp parts

-- Defaulting a repository again changes nothing.
default_repository_idem :
    (spec : BackupRepositorySpec)
    → default_repository (default_repository spec) ≡ default_repository spec
unfolding default_repository
default_repository_idem spec = simp parts

-- Defaulting a policy again changes nothing.
default_policy_idem :
    (spec : BackupPolicySpec) → default_policy (default_policy spec) ≡ default_policy spec
unfolding default_policy
default_policy_idem spec = simp parts

-- Defaulting a restore task again changes nothing.
pub default_restore_idem :
    (spec : RestoreTaskSpec) → default_restore (default_restore spec) ≡ default_restore spec
unfolding default_restore
default_restore_idem spec = simp parts

-- Defaulting the operator's configuration again changes nothing.
pub default_config_idem :
    (spec : BackupPluginConfigSpec) → default_config (default_config spec) ≡ default_config spec
unfolding default_config
default_config_idem spec = simp parts

one_copy-default_retention :
    (type : BackupTaskSourceType) (r : RetentionSpec)
    → one_copy type (default_retention r) ≡ default_retention r
unfolding one_copy default_retention int_or
one_copy-default_retention type r = ground arith

default_task_execution_idem :
    (type : BackupTaskSourceType) (s : Option BackupExecutionSpec)
    → default_task_execution type (default_task_execution type s) ≡ default_task_execution type s
unfolding default_task_execution default_backup_execution
default_task_execution_idem type none = refl
default_task_execution_idem type (some s) = simp (parts, one_copy-default_retention)

source_or_idem :
    (type : BackupTaskSourceType) (ref : Option ObjectReference) (s : Option BackupExecutionSpec)
    → source_or
        (source_or type (guess_source ref s))
        (guess_source ref (default_task_execution (source_or type (guess_source ref s)) s))
      ≡ source_or type (guess_source ref s)
unfolding source_or default_task_execution
source_or_idem BackupTaskSourceType.unset (some ref) s = refl
source_or_idem BackupTaskSourceType.unset none (some s) = refl
source_or_idem BackupTaskSourceType.unset none none = refl
source_or_idem BackupTaskSourceType.policy ref s = refl
source_or_idem BackupTaskSourceType.one_time ref s = refl
source_or_idem (BackupTaskSourceType.other type) ref s = refl

-- Defaulting a backup task again changes nothing.
default_task_idem : (spec : BackupTaskSpec) → default_task (default_task spec) ≡ default_task spec
unfolding default_task
default_task_idem spec = simp (parts, source_or_idem, default_task_execution_idem)
