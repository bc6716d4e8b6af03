-- ===== src/Webhook/Task/Defs.antt =====
-- ValidateCreate, ValidateUpdate and validate of a BackupTask
-- (api/v1alpha1/webhook_validation.go).
use backup_restore.Prelude.{
  Bool, true, false, ◌||◌, ◌&&◌, not, Option, none, some, is_empty, if◌then◌else◌, decide_eq,
  String-discrete, ℕ_discrete,
}
use backup_restore.Api.{
  ObjectReference, BackupTaskSourceType, BackupTrigger, BackupPhase, BackupExecutionSpec,
  BackupTaskSpec,
}
use backup_restore.Webhook.Check.{
  Check, rejected, reject_if, ◌>>◌, Parsers, validate_identity, manual_policy_task_with_spec,
  policy_source_without_ref, one_time_with_policy_ref, scheduled_one_time, source_type_unsupported,
  backup_spec_required, scheduled_at_required, parent_task_required, spec_immutable,
  cancel_not_revocable,
}
use backup_restore.Webhook.Selection.{validate_backup_execution}
use backup_restore.Webhook.Repository.{is_set}

abbrev pub is_policy : BackupTaskSourceType → Bool
is_policy BackupTaskSourceType.policy = true
is_policy _ = false

abbrev pub is_one_time : BackupTaskSourceType → Bool
is_one_time BackupTaskSourceType.one_time = true
is_one_time _ = false

abbrev pub is_manual : BackupTrigger → Bool
is_manual BackupTrigger.manual = true
is_manual _ = false

abbrev pub is_schedule : BackupTrigger → Bool
is_schedule BackupTrigger.schedule = true
is_schedule _ = false

abbrev pub is_retry : BackupTrigger → Bool
is_retry BackupTrigger.retry = true
is_retry _ = false

abbrev pub lacks_name : Option ObjectReference → Bool
lacks_name none = true
lacks_name (some ref) = is_empty ref.name

-- The `switch` on the source type.
validate_source : BackupTaskSourceType → BackupTaskSpec → Check
validate_source BackupTaskSourceType.policy spec =
    reject_if (lacks_name spec.source.policy_ref) policy_source_without_ref
validate_source BackupTaskSourceType.one_time spec = do
  reject_if (is_set spec.source.policy_ref) one_time_with_policy_ref
  reject_if (is_schedule spec.trigger) scheduled_one_time
validate_source _ spec = rejected source_type_unsupported

validate_task_spec : Parsers → Option BackupExecutionSpec → BackupTaskSpec → Check
validate_task_spec ext (some backup_spec) spec = validate_backup_execution ext backup_spec
validate_task_spec ext none spec =
    reject_if (is_one_time spec.source.type || not (is_manual spec.trigger)) backup_spec_required

unfoldable pub validate_task : Parsers → BackupTaskSpec → Check
unfolding validate_source validate_task_spec validate_identity
validate_task ext spec = do
  validate_identity spec.identity
  validate_source spec.source.type spec
  validate_task_spec ext spec.backup_spec spec
  reject_if (is_schedule spec.trigger && not (is_set spec.scheduled_at)) scheduled_at_required
  reject_if (is_retry spec.trigger && not (is_set spec.parent_task_ref)) parent_task_required

unfoldable pub validate_task_create : Parsers → BackupTaskSpec → Check
unfolding validate_task
validate_task_create ext spec = do
  reject_if (is_policy spec.source.type && is_manual spec.trigger && is_set spec.backup_spec)
      manual_policy_task_with_spec
  validate_task ext spec

-- An admission call ends with the error of a check, or in a nil dereference.
pub data Admission : Type 0 where
  checked : Check → Admission
  panics : Admission

abbrev pub without_cancel : BackupTaskSpec → BackupTaskSpec
without_cancel spec = record spec { cancel_requested = false; cancel_reason = "" }

unfoldable pub is_unstarted : BackupPhase → Bool
is_unstarted BackupPhase.unset = true
is_unstarted BackupPhase.pending = true
is_unstarted _ = false

-- The two ways in which a task that has not started may have fields of its specification filled:
-- the old specification with those fields taken from the new one. `none` is the dereference of
-- the new backupSpec when that is nil.
fill_policy : BackupTaskSpec → BackupTaskSpec → BackupTaskSpec
fill_policy old new = record old {
  source = new.source;
  backup_spec = new.backup_spec;
  backup_spec_hash = new.backup_spec_hash;
  policy_generation = new.policy_generation;
  repository_generation = new.repository_generation;
}

fill_source : Bool → BackupTaskSpec → BackupTaskSpec → BackupTaskSpec
fill_source true old new = record old {
  source = new.source;
  policy_generation = new.policy_generation;
}
fill_source false old new = old

fill_hash :
    BackupExecutionSpec
    → Option BackupExecutionSpec
    → BackupTaskSpec
    → BackupTaskSpec
    → Option BackupTaskSpec
unfolding fill_source
fill_hash frozen none old new = none
fill_hash frozen (some fresh) old new = some (
    fill_source (is_policy old.source.type)
      (record old {
        backup_spec = some (record frozen { repository_ref = fresh.repository_ref });
        backup_spec_hash = new.backup_spec_hash;
        repository_generation = new.repository_generation;
      })
      new)

fill_unstarted :
    Option BackupExecutionSpec → BackupTaskSpec → BackupTaskSpec → Option BackupTaskSpec
unfolding fill_policy fill_hash
fill_unstarted none old new =
    if is_set new.backup_spec && is_policy old.source.type
    then some (fill_policy old new)
    else some old
fill_unstarted (some frozen) old new =
    if is_empty old.backup_spec_hash && not (is_empty new.backup_spec_hash)
    then fill_hash frozen new.backup_spec old new
    else some old

-- The old specification as the comparison sees it.
unfoldable pub expected_spec : BackupPhase → BackupTaskSpec → BackupTaskSpec → Option BackupTaskSpec
unfolding fill_unstarted is_unstarted
expected_spec phase old new =
    if is_unstarted phase then fill_unstarted old.backup_spec old new else some old

-- reflect.DeepEqual.
pub BackupTaskSpec-discrete : Discrete BackupTaskSpec
BackupTaskSpec-discrete = hlevel (String-discrete, ℕ_discrete)

unfoldable pub compare_specs :
    Parsers → BackupTaskSpec → BackupTaskSpec → Option BackupTaskSpec → Admission
compare_specs ext previous spec none = panics
compare_specs ext previous spec (some expected) = checked (do
  reject_if (not (decide_eq (BackupTaskSpec-discrete expected (without_cancel spec))))
      spec_immutable
  reject_if (previous.cancel_requested && not spec.cancel_requested) cancel_not_revocable
  validate_task ext spec)

-- ValidateUpdate, for an old object of the same kind.
unfoldable pub validate_task_update :
    Parsers → BackupPhase → BackupTaskSpec → BackupTaskSpec → Admission
unfolding compare_specs
validate_task_update ext phase previous spec =
    compare_specs ext previous spec
      (expected_spec phase (without_cancel previous) (without_cancel spec))
