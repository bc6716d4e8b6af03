-- ===== src/Webhook/Record.antt =====
-- The validation of a BackupRecord (api/v1alpha1/webhook_validation.go).
use backup_restore.Prelude.{
  String, Bool, ◌||◌, not, is_empty, str_eq, get_text, decide_eq, String-discrete, ℕ_discrete,
  if◌then◌else◌, List,
}
use backup_restore.Paths.Safety.{safe_relative_path}
use backup_restore.Api.{BackupRecordSpec}
use backup_restore.Webhook.Check.{
  Check, reject_if, ◌>>◌, Parsers, validate_identity, record_incomplete, policy_record_without_ref,
  record_source_inconsistent, repository_refs_differ, deletion_unconfirmed, delete_mode_invalid,
  spec_immutable,
}
use backup_restore.Webhook.Selection.{validate_backup_execution}
use backup_restore.Webhook.Repository.{is_set}
use backup_restore.Webhook.Task.{is_policy, is_one_time, lacks_name}

record_source : BackupRecordSpec → Check
record_source spec =
    if is_policy spec.source_type
    then reject_if (lacks_name spec.policy_ref) policy_record_without_ref
    else reject_if (not (is_one_time spec.source_type) || is_set spec.policy_ref)
        record_source_inconsistent

unfoldable pub validate_record : Parsers → BackupRecordSpec → Check
unfolding record_source validate_identity
validate_record ext spec = do
  validate_identity spec.identity
  reject_if
      (is_empty spec.backup_id
        || is_empty spec.source_task_ref.name
        || is_empty spec.repository_ref.name
        || is_empty spec.backup_spec_hash
        || not (safe_relative_path spec.backup_path)
        || is_empty spec.checksum)
      record_incomplete
  record_source spec
  reject_if (not (str_eq spec.backup_spec.repository_ref.name spec.repository_ref.name))
      repository_refs_differ
  validate_backup_execution ext spec.backup_spec

pub BackupRecordSpec-discrete : Discrete BackupRecordSpec
BackupRecordSpec-discrete = hlevel (String-discrete, ℕ_discrete)

unfoldable pub validate_record_update : BackupRecordSpec → BackupRecordSpec → Check
validate_record_update previous spec =
    reject_if (not (decide_eq (BackupRecordSpec-discrete previous spec))) spec_immutable

abbrev pub annotation_delete_mode : String
annotation_delete_mode = "protection.platform.io/delete-mode"

abbrev pub annotation_delete_confirmed : String
annotation_delete_confirmed = "protection.platform.io/delete-confirmed"

unfoldable pub is_delete_mode : String → Bool
is_delete_mode mode =
    str_eq mode "RecordOnly"
    || str_eq mode "RepositoryData"
    || str_eq mode "RepositoryDataAndSnapshots"

unfoldable pub validate_record_delete : List (String × String) → Check
unfolding is_delete_mode
validate_record_delete annotations = do
  reject_if (not (str_eq (get_text annotation_delete_confirmed annotations) "true"))
      deletion_unconfirmed
  reject_if (not (is_delete_mode (get_text annotation_delete_mode annotations))) delete_mode_invalid
