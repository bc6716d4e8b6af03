-- ===== src/Webhook/Policy.antt =====
-- The validation of a BackupPolicy (api/v1alpha1/webhook_validation.go).
use backup_restore.Prelude.{not, is_empty, str_eq, ◌==◌}
use backup_restore.Api.{BackupPolicySpec}
use backup_restore.Webhook.Check.{
  Check, reject_if, ◌>>◌, Parsers, validate_identity, field_count, repository_ref_required,
  cron_field_count, cron_invalid, timezone_invalid, timeout_or_retention_invalid, immutable_field,
}
use backup_restore.Webhook.Selection.{validate_selection, limits_invalid}

unfoldable pub validate_policy : Parsers → BackupPolicySpec → Check
unfolding validate_identity validate_selection limits_invalid field_count
validate_policy ext spec = do
  validate_identity spec.identity
  reject_if (is_empty spec.repository_ref.name) repository_ref_required
  validate_selection ext spec.selection
  reject_if (not (field_count spec.schedule.cron == 5)) cron_field_count
  reject_if (not (ext.cron_ok spec.schedule.cron)) cron_invalid
  reject_if (not (ext.location_ok spec.schedule.timezone)) timezone_invalid
  reject_if (limits_invalid spec.timeout spec.retention) timeout_or_retention_invalid

-- ValidateUpdate, for an old object of the same kind.
unfoldable pub validate_policy_update : Parsers → BackupPolicySpec → BackupPolicySpec → Check
unfolding validate_policy
validate_policy_update ext previous spec = do
  reject_if (not (str_eq spec.identity.cluster_ref previous.identity.cluster_ref)) immutable_field
  validate_policy ext spec
