-- ===== src/Webhook/Selection.antt =====
-- validateSelection and validateBackupExecution of api/v1alpha1/webhook_validation.go.
use backup_restore.Prelude.{
  String, Bool, true, false, ◌||◌, ◌&&◌, not, List, [], ◌∷◌, Option, none, some, is_empty, str_eq,
}
use backup_restore.Prelude.Int.{pos, leb_ℤ, ltb_ℤ}
use backup_restore.Api.{
  BackupSelectionMode, BackupSelectionSpec, BackupExecutionSpec, RetentionSpec, Duration,
}
use backup_restore.Webhook.Check.{
  Check, reject_if, ◌>>◌, Parsers, overlap, namespace_mode_needs_namespaces,
  cluster_mode_with_namespaces, mode_unsupported, namespaces_overlap, resources_overlap,
  label_selector_invalid, consistency_unsupported, hooks_reserved, repository_ref_required,
  timeout_or_retention_invalid,
}

abbrev pub is_nil {ℓ} : {A : Type ℓ} → List A → Bool
is_nil [] = true
is_nil (x ∷ xs) = false

abbrev pub is_cluster_mode : BackupSelectionMode → Bool
is_cluster_mode BackupSelectionMode.cluster = true
is_cluster_mode _ = false

abbrev pub is_namespace_mode : BackupSelectionMode → Bool
is_namespace_mode BackupSelectionMode.namespace = true
is_namespace_mode _ = false

abbrev pub selector_fails : Parsers → Option String → Bool
selector_fails ext none = false
selector_fails ext (some selector) = not (ext.selector_ok selector)

unfoldable pub validate_selection : Parsers → BackupSelectionSpec → Check
unfolding overlap
validate_selection ext selection = do
  reject_if (is_namespace_mode mode && is_nil include_namespaces) namespace_mode_needs_namespaces
  reject_if (is_cluster_mode mode && not (is_nil include_namespaces)) cluster_mode_with_namespaces
  reject_if (not (is_cluster_mode mode) && not (is_namespace_mode mode)) mode_unsupported
  reject_if (overlap include_namespaces exclude_namespaces) namespaces_overlap
  reject_if
      (overlap resources.include resources.exclude
        || overlap resources.include_cluster resources.exclude_cluster)
      resources_overlap
  reject_if (selector_fails ext label_selector) label_selector_invalid
  reject_if (not (is_empty consistency_mode) && not (str_eq consistency_mode "CrashConsistent"))
      consistency_unsupported
  reject_if (not (is_nil hooks.pre) || not (is_nil hooks.post)) hooks_reserved
  where
    open selection use {
      mode, include_namespaces, exclude_namespaces, resources, label_selector, consistency_mode,
      hooks,
    }

unfoldable pub limits_invalid : Duration → RetentionSpec → Bool
limits_invalid timeout retention =
    leb_ℤ timeout (pos 0)
    || ltb_ℤ retention.max_copies (pos 1)
    || ltb_ℤ retention.max_copies retention.min_copies
    || ltb_ℤ retention.max_age_days (pos 1)

unfoldable pub validate_backup_execution : Parsers → BackupExecutionSpec → Check
unfolding validate_selection limits_invalid
validate_backup_execution ext spec = do
  reject_if (is_empty spec.repository_ref.name) repository_ref_required
  validate_selection ext spec.selection
  reject_if (limits_invalid spec.timeout spec.retention) timeout_or_retention_invalid
