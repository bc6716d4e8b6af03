-- ===== src/Webhook/Config.antt =====
-- The validation of a BackupPluginConfig (api/v1alpha1/webhook_validation.go).
use backup_restore.Prelude.{String, Bool, true, ◌||◌, not, List, [], ◌∷◌, str_eq}
use backup_restore.Prelude.Int.{pos, ltb_ℤ}
use backup_restore.Api.{BackupPluginConfig}
use backup_restore.Webhook.Check.{
  Check, reject_if, ◌>>◌, Parsers, config_name, timezone_invalid, concurrency_not_positive,
  secret_namespaces,
}

-- Anything but the one namespace that holds the operator's Secrets.
unfoldable pub namespaces_bad : List String → Bool
namespaces_bad [] = true
namespaces_bad (namespace ∷ []) = not (str_eq namespace "backup-system")
namespaces_bad (namespace ∷ other ∷ rest) = true

unfoldable pub validate_config : Parsers → BackupPluginConfig → Check
unfolding namespaces_bad
validate_config ext c = do
  reject_if (not (str_eq c.meta.name "cluster")) config_name
  reject_if (not (ext.location_ok c.spec.default_timezone)) timezone_invalid
  reject_if
      (ltb_ℤ c.spec.concurrency.max_backup_tasks (pos 1)
        || ltb_ℤ c.spec.concurrency.max_restore_tasks (pos 1)
        || ltb_ℤ c.spec.kubernetes_client.qps (pos 1)
        || ltb_ℤ c.spec.kubernetes_client.burst (pos 1))
      concurrency_not_positive
  reject_if (namespaces_bad c.spec.security.allowed_secret_namespaces) secret_namespaces
