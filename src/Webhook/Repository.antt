-- ===== src/Webhook/Repository.antt =====
-- The validation of a BackupRepository (api/v1alpha1/webhook_validation.go).
pub mod Sound
use backup_restore.Prelude.{
  Bool, true, false, ◌||◌, ◌&&◌, not, Option, none, some, is_empty, str_eq, String-discrete,
  decide_eq, if◌then◌else◌,
}
use backup_restore.Prelude.Int.{pos, ltb_ℤ}
use backup_restore.Paths.Safety.{safe_absolute_path}
use backup_restore.Api.{
  RepositoryType, LocalRepositoryMode, SftpAuthType, LocalPvcReference, LocalRepositorySpec,
  SftpAuthSpec, SftpRepositorySpec, BackupRepositorySpec, RepositoryEncryptionSpec,
}
use backup_restore.Webhook.Check.{
  Check, valid, rejected, reject_if, ◌>>◌, validate_identity, validate_secret_ref,
  local_config_required, local_path_unsafe, host_path_needs_node, pvc_incomplete,
  local_mode_unsupported, sftp_config_required, sftp_target_incomplete, auth_methods_exclusive,
  auth_type_unsupported, repository_type_unsupported, immutable_field,
}
use backup_restore.Webhook.Selection.{is_nil}

abbrev pub is_set {ℓ} : {A : Type ℓ} → Option A → Bool
is_set none = false
is_set (some a) = true

pvc_bad : Option LocalPvcReference → Bool
pvc_bad none = true
pvc_bad (some pvc) =
    is_empty pvc.namespace || is_empty pvc.name || not (safe_absolute_path pvc.mount_path)

validate_local : LocalRepositoryMode → LocalRepositorySpec → Check
unfolding pvc_bad
validate_local LocalRepositoryMode.host_path local = do
  reject_if (not (safe_absolute_path local.path)) local_path_unsafe
  reject_if (is_empty local.node_name && is_nil local.node_selector) host_path_needs_node
validate_local LocalRepositoryMode.pvc local = reject_if (pvc_bad local.pvc) pvc_incomplete
validate_local (LocalRepositoryMode.other mode) local = rejected local_mode_unsupported

validate_auth : SftpAuthType → SftpAuthSpec → Check
validate_auth SftpAuthType.password auth = do
  validate_secret_ref auth.password_ref
  reject_if (is_set auth.private_key_ref) auth_methods_exclusive
validate_auth SftpAuthType.private_key auth = do
  validate_secret_ref auth.private_key_ref
  reject_if (is_set auth.password_ref) auth_methods_exclusive
validate_auth (SftpAuthType.other type) auth = rejected auth_type_unsupported

validate_sftp : SftpRepositorySpec → Check
unfolding validate_auth
validate_sftp s = do
  reject_if
      (is_empty s.host
        || ltb_ℤ s.port (pos 1)
        || ltb_ℤ (pos 65535) s.port
        || not (safe_absolute_path s.base_path))
      sftp_target_incomplete
  validate_secret_ref (some s.auth.username_ref)
  validate_auth s.auth.type s.auth
  if s.insecure_skip_host_key_check then valid else validate_secret_ref s.known_hosts_ref

-- The `switch` on the type; a configuration of the other kind is refused.
validate_target : RepositoryType → Option LocalRepositorySpec → Option SftpRepositorySpec → Check
unfolding validate_local validate_sftp
validate_target RepositoryType.local (some local) none = validate_local local.mode local
validate_target RepositoryType.local _ _ = rejected local_config_required
validate_target RepositoryType.sftp none (some s) = validate_sftp s
validate_target RepositoryType.sftp _ _ = rejected sftp_config_required
validate_target (RepositoryType.other type) _ _ = rejected repository_type_unsupported

validate_encryption : RepositoryEncryptionSpec → Check
validate_encryption encryption =
    if encryption.enabled then validate_secret_ref encryption.key_ref else valid

unfoldable pub validate_repository : BackupRepositorySpec → Check
unfolding validate_target validate_encryption validate_identity validate_secret_ref
validate_repository spec = do
  validate_identity spec.identity
  validate_target spec.type spec.local spec.sftp
  validate_encryption spec.encryption

RepositoryType-discrete : Discrete RepositoryType
RepositoryType-discrete = hlevel String-discrete

-- ValidateUpdate, for an old object of the same kind.
unfoldable pub validate_repository_update : BackupRepositorySpec → BackupRepositorySpec → Check
unfolding validate_repository RepositoryType-discrete
validate_repository_update previous spec = do
  reject_if
      (not (str_eq spec.identity.cluster_ref previous.identity.cluster_ref)
        || not (decide_eq (RepositoryType-discrete spec.type previous.type)))
      immutable_field
  validate_repository spec
