-- ===== src/Webhook/Repository/Sound.antt =====
-- What an accepted BackupRepository looks like (api/v1alpha1/webhook_validation.go).
use backup_restore.Prelude.{◌≡◌, ◌≢◌, ◌⊎◌, false, Option, none, some, []}
use backup_restore.Prelude.Int.{pos, ◌≤ℤ◌}
use backup_restore.Paths.Safety.{IsBelowRoot}
use backup_restore.Api.{
  RepositoryType, LocalRepositoryMode, SftpAuthType, LocalRepositorySpec, LocalPvcReference,
  SftpAuthSpec, SftpRepositorySpec, SecretKeyReference,
}

-- A complete reference to a Secret in the operator's namespace.
abbrev pub IsSecret : Option SecretKeyReference → Type 0
IsSecret none = ⊥
IsSecret (some ref) = (ref.namespace ≡ "backup-system") × (ref.name ≢ "") × (ref.key ≢ "")

abbrev pub IsVolume : Option LocalPvcReference → Type 0
IsVolume none = ⊥
IsVolume (some pvc) = (pvc.namespace ≢ "") × (pvc.name ≢ "") × IsBelowRoot pvc.mount_path

abbrev pub IsLocal : LocalRepositorySpec → Type 0
IsLocal l =
    ((l.mode ≡ LocalRepositoryMode.host_path)
      × IsBelowRoot l.path
      × ((l.node_name ≢ "") ⊎ (l.node_selector ≢ [])))
    ⊎ ((l.mode ≡ LocalRepositoryMode.pvc) × IsVolume l.pvc)

-- Exactly one way to log in.
abbrev pub IsAuth : SftpAuthSpec → Type 0
IsAuth auth =
    ((auth.type ≡ SftpAuthType.password)
      × IsSecret auth.password_ref
      × (auth.private_key_ref ≡ none))
    ⊎ ((auth.type ≡ SftpAuthType.private_key)
        × IsSecret auth.private_key_ref
        × (auth.password_ref ≡ none))

pub record IsSftp (s : SftpRepositorySpec) : Type 0 where
  pub host : s.host ≢ ""
  pub port : (pos 1 ≤ℤ s.port) × (s.port ≤ℤ pos 65535)
  pub below_root : IsBelowRoot s.base_path
  pub username : IsSecret (some s.auth.username_ref)
  pub auth : IsAuth s.auth
  pub known_hosts : s.insecure_skip_host_key_check ≡ false → IsSecret s.known_hosts_ref

-- One configuration, of the kind that the type says.
abbrev pub IsTarget :
    RepositoryType → Option LocalRepositorySpec → Option SftpRepositorySpec → Type 0
IsTarget RepositoryType.local (some l) none = IsLocal l
IsTarget RepositoryType.sftp none (some s) = IsSftp s
IsTarget _ _ _ = ⊥
