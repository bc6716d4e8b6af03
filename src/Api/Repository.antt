-- ===== src/Api/Repository.antt =====
-- api/v1alpha1/backuprepository_types.go: the specification of a repository.
use backup_restore.Prelude.{String, Bool, List, Option}
use backup_restore.Prelude.Int.{ℤ}
use backup_restore.Api.Common.{Duration, ObjectMeta, SecretKeyReference, ResourceIdentity}

pub data RepositoryType : Type 0 where
  local : RepositoryType
  sftp : RepositoryType
  other : String → RepositoryType

pub data LocalRepositoryMode : Type 0 where
  host_path : LocalRepositoryMode
  pvc : LocalRepositoryMode
  other : String → LocalRepositoryMode

pub data SftpAuthType : Type 0 where
  password : SftpAuthType
  private_key : SftpAuthType
  other : String → SftpAuthType

pub record LocalPvcReference : Type 0 where
  pub namespace : String
  pub name : String
  pub mount_path : String
  pub sub_path : String

pub record LocalRepositorySpec : Type 0 where
  pub mode : LocalRepositoryMode
  pub path : String
  pub node_name : String
  pub node_selector : List (String × String)
  pub pvc : Option LocalPvcReference
  pub uid : ℤ
  pub gid : ℤ

pub record SftpAuthSpec : Type 0 where
  pub type : SftpAuthType
  pub username_ref : SecretKeyReference
  pub password_ref : Option SecretKeyReference
  pub private_key_ref : Option SecretKeyReference
  pub passphrase_ref : Option SecretKeyReference

pub record SftpRepositorySpec : Type 0 where
  pub host : String
  pub port : ℤ
  pub base_path : String
  pub auth : SftpAuthSpec
  pub known_hosts_ref : Option SecretKeyReference
  pub insecure_skip_host_key_check : Bool
  pub connect_timeout : Duration
  pub operation_timeout : Duration
  pub keep_alive_interval : Duration
  pub max_connections : ℤ

pub record RepositoryCompressionSpec : Type 0 where
  pub algorithm : String
  pub level : ℤ

pub record RepositoryEncryptionSpec : Type 0 where
  pub enabled : Bool
  pub algorithm : String
  pub key_ref : Option SecretKeyReference

pub record BackupRepositorySpec : Type 0 where
  pub identity : ResourceIdentity
  pub type : RepositoryType
  pub enabled : Bool
  pub local : Option LocalRepositorySpec
  pub sftp : Option SftpRepositorySpec
  pub compression : RepositoryCompressionSpec
  pub encryption : RepositoryEncryptionSpec
  pub health_check_interval : Duration
  pub timeout : Duration
  pub retry_count : ℤ
  pub minimum_free_bytes : Option ℤ
  pub deletion_protection : Bool

pub record BackupRepository : Type 0 where
  pub meta : ObjectMeta
  pub spec : BackupRepositorySpec
  pub phase : String
