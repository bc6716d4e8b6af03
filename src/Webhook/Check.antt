-- ===== src/Webhook/Check.antt =====
-- The result of a validation, and the checks that several resources share
-- (api/v1alpha1/webhook_validation.go). An error is a constructor for each message of the code.
use Prim.Native.Char.{code}
use backup_restore.Prelude.{
  ℕ, suc, String, Bool, true, false, ◌||◌, ◌&&◌, not, ◌≡◌, List, [], ◌∷◌, Option, none, some, arith,
  ◌==◌, leb, if◌then◌else◌, str_eq, is_empty, contains, Has, Has→contains,
}
use backup_restore.Api.{ResourceIdentity, SecretKeyReference}

pub data Problem : Type 0 where
  cluster_ref_required secret_ref_incomplete secret_ref_namespace : Problem
  local_config_required local_path_unsafe host_path_needs_node pvc_incomplete : Problem
  local_mode_unsupported sftp_config_required sftp_target_incomplete : Problem
  auth_methods_exclusive auth_type_unsupported repository_type_unsupported : Problem
  namespace_mode_needs_namespaces cluster_mode_with_namespaces mode_unsupported : Problem
  namespaces_overlap resources_overlap label_selector_invalid consistency_unsupported : Problem
  hooks_reserved repository_ref_required timeout_or_retention_invalid : Problem
  cron_field_count cron_invalid timezone_invalid immutable_field : Problem
  manual_policy_task_with_spec policy_source_without_ref one_time_with_policy_ref : Problem
  scheduled_one_time source_type_unsupported backup_spec_required scheduled_at_required : Problem
  parent_task_required spec_immutable cancel_not_revocable : Problem
  record_incomplete policy_record_without_ref record_source_inconsistent : Problem
  repository_refs_differ deletion_unconfirmed delete_mode_invalid : Problem
  restore_refs_required mapping_name_empty mapping_not_injective : Problem
  metadata_only_with_pvc recreate_unconfirmed : Problem
  config_name concurrency_not_positive secret_namespaces : Problem

-- The `error` that a validation returns.
pub data Check : Type 0 where
  valid : Check
  rejected : Problem → Check

-- `if err := a; err != nil { return err }`, and on with b.
infixl 5 ◌>>◌
abbrev pub ◌>>◌ : Check → Check → Check
valid >> b = b
rejected p >> b = rejected p

-- `if bad { return p }`.
abbrev pub reject_if : Bool → Problem → Check
reject_if true p = rejected p
reject_if false p = valid

-- What the validation asks of libraries: whether a cron expression, a time zone name and a label
-- selector can be parsed.
pub record Parsers : Type 0 where
  pub cron_ok : String → Bool
  pub location_ok : String → Bool
  pub selector_ok : String → Bool

unfoldable pub validate_identity : ResourceIdentity → Check
validate_identity i = reject_if (is_empty i.cluster_ref) cluster_ref_required

validate_secret : SecretKeyReference → Check
validate_secret ref = do
  reject_if (is_empty ref.namespace || is_empty ref.name || is_empty ref.key) secret_ref_incomplete
  reject_if (not (str_eq ref.namespace "backup-system")) secret_ref_namespace

unfoldable pub validate_secret_ref : Option SecretKeyReference → Check
unfolding validate_secret
validate_secret_ref none = rejected secret_ref_incomplete
validate_secret_ref (some ref) = validate_secret ref

-- Some text of the second list is in the first.
unfoldable pub overlap : List String → List String → Bool
overlap a [] = false
overlap a (v ∷ b) = contains a v || overlap a b

-- unicode.IsSpace.
is_space : ℕ → Bool
is_space c =
    (leb 9 c && leb c 13)
    || c == 32
    || c == 0x85
    || c == 0xa0
    || c == 0x1680
    || (leb 0x2000 c && leb c 0x200a)
    || c == 0x2028
    || c == 0x2029
    || c == 0x202f
    || c == 0x205f
    || c == 0x3000

-- len(strings.Fields(s)); the flag says that the last character belonged to a field.
count_fields : Bool → String → ℕ
count_fields inside String.[] = 0
count_fields inside (String.◌∷◌ c s) =
    let rest = count_fields (not (is_space (code c))) s in
    if not inside && not (is_space (code c)) then suc rest else rest

unfoldable pub field_count : String → ℕ
unfolding count_fields is_space
field_count s = count_fields false s

abbrev pub NoneOf : List String → List String → Type 0
NoneOf a [] = Unit
NoneOf a (v ∷ b) = (¬ Has v a) × NoneOf a b

pub overlap-NoneOf : (a b : List String) → overlap a b ≡ false → NoneOf a b
unfolding overlap
overlap-NoneOf a [] h = tt
overlap-NoneOf a (v ∷ b) h =
    ((λ m. ground (arith, Has→contains a v m)), overlap-NoneOf a b (ground arith))
