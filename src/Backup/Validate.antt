-- ===== src/Backup/Validate.antt =====
-- The validate stage of internal/controller/backup_controller.go: a task's execution
-- specification is resolved from its policy, frozen by a hash, and checked against its repository.
use backup_restore.Prelude.{
  String, Bool, true, false, ◌&&◌, ◌||◌, not, Option, none, some, is_empty, str_eq, if◌then◌else◌,
}
use backup_restore.Api.{
  BackupPhase, BackupTask, BackupTaskSpec, BackupExecutionSpec, BackupPolicy, BackupRepository,
  ObjectReference, Time,
}
use backup_restore.Errors.{Failure, operator_error, other_error, Io, done, failed}
use backup_restore.Webhook.Task.{is_policy}
use backup_restore.Backup.Phases.{policy_execution_spec}
use backup_restore.Backup.Status.{transition}
use backup_restore.Backup.Stages.{StageResult, erred, moved_by}

-- The reads of the stage, whether a patch of the specification is accepted (the webhook may refuse
-- it), and the hash of an execution specification.
pub record Lookups : Type 0 where
  pub policy : String → Io BackupPolicy
  pub repository : String → Io BackupRepository
  pub patch_ok : BackupTaskSpec → Bool
  pub spec_hash : BackupExecutionSpec → String

-- A step of the stage: the task to go on with, or the end of the stage.
pub data Progress : Type 0 where
  go_on : BackupTask → Progress
  give_up : BackupTask → Failure → Progress

abbrev pub with_uid : BackupExecutionSpec → String → BackupExecutionSpec
with_uid spec uid = record spec { repository_ref = record (spec.repository_ref) { uid = uid } }

abbrev pub patched : Lookups → BackupTask → BackupTask → Progress
patched env task changed =
    if env.patch_ok changed.spec then go_on changed else give_up task other_error

resolve_with :
    Lookups → BackupTask → ObjectReference → BackupPolicy → Io BackupRepository → Progress
resolve_with env task ref policy (failed e) = give_up task e
resolve_with env task ref policy (done repository) =
    let spec = with_uid (policy_execution_spec policy) repository.meta.uid in
    patched env task (record task {
      spec = record (task.spec) {
        source = record (task.spec.source) {
          policy_ref = some (record ref { uid = policy.meta.uid });
        };
        backup_spec = some spec;
        policy_generation = policy.meta.generation;
        repository_generation = repository.meta.generation;
        backup_spec_hash = env.spec_hash spec;
      };
    })

resolve_policy : Lookups → BackupTask → ObjectReference → Io BackupPolicy → Progress
unfolding resolve_with
resolve_policy env task ref (failed e) =
    give_up task (operator_error "BR-SELECTION-INVALID-001" false)
resolve_policy env task ref (done policy) =
    let found = resolve_with env task ref policy (env.repository policy.spec.repository_ref.name) in
    if not (str_eq policy.spec.identity.cluster_ref task.spec.identity.cluster_ref)
    then give_up task (operator_error "BR-PERMISSION-DENIED-001" false)
    else found

-- `if task.Spec.BackupSpec == nil { … }`.
unfoldable pub resolve_spec : Lookups → BackupTask → Option BackupExecutionSpec → Progress
unfolding resolve_policy
resolve_spec env task (some spec) = go_on task
resolve_spec env task none =
    let missing = give_up task (operator_error "BR-SELECTION-INVALID-001" false) in
    if not (is_policy task.spec.source.type) then missing else elim (task.spec.source.policy_ref) [
      | none ↦ missing
      | some ref ↦ resolve_policy env task ref (env.policy ref.name)
    ]

-- The repository's identity and the hash are filled in where either is missing.
unfoldable pub fill_identity :
    Lookups → BackupTask → BackupExecutionSpec → BackupRepository → Progress
fill_identity env task spec repository =
    let fresh = with_uid spec repository.meta.uid in
    if is_empty spec.repository_ref.uid || is_empty task.spec.backup_spec_hash
    then patched env task (record task {
      spec = record (task.spec) {
        backup_spec = some fresh;
        repository_generation = repository.meta.generation;
        backup_spec_hash = env.spec_hash fresh;
      };
    })
    else go_on task

-- The checks of the frozen specification against the repository.
unfoldable pub check_frozen :
    Lookups → BackupTask → Option BackupExecutionSpec → BackupRepository → Time → StageResult
check_frozen env task none repository now =
    erred task (operator_error "BR-SELECTION-INVALID-001" false)
check_frozen env task (some spec) repository now =
    if not (str_eq task.spec.backup_spec_hash (env.spec_hash spec))
    then erred task (operator_error "BR-SELECTION-INVALID-001" false)
    else if not (str_eq repository.phase "Ready")
    then erred task (operator_error "BR-REPO-CONNECT-001" true)
    else if not (str_eq repository.spec.identity.cluster_ref task.spec.identity.cluster_ref)
    then erred task (operator_error "BR-PERMISSION-DENIED-001" false)
    else if spec.selection.include_secrets && not repository.spec.encryption.enabled
    then erred task (operator_error "BR-PERMISSION-DENIED-001" false)
    else moved_by (
        transition task BackupPhase.validating 5 "Validated" "references and permissions validated"
          now)

abbrev pub then_check : Lookups → BackupRepository → Time → Progress → StageResult
then_check env repository now (give_up task e) = erred task e
then_check env repository now (go_on task) =
    check_frozen env task task.spec.backup_spec repository now

unfoldable pub check_repository :
    Lookups → BackupTask → BackupExecutionSpec → Time → Io BackupRepository → StageResult
check_repository env task spec now (failed e) = erred task e
check_repository env task spec now (done repository) =
    then_check env repository now (fill_identity env task spec repository)

unfoldable pub check_resolved :
    Lookups → BackupTask → Option BackupExecutionSpec → Time → StageResult
unfolding check_repository
check_resolved env task none now = erred task (operator_error "BR-SELECTION-INVALID-001" false)
check_resolved env task (some spec) now =
    check_repository env task spec now (env.repository spec.repository_ref.name)

unfoldable pub then_resolved : Lookups → Time → Progress → StageResult
unfolding check_resolved
then_resolved env now (give_up task e) = erred task e
then_resolved env now (go_on task) = check_resolved env task task.spec.backup_spec now

unfoldable pub validate : Lookups → BackupTask → Time → StageResult
unfolding check_resolved
validate env task now = then_resolved env now (resolve_spec env task task.spec.backup_spec)
