-- ===== src/BackupLaws/Validated.antt =====
-- What the validate stage of a BackupTask (internal/controller/backup_controller.go) establishes.
use backup_restore.Prelude.{
  String, ◌≡◌, refl, ap, ◌∙◌, Option, none, some, true, arith, str_eq→eq, Bool-cases, inl, inr,
  is_empty, ◌||◌,
}
use backup_restore.Api.{BackupPhase, BackupTask, BackupExecutionSpec, BackupRepository, Time}
use backup_restore.Errors.{Io, done, failed}
use backup_restore.Backup.{
  StageResult, moved, Reply, transition, Lookups, validate, then_resolved, resolve_spec,
  fill_identity, check_frozen, then_check, check_repository, check_resolved, go_on, give_up,
  Progress, with_uid, patched,
}

-- The task has an execution specification with its hash, for a repository that was found Ready in
-- the task's cluster, and encrypted if the selection has Secrets.
pub record IsValidated (env : Lookups) (task : BackupTask) : Type 0 where
  pub frozen : BackupExecutionSpec
  pub repository : BackupRepository
  pub is_frozen : task.spec.backup_spec ≡ some frozen
  pub is_hashed : task.spec.backup_spec_hash ≡ env.spec_hash frozen
  pub is_found : env.repository frozen.repository_ref.name ≡ done repository
  pub is_ready : repository.phase ≡ "Ready"
  pub same_cluster : repository.spec.identity.cluster_ref ≡ task.spec.identity.cluster_ref
  pub encrypted :
      frozen.selection.include_secrets ≡ true → repository.spec.encryption.enabled ≡ true
  pub is_validating : task.status.phase ≡ BackupPhase.validating

module _ (env : Lookups) (now : Time) where
  abbrev Establishes : StageResult → Type 0
  Establishes stage =
      (task : BackupTask) (reply : Reply) → stage ≡ moved task reply → IsValidated env task

  check_frozen-IsValidated :
      (task : BackupTask) (spec : BackupExecutionSpec) (repository : BackupRepository)
      → task.spec.backup_spec ≡ some spec
      → env.repository spec.repository_ref.name ≡ done repository
      → Establishes (check_frozen env task (some spec) repository now)
  unfolding check_frozen transition
  check_frozen-IsValidated task spec repository e found task' reply h = record {
    frozen = spec;
    repository = repository;
    is_frozen = ground arith;
    is_hashed = ground (arith, str_eq→eq task.spec.backup_spec_hash (env.spec_hash spec));
    is_found = found;
    is_ready = ground (arith, str_eq→eq repository.phase "Ready");
    same_cluster =
        ground
          (arith, str_eq→eq repository.spec.identity.cluster_ref task.spec.identity.cluster_ref);
    encrypted = ground arith;
    is_validating = ground arith;
  }

  check_option-IsValidated :
      (task : BackupTask) (spec : Option BackupExecutionSpec) (repository : BackupRepository)
      (name : String)
      → task.spec.backup_spec ≡ spec
      → ((frozen : BackupExecutionSpec) → spec ≡ some frozen → frozen.repository_ref.name ≡ name)
      → env.repository name ≡ done repository
      → Establishes (check_frozen env task spec repository now)
  check_option-IsValidated task none repository name e same found =
      λ task' reply h. absurd (unfold check_frozen in cc)
  check_option-IsValidated task (some spec) repository name e same found =
      check_frozen-IsValidated task spec repository e (ap env.repository (same spec refl) ∙ found)

  -- The name of the repository is kept when its identity is filled in.
  Names : String → Progress → Type 0
  Names name (give_up task e) = Unit
  Names name (go_on task) =
      (frozen : BackupExecutionSpec)
      → task.spec.backup_spec ≡ some frozen
      → frozen.repository_ref.name ≡ name

  patched-Names :
      (name : String) (task changed : BackupTask)
      → Names name (go_on changed)
      → Names name (patched env task changed)
  unfolding Names
  patched-Names name task changed n = elim (Bool-cases (env.patch_ok changed.spec)) [
    | inl b ↦ rw b n
    | inr b ↦ rw b tt
  ]

  Names-spec :
      (task : BackupTask) (spec : BackupExecutionSpec)
      → task.spec.backup_spec ≡ some spec
      → Names spec.repository_ref.name (go_on task)
  unfolding Names
  Names-spec task spec e = λ frozen e'. ground arith

  fill_identity-Names :
      (task : BackupTask) (spec : BackupExecutionSpec) (repository : BackupRepository)
      → task.spec.backup_spec ≡ some spec
      → Names spec.repository_ref.name (fill_identity env task spec repository)
  unfolding fill_identity
  fill_identity-Names task spec repository e =
      let renewed = is_empty spec.repository_ref.uid || is_empty task.spec.backup_spec_hash in
      elim (Bool-cases renewed) [
        | inl b ↦ rw b (
            patched-Names spec.repository_ref.name task _
              (Names-spec _ (with_uid spec repository.meta.uid) refl))
        | inr b ↦ rw b (Names-spec task spec e)
      ]

  then_check-IsValidated :
      (repository : BackupRepository) (name : String) (pr : Progress)
      → Names name pr
      → env.repository name ≡ done repository
      → Establishes (then_check env repository now pr)
  unfolding Names
  then_check-IsValidated repository name (give_up task e) n found = λ task' reply h. cc
  then_check-IsValidated repository name (go_on task) n found =
      check_option-IsValidated task task.spec.backup_spec repository name refl n found

  check_repository-IsValidated :
      (task : BackupTask) (spec : BackupExecutionSpec) (io : Io BackupRepository)
      → task.spec.backup_spec ≡ some spec
      → env.repository spec.repository_ref.name ≡ io
      → Establishes (check_repository env task spec now io)
  unfolding check_repository
  check_repository-IsValidated task spec (failed e) s found = λ task' reply h. cc
  check_repository-IsValidated task spec (done repository) s found =
      then_check-IsValidated repository spec.repository_ref.name _
        (fill_identity-Names task spec repository s) found

  check_resolved-IsValidated :
      (task : BackupTask) (spec : Option BackupExecutionSpec)
      → task.spec.backup_spec ≡ spec
      → Establishes (check_resolved env task spec now)
  unfolding check_resolved
  check_resolved-IsValidated task none e = λ task' reply h. cc
  check_resolved-IsValidated task (some spec) e = check_repository-IsValidated task spec _ e refl

  then_resolved-IsValidated : (pr : Progress) → Establishes (then_resolved env now pr)
  unfolding then_resolved
  then_resolved-IsValidated (give_up task e) = λ task' reply h. cc
  then_resolved-IsValidated (go_on task) =
      check_resolved-IsValidated task task.spec.backup_spec refl

-- When the validate stage ends without an error, the task that it returns is validated.
pub validate-IsValidated :
    (env : Lookups) (task : BackupTask) (now : Time) (later : BackupTask) (reply : Reply)
    → validate env task now ≡ moved later reply
    → IsValidated env later
unfolding validate
validate-IsValidated env task now later reply h =
    then_resolved-IsValidated env now (resolve_spec env task task.spec.backup_spec) later reply h
