-- ===== src/BackupLaws/Phases.antt =====
-- The phases that one call of the reconciler of a BackupTask can lead to
-- (internal/controller/backup_controller.go).
use backup_restore.Prelude.{◌≡◌, refl, Option, none, some, arith, inl, ◌⊎◌, ap, subst, true}
use backup_restore.Api.{
  BackupPhase, BackupTask, Time, BackupExecutionSpec, BackupRepository, BackupTaskStatus,
}
use backup_restore.Errors.{Io, done, failed}
use backup_restore.Backup.{
  StageResult, moved, erred, transition, fail, cancel, prepare, collect, pre_hooks,
  create_snapshots, package_backup, upload, verify, generate_record, wait_for_record, Lookups,
  validate, then_resolved, resolve_spec, fill_identity, check_frozen, then_check, check_repository,
  check_resolved, World, run_stage, on_live, go_on, give_up, Progress, with_finalizer, on_deletion,
  reconcile, terminal_backup, committed_backup,
}

abbrev pub stage_task : StageResult → BackupTask
stage_task (moved task reply) = task
stage_task (erred task e) = task

-- The plan of a backup, up to its regular end.
abbrev pub successor : BackupPhase → BackupPhase
successor BackupPhase.unset = BackupPhase.pending
successor BackupPhase.pending = BackupPhase.validating
successor BackupPhase.validating = BackupPhase.preparing
successor BackupPhase.preparing = BackupPhase.collecting_resources
successor BackupPhase.collecting_resources = BackupPhase.running_pre_hooks
successor BackupPhase.running_pre_hooks = BackupPhase.creating_snapshots
successor BackupPhase.creating_snapshots = BackupPhase.packaging
successor BackupPhase.packaging = BackupPhase.uploading
successor BackupPhase.uploading = BackupPhase.verifying
successor BackupPhase.verifying = BackupPhase.generating_record
successor BackupPhase.generating_record = BackupPhase.completed
successor phase = phase

-- One step along the plan: a phase stays, or gives way to its successor, and the last phase also
-- to a partial end.
abbrev pub Follows : BackupPhase → BackupPhase → Type 0
Follows p q =
    (q ≡ p)
    ⊎ (q ≡ successor p)
    ⊎ ((p ≡ BackupPhase.generating_record) × (q ≡ BackupPhase.partially_failed))

abbrev phase_of : BackupTaskStatus → BackupPhase
phase_of status = status.phase

abbrev progress_task : Progress → BackupTask
progress_task (go_on task) = task
progress_task (give_up task e) = task

resolve_spec-phase :
    (env : Lookups) (task : BackupTask) (spec : Option BackupExecutionSpec)
    → (progress_task (resolve_spec env task spec)).status ≡ task.status
unfolding resolve_spec
resolve_spec-phase env task spec = ground arith

fill_identity-phase :
    (env : Lookups) (task : BackupTask) (spec : BackupExecutionSpec) (r : BackupRepository)
    → (progress_task (fill_identity env task spec r)).status ≡ task.status
unfolding fill_identity
fill_identity-phase env task spec r = ground arith

abbrev ToValidating : BackupPhase → BackupPhase → Type 0
ToValidating p q = (q ≡ p) ⊎ (q ≡ BackupPhase.validating)

check_frozen-phase :
    (env : Lookups) (task : BackupTask) (spec : Option BackupExecutionSpec) (r : BackupRepository)
    (now : Time)
    → ToValidating task.status.phase (stage_task (check_frozen env task spec r now)).status.phase
unfolding check_frozen transition
check_frozen-phase env task spec r now = ground arith

then_check-phase :
    (env : Lookups) (r : BackupRepository) (now : Time) (p : BackupPhase) (pr : Progress)
    → (progress_task pr).status.phase ≡ p
    → ToValidating p (stage_task (then_check env r now pr)).status.phase
then_check-phase env r now p (give_up task e) h = inl h
then_check-phase env r now p (go_on task) h =
    subst
      (λ p.
        ToValidating p
          (stage_task (check_frozen env task task.spec.backup_spec r now)).status.phase)
      h (check_frozen-phase env task task.spec.backup_spec r now)

check_repository-phase :
    (env : Lookups) (task : BackupTask) (spec : BackupExecutionSpec) (now : Time)
    (io : Io BackupRepository)
    → ToValidating task.status.phase
        (stage_task (check_repository env task spec now io)).status.phase
unfolding check_repository
check_repository-phase env task spec now (failed e) = inl refl
check_repository-phase env task spec now (done r) =
    then_check-phase env r now task.status.phase (fill_identity env task spec r)
      (ap phase_of (fill_identity-phase env task spec r))

check_resolved-phase :
    (env : Lookups) (task : BackupTask) (spec : Option BackupExecutionSpec) (now : Time)
    → ToValidating task.status.phase (stage_task (check_resolved env task spec now)).status.phase
unfolding check_resolved
check_resolved-phase env task none now = inl refl
check_resolved-phase env task (some spec) now =
    check_repository-phase env task spec now (env.repository spec.repository_ref.name)

then_resolved-phase :
    (env : Lookups) (now : Time) (p : BackupPhase) (pr : Progress)
    → (progress_task pr).status.phase ≡ p
    → ToValidating p (stage_task (then_resolved env now pr)).status.phase
unfolding then_resolved
then_resolved-phase env now p (give_up task e) h = inl h
then_resolved-phase env now p (go_on task) h =
    subst
      (λ p.
        ToValidating p
          (stage_task (check_resolved env task task.spec.backup_spec now)).status.phase)
      h (check_resolved-phase env task task.spec.backup_spec now)

validate-phase :
    (env : Lookups) (task : BackupTask) (now : Time)
    → ToValidating task.status.phase (stage_task (validate env task now)).status.phase
unfolding validate
validate-phase env task now =
    then_resolved-phase env now task.status.phase (resolve_spec env task task.spec.backup_spec)
      (ap phase_of (resolve_spec-phase env task task.spec.backup_spec))

pub run_stage-Follows :
    (w : World) (task : BackupTask) (now : Time) (p : BackupPhase)
    → task.status.phase ≡ p
    → Follows p (stage_task (run_stage p w task now)).status.phase
unfolding run_stage prepare collect pre_hooks create_snapshots package_backup upload verify
    generate_record wait_for_record transition
run_stage-Follows w task now BackupPhase.pending e =
    ground (arith, validate-phase w.lookups task now)
run_stage-Follows w task now BackupPhase.validating e = ground arith
run_stage-Follows w task now BackupPhase.preparing e = ground arith
run_stage-Follows w task now BackupPhase.collecting_resources e = ground arith
run_stage-Follows w task now BackupPhase.running_pre_hooks e = ground arith
run_stage-Follows w task now BackupPhase.creating_snapshots e = ground arith
run_stage-Follows w task now BackupPhase.packaging e = ground arith
run_stage-Follows w task now BackupPhase.uploading e = ground arith
run_stage-Follows w task now BackupPhase.verifying e = ground arith
run_stage-Follows w task now BackupPhase.generating_record e = ground arith
run_stage-Follows w task now _ e = ground arith

module _ (w : World) (task : BackupTask) (now : Time) where
  on_live-Follows :
      Follows task.status.phase (on_live w task now).0.status.phase
      ⊎ ((on_live w task now).0.status.phase ≡ BackupPhase.failed)
      ⊎ ((on_live w task now).0.status.phase ≡ BackupPhase.cancelled)
  unfolding on_live fail cancel transition
  on_live-Follows = ground (arith, run_stage-Follows w task now task.status.phase refl)

pub with_finalizer-status : (task : BackupTask) → (with_finalizer task).status ≡ task.status
unfolding with_finalizer
with_finalizer-status task = ground arith

pub with_finalizer-spec : (task : BackupTask) → (with_finalizer task).spec ≡ task.spec
unfolding with_finalizer
with_finalizer-spec task = ground arith

-- One call moves a task by one step of the plan at most, or ends it as failed or cancelled: no
-- phase is skipped and none is gone back to.
pub reconcile-Follows :
    (w : World) (task : BackupTask) (now : Time)
    → Follows task.status.phase (reconcile w task now).0.status.phase
      ⊎ ((reconcile w task now).0.status.phase ≡ BackupPhase.failed)
      ⊎ ((reconcile w task now).0.status.phase ≡ BackupPhase.cancelled)
unfolding reconcile on_deletion cancel
reconcile-Follows w task now =
    ground (arith, on_live-Follows w (with_finalizer task) now, with_finalizer-status task)

-- A task that has ended keeps its status and its specification, whatever the call finds.
reconcile-terminal :
    (w : World) (task : BackupTask) (now : Time)
    → terminal_backup task.status.phase ≡ true
    → ((reconcile w task now).0.status ≡ task.status) × ((reconcile w task now).0.spec ≡ task.spec)
unfolding reconcile on_deletion on_live
reconcile-terminal w task now ended =
    ground (arith, with_finalizer-status task, with_finalizer-spec task)

committed-successor :
    (p : BackupPhase) → committed_backup p ≡ true → committed_backup (successor p) ≡ true
unfolding committed_backup
committed-successor p h = ground arith

committed-Follows :
    (p q : BackupPhase) → Follows p q → committed_backup p ≡ true → committed_backup q ≡ true
unfolding committed_backup
committed-Follows p q f h = ground (arith, committed-successor p)

-- The commit point is not undone: a task at or past the upload is there after the call too.
reconcile-committed :
    (w : World) (task : BackupTask) (now : Time)
    → committed_backup task.status.phase ≡ true
    → committed_backup (reconcile w task now).0.status.phase ≡ true
unfolding committed_backup
reconcile-committed w task now h = ground (
  arith,
  reconcile-Follows w task now,
  committed-Follows task.status.phase (reconcile w task now).0.status.phase,
)
