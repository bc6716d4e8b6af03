-- ===== src/BackupLaws/Progress.antt =====
-- A backup whose stages succeed runs to its end (internal/controller/backup_controller.go).
use backup_restore.Prelude.{
  ◌≡◌, refl, sym, subst, true, false, Bool, some, List, arith, is_empty, ◌⊎◌, eq→str_eq,
}
use backup_restore.Api.{
  BackupPhase, BackupTask, BackupTaskSpec, BackupExecutionSpec, BackupRepository,
  BackupRecordStatus, RecordPhase, ObjectReference, Time,
}
use backup_restore.Errors.{done}
use backup_restore.Webhook.Repository.{is_set}
use backup_restore.Backup.{
  StageResult, moved, erred, transition, Lookups, validate, then_resolved, resolve_spec,
  fill_identity, check_frozen, then_check, check_repository, check_resolved, Collected,
  ClaimOutcome, is_pending, failures_of, Archive, World, run_stage, prepare, collect, pre_hooks,
  create_snapshots, settle_snapshots, package_backup, upload, verify, generate_record,
  wait_for_record, note_snapshots, go_on,
}
use backup_restore.BackupLaws.Phases.{successor}

-- Every call outside succeeds, the snapshots are ready and the record is found available.
pub record Works (w : World) : Type 0 where
  pub inventory : Collected
  pub outcomes : List ClaimOutcome
  pub sealed : Archive
  pub reference : ObjectReference
  pub available : BackupRecordStatus
  pub prepared : w.workspace ≡ done tt
  pub collected : w.collected ≡ done inventory
  pub claimed : w.claims ≡ done outcomes
  pub ready : is_pending outcomes ≡ false
  pub none_failed : failures_of outcomes ≡ 0
  pub packaged : w.archive ≡ done sealed
  pub uploaded : w.uploaded ≡ done tt
  pub verified : w.verified ≡ done tt
  pub generated : w.generated ≡ done reference
  pub recorded : w.record_status ≡ done available
  pub is_available : available.phase ≡ RecordPhase.available

-- The task has a frozen backup that its repository agrees with.
pub record IsSettled (env : Lookups) (spec : BackupTaskSpec) : Type 0 where
  pub frozen : BackupExecutionSpec
  pub repository : BackupRepository
  pub is_frozen : spec.backup_spec ≡ some frozen
  pub is_identified : is_empty frozen.repository_ref.uid ≡ false
  pub is_named : is_empty spec.backup_spec_hash ≡ false
  pub is_hashed : spec.backup_spec_hash ≡ env.spec_hash frozen
  pub is_found : env.repository frozen.repository_ref.name ≡ done repository
  pub is_ready : repository.phase ≡ "Ready"
  pub same_cluster : repository.spec.identity.cluster_ref ≡ spec.identity.cluster_ref
  pub encrypted :
      frozen.selection.include_secrets ≡ true → repository.spec.encryption.enabled ≡ true

-- The stage ended well, in the next phase, with the task's specification and metadata as before;
-- the start of the task stays or is now, and the record is known when it is to be waited for.
abbrev pub Advances : BackupTask → Time → BackupPhase → StageResult → Type 0
Advances task now p (moved later reply) =
    (later.status.phase ≡ successor p)
    × (later.spec ≡ task.spec)
    × (later.meta ≡ task.meta)
    × ((later.status.started_at ≡ task.status.started_at) ⊎ (later.status.started_at ≡ some now))
    × (p ≡ BackupPhase.verifying → is_set later.status.record_ref ≡ true)
Advances task now p (erred later e) = ⊥

abbrev pub is_stage : BackupPhase → Bool
is_stage BackupPhase.pending = true
is_stage BackupPhase.validating = true
is_stage BackupPhase.preparing = true
is_stage BackupPhase.collecting_resources = true
is_stage BackupPhase.running_pre_hooks = true
is_stage BackupPhase.creating_snapshots = true
is_stage BackupPhase.packaging = true
is_stage BackupPhase.uploading = true
is_stage BackupPhase.verifying = true
is_stage BackupPhase.generating_record = true
is_stage _ = false

module _ (env : Lookups) (task : BackupTask) (now : Time) (ok : IsSettled env task.spec) where
  check_frozen-Advances :
      Advances task now BackupPhase.pending
        (check_frozen env task (some ok.frozen) ok.repository now)
  unfolding check_frozen transition
  check_frozen-Advances = ground (
    arith,
    ok.encrypted,
    eq→str_eq task.spec.backup_spec_hash (env.spec_hash ok.frozen) ok.is_hashed,
    eq→str_eq ok.repository.phase "Ready" ok.is_ready,
    eq→str_eq ok.repository.spec.identity.cluster_ref task.spec.identity.cluster_ref
        ok.same_cluster,
  )

  fill_identity_settled : fill_identity env task ok.frozen ok.repository ≡ go_on task
  unfolding fill_identity
  fill_identity_settled = rw ok.is_identified (rw ok.is_named refl)

  check_repository-Advances :
      Advances task now BackupPhase.pending
        (check_repository env task ok.frozen now (done ok.repository))
  unfolding check_repository
  check_repository-Advances =
      subst (λ pr. Advances task now BackupPhase.pending (then_check env ok.repository now pr))
        (sym fill_identity_settled)
        (subst
          (λ s. Advances task now BackupPhase.pending (check_frozen env task s ok.repository now))
          (sym ok.is_frozen) check_frozen-Advances)

  check_resolved-Advances :
      Advances task now BackupPhase.pending (check_resolved env task (some ok.frozen) now)
  unfolding check_resolved
  check_resolved-Advances =
      subst
        (λ io. Advances task now BackupPhase.pending (check_repository env task ok.frozen now io))
        (sym ok.is_found) check_repository-Advances

  then_resolved-Advances :
      Advances task now BackupPhase.pending
        (then_resolved env now (resolve_spec env task (some ok.frozen)))
  unfolding then_resolved resolve_spec
  then_resolved-Advances =
      subst (λ s. Advances task now BackupPhase.pending (check_resolved env task s now))
        (sym ok.is_frozen) check_resolved-Advances

  validate-Advances : Advances task now BackupPhase.pending (validate env task now)
  unfolding validate
  validate-Advances =
      subst
        (λ s.
          Advances task now BackupPhase.pending (then_resolved env now (resolve_spec env task s)))
        (sym ok.is_frozen) then_resolved-Advances

module _ (w : World) (task : BackupTask) (now : Time) (ok : Works w) where
  settle_snapshots-Advances :
      Advances task now BackupPhase.running_pre_hooks (settle_snapshots ok.outcomes task now)
  unfolding settle_snapshots transition note_snapshots
  settle_snapshots-Advances = ground (arith, ok.ready, ok.none_failed)

  create_snapshots-Advances :
      Advances task now BackupPhase.running_pre_hooks (create_snapshots (done ok.outcomes) task now)
  unfolding create_snapshots transition
  create_snapshots-Advances = ground (arith, settle_snapshots-Advances)

  wait_for_record-Advances :
      is_set task.status.record_ref ≡ true
      → Advances task now BackupPhase.generating_record
          (wait_for_record (done ok.available) task now)
  unfolding wait_for_record
  wait_for_record-Advances = ground (arith, ok.is_available)

  pub stage-Advances :
      (p : BackupPhase)
      → is_stage p ≡ true
      → IsSettled w.lookups task.spec
      → (p ≡ BackupPhase.generating_record → is_set task.status.record_ref ≡ true)
      → Advances task now p (run_stage p w task now)
  unfolding run_stage prepare collect pre_hooks package_backup upload verify generate_record
      transition
  stage-Advances BackupPhase.pending i s k = validate-Advances w.lookups task now s
  stage-Advances BackupPhase.validating i s k = ground (arith, ok.prepared)
  stage-Advances BackupPhase.preparing i s k = ground (arith, ok.collected)
  stage-Advances BackupPhase.collecting_resources i s k = ground arith
  stage-Advances BackupPhase.running_pre_hooks i s k =
      subst (λ io. Advances task now BackupPhase.running_pre_hooks (create_snapshots io task now))
        (sym ok.claimed) create_snapshots-Advances
  stage-Advances BackupPhase.creating_snapshots i s k = ground (arith, ok.packaged)
  stage-Advances BackupPhase.packaging i s k = ground (arith, ok.uploaded)
  stage-Advances BackupPhase.uploading i s k = ground (arith, ok.verified)
  stage-Advances BackupPhase.verifying i s k = ground (arith, ok.generated)
  stage-Advances BackupPhase.generating_record i s k =
      subst (λ io. Advances task now BackupPhase.generating_record (wait_for_record io task now))
        (sym ok.recorded) (wait_for_record-Advances (k refl))
  stage-Advances _ i s k = absurd (ground arith)
