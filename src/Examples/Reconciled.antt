-- ===== src/Examples/Reconciled.antt =====
-- The theorems on the reconciler of a BackupTask at work.
use backup_restore.Prelude.{
  some, ◌∷◌, ℕ, zero, suc, List, All, ◌≡◌, ◌≢◌, refl, inl, ◌⊎◌, true, false, [], none, arith,
}
use backup_restore.Prelude.Int.{◌+ℤ◌, pos}
use backup_restore.Api.{BackupTask, Time, BackupPhase}
use backup_restore.Errors.{other_error, done, failed}
use backup_restore.Webhook.Defaults.{hour}
use backup_restore.Backup.{
  moved, check_frozen, fill_identity, check_repository, check_resolved, resolve_spec, then_resolved,
  transition, backup_task_timeout, requeue, validate, World, reconcile, committed_backup,
}
use backup_restore.BackupLaws.Phases.{Follows, reconcile-Follows}
use backup_restore.BackupLaws.Cancel.{reconcile-ignores_cancel}
use backup_restore.BackupLaws.Validated.{validate-IsValidated, IsValidated}
use backup_restore.BackupLaws.Progress.{Works, IsSettled}
use backup_restore.BackupLaws.Completion.{IsOnCourse, IsInTime, run, run-completes}
use backup_restore.Examples.Samples.{
  record_status, task_spec, task_status, meta_of, execution, task_in, repository, reference,
}

abbrev world : World
world = record {
  cluster_ref = "prod";
  lookups = record {
    policy = λ name. failed other_error;
    repository = λ name. done repository;
    patch_ok = λ spec. true;
    spec_hash = λ spec. "h";
  };
  workspace = done tt;
  collected = done (record { resource_count = 3; pvc_count = 0; warnings = 0 });
  claims = done [];
  archive = done (record { path = "/workspace/a.tgz"; checksum = "00"; size = 9 });
  uploaded = done tt;
  verified = done tt;
  generated = done (reference "record-1");
  record_status = done (record_status false);
}

reconcile-Follows_example :
    Follows BackupPhase.pending
      (reconcile world (task_in BackupPhase.pending false) (pos 1)).0.status.phase
    ⊎ ((reconcile world (task_in BackupPhase.pending false) (pos 1)).0.status.phase
        ≡ BackupPhase.failed)
    ⊎ ((reconcile world (task_in BackupPhase.pending false) (pos 1)).0.status.phase
        ≡ BackupPhase.cancelled)
reconcile-Follows_example = reconcile-Follows world (task_in BackupPhase.pending false) (pos 1)

uploading_committed : committed_backup BackupPhase.uploading ≡ true
unfolding committed_backup
uploading_committed = refl

reconcile-ignores_cancel_example :
    (reconcile world (task_in BackupPhase.uploading true) (pos 1)).0.status.phase
    ≢ BackupPhase.cancelled
reconcile-ignores_cancel_example =
    reconcile-ignores_cancel world (task_in BackupPhase.uploading true) (pos 1) refl
      uploading_committed (λ e. cc)

abbrev new_task : BackupTask
new_task = record {
  meta = meta_of "nightly" (pos 0);
  spec = task_spec (some execution) "h" false;
  status = record (task_status BackupPhase.unset) { started_at = none };
}

settled : IsSettled world.lookups new_task.spec
settled = record {
  frozen = execution;
  repository = repository;
  is_frozen = refl;
  is_identified = refl;
  is_named = refl;
  is_hashed = refl;
  is_found = refl;
  is_ready = refl;
  same_cluster = refl;
  encrypted = λ e. refl;
}

works : Works world
works = record {
  inventory = record { resource_count = 3; pvc_count = 0; warnings = 0 };
  outcomes = [];
  sealed = record { path = "/workspace/a.tgz"; checksum = "00"; size = 9 };
  reference = reference "record-1";
  available = record_status false;
  prepared = refl;
  collected = refl;
  claimed = refl;
  ready = refl;
  none_failed = refl;
  packaged = refl;
  uploaded = refl;
  verified = refl;
  generated = refl;
  recorded = refl;
  is_available = refl;
}

on_course : IsOnCourse world (pos 0) (pos hour) new_task
unfolding backup_task_timeout
on_course = record {
  ours = refl;
  kept = refl;
  wanted = refl;
  lasts = refl;
  settled = settled;
  begun = tt;
  linked = λ e. absurd cc;
}

abbrev pub calls : ℕ → List Time
calls zero = []
calls (suc n) = pos 1 ∷ calls n

pub calls-IsInTime : (n : ℕ) → All (IsInTime (pos 0) (pos hour)) (calls n)
unfolding ◌+ℤ◌
calls-IsInTime zero = tt
calls-IsInTime (suc n) = ((omega arith, omega arith), calls-IsInTime n)

run-completes_example : (run world (calls 11) new_task).status.phase ≡ BackupPhase.completed
run-completes_example =
    run-completes world (pos 0) (pos hour) new_task (calls 11) works on_course (inl refl)
      (calls-IsInTime 11) refl

abbrev pending_task : BackupTask
pending_task = task_in BackupPhase.pending false

abbrev validated : BackupTask
validated =
    (transition pending_task BackupPhase.validating 5 "Validated"
      "references and permissions validated" (pos 1)).0

validated_moves : validate world.lookups pending_task (pos 1) ≡ moved validated requeue
unfolding validate then_resolved resolve_spec check_resolved check_repository fill_identity
    check_frozen transition
validated_moves = refl

validate-IsValidated_example : IsValidated world.lookups validated
validate-IsValidated_example =
    validate-IsValidated world.lookups pending_task (pos 1) validated requeue validated_moves
