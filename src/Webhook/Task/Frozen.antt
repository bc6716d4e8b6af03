-- ===== src/Webhook/Task/Frozen.antt =====
-- What an accepted update of a BackupTask can change.
use backup_restore.Prelude.{
  ◌≡◌, ◌↔◌, ◌⊎◌, inl, inr, true, false, Option, none, some, is_empty, arith, eq_of_decide,
  decide_of_eq, ap, ◌∙◌,
}
use backup_restore.Api.{ObjectReference, BackupPhase, BackupExecutionSpec, BackupTaskSpec}
use backup_restore.Webhook.Check.{valid, Parsers}
use backup_restore.Webhook.Repository.{is_set}
use backup_restore.Webhook.Task.Defs.{
  checked, panics, without_cancel, is_unstarted, expected_spec, validate_task,
  BackupTaskSpec-discrete, compare_specs, validate_task_update,
}

abbrev pub Accepted : Parsers → BackupTaskSpec → BackupTaskSpec → Option BackupTaskSpec → Type 0
Accepted ext previous spec expected =
    (expected ≡ some (without_cancel spec))
    × (previous.cancel_requested ≡ true → spec.cancel_requested ≡ true)
    × (validate_task ext spec ≡ valid)

compare_specs-Accepted :
    (ext : Parsers) (previous spec : BackupTaskSpec) (expected : Option BackupTaskSpec)
    → compare_specs ext previous spec expected ≡ checked valid
    → Accepted ext previous spec expected
unfolding compare_specs
compare_specs-Accepted ext previous spec none h = cc
compare_specs-Accepted ext previous spec (some expected) h = (
  ground (arith, eq_of_decide (BackupTaskSpec-discrete expected (without_cancel spec))),
  ground arith,
  ground arith,
)

update-Accepted :
    (ext : Parsers) (phase : BackupPhase) (previous spec : BackupTaskSpec)
    → validate_task_update ext phase previous spec ≡ checked valid
    → Accepted ext previous spec
        (expected_spec phase (without_cancel previous) (without_cancel spec))
unfolding validate_task_update
update-Accepted ext phase previous spec h = compare_specs-Accepted ext previous spec _ h

-- Started, or with a resolved specification and its hash.
abbrev pub IsFixed : BackupPhase → BackupTaskSpec → Type 0
IsFixed phase spec =
    (is_unstarted phase ≡ false)
    ⊎ ((is_set spec.backup_spec ≡ true) × (is_empty spec.backup_spec_hash ≡ false))

expected_spec_of_IsFixed :
    (phase : BackupPhase) (old new : BackupTaskSpec)
    → IsFixed phase old
    → expected_spec phase old new ≡ some old
unfolding expected_spec
expected_spec_of_IsFixed phase old new (inl started) = ground arith
expected_spec_of_IsFixed phase old new (inr (set, hashed)) = ground arith

compare_specs-valid :
    (ext : Parsers) (previous spec expected : BackupTaskSpec)
    → expected ≡ without_cancel spec
    → (previous.cancel_requested ≡ true → spec.cancel_requested ≡ true)
    → validate_task ext spec ≡ valid
    → compare_specs ext previous spec (some expected) ≡ checked valid
unfolding compare_specs
compare_specs-valid ext previous spec expected same kept ok =
    ground (arith, decide_of_eq (BackupTaskSpec-discrete expected (without_cancel spec)) same)

update_accepted :
    (ext : Parsers) (phase : BackupPhase) (previous spec expected : BackupTaskSpec)
    → expected_spec phase (without_cancel previous) (without_cancel spec) ≡ some expected
    → expected ≡ without_cancel spec
    → (previous.cancel_requested ≡ true → spec.cancel_requested ≡ true)
    → validate_task ext spec ≡ valid
    → validate_task_update ext phase previous spec ≡ checked valid
unfolding validate_task_update
update_accepted ext phase previous spec expected e same kept ok =
    ap (compare_specs ext previous spec) e
    ∙ compare_specs-valid ext previous spec expected same kept ok

-- Once a task has started, or has both a backupSpec and its hash, an update is accepted exactly
-- when it changes nothing but cancelRequested and cancelReason, does not revoke a cancellation,
-- and leaves a specification that passes validation.
pub validate_task_update_fixed :
    (ext : Parsers) (phase : BackupPhase) (previous spec : BackupTaskSpec)
    → IsFixed phase previous
    → (validate_task_update ext phase previous spec ≡ checked valid) ↔ (
        (without_cancel previous ≡ without_cancel spec)
        × (previous.cancel_requested ≡ true → spec.cancel_requested ≡ true)
        × (validate_task ext spec ≡ valid))
validate_task_update_fixed ext phase previous spec fixed =
    let e = expected_spec_of_IsFixed phase (without_cancel previous) (without_cancel spec) fixed in
    (
      λ h.
          let (same, kept, ok) = update-Accepted ext phase previous spec h in
          (cc (same, e), kept, ok),
      λ h. update_accepted ext phase previous spec (without_cancel previous) e h.0 h.1 h.2,
    )

-- The same backup, but perhaps for another repository reference.
abbrev pub SameBackup : BackupExecutionSpec → Option BackupExecutionSpec → Type 0
SameBackup frozen later =
    (ref : ObjectReference) × (later ≡ some (record frozen { repository_ref = ref }))

ref_of : ObjectReference → Option BackupExecutionSpec → ObjectReference
ref_of ref none = ref
ref_of ref (some spec) = spec.repository_ref

expected_spec-SameBackup :
    (phase : BackupPhase) (old new expected : BackupTaskSpec) {frozen : BackupExecutionSpec}
    → old.backup_spec ≡ some frozen
    → expected_spec phase old new ≡ some expected
    → SameBackup frozen expected.backup_spec
unfolding expected_spec ref_of
expected_spec-SameBackup phase old new expected {frozen} e h =
    (ref_of frozen.repository_ref expected.backup_spec, ground arith)

-- A backupSpec, once there, stays: an accepted update, in whatever phase, can change its
-- repository reference only.
validate_task_update-SameBackup :
    (ext : Parsers) (phase : BackupPhase) (previous spec : BackupTaskSpec)
    {frozen : BackupExecutionSpec}
    → previous.backup_spec ≡ some frozen
    → validate_task_update ext phase previous spec ≡ checked valid
    → SameBackup frozen spec.backup_spec
validate_task_update-SameBackup ext phase previous spec e h =
    expected_spec-SameBackup phase (without_cancel previous) (without_cancel spec)
      (without_cancel spec) e (update-Accepted ext phase previous spec h).0

-- The nil dereference.
abbrev pub DropsSpec : BackupPhase → BackupTaskSpec → BackupTaskSpec → Type 0
DropsSpec phase previous spec =
    (is_unstarted phase ≡ true)
    × (is_set previous.backup_spec ≡ true)
    × (is_empty previous.backup_spec_hash ≡ true)
    × (is_empty spec.backup_spec_hash ≡ false)
    × (is_set spec.backup_spec ≡ false)

-- The validation of an update panics exactly when the task has not started, has a backupSpec and
-- no hash, and the update removes the backupSpec and sets a hash.
pub validate_task_update-panics_iff :
    (ext : Parsers) (phase : BackupPhase) (previous spec : BackupTaskSpec)
    → (validate_task_update ext phase previous spec ≡ panics) ↔ DropsSpec phase previous spec
unfolding validate_task_update expected_spec
validate_task_update-panics_iff ext phase previous spec = (λ h. ground arith, λ h. ground arith)
