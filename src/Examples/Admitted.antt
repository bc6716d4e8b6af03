-- ===== src/Examples/Admitted.antt =====
-- The theorems on admission at work.
use backup_restore.Prelude.{
  ◌≡◌, ◌↔◌, refl, inl, String, Bool, true, false, List, [], ◌∷◌, none, some, All,
}
use backup_restore.Paths.{split_slash, join_slash, is_abs, clean}
use backup_restore.Paths.Safety.{safe_absolute_path, safe_absolute_path-IsBelowRoot, IsBelowRoot}
use backup_restore.Api.{BackupPhase, BackupTaskSpec}
use backup_restore.Webhook.Check.{valid}
use backup_restore.Webhook.Selection.{validate_backup_execution}
use backup_restore.Webhook.Restore.{validate_mapping}
use backup_restore.Webhook.Mapping.{validate_mapping_iff, IsNamed, IsInjective}
use backup_restore.Webhook.Task.{
  checked, panics, is_unstarted, without_cancel, validate_task, validate_task_update,
}
use backup_restore.Webhook.Task.Frozen.{
  validate_task_update_fixed, validate_task_update-panics_iff, DropsSpec,
}
use backup_restore.Examples.Samples.{parsers, task_spec, execution}

data_safe : safe_absolute_path "/srv/data" ≡ true
unfolding safe_absolute_path is_abs split_slash join_slash clean
data_safe = refl

safe_absolute_path-IsBelowRoot_example : IsBelowRoot "/srv/data"
safe_absolute_path-IsBelowRoot_example = safe_absolute_path-IsBelowRoot "/srv/data" data_safe

abbrev two_targets : List (String × String)
two_targets = ("shop", "shop2") ∷ ("bank", "bank2") ∷ []

validate_mapping_iff_example :
    (validate_mapping two_targets ≡ valid) ↔ (All IsNamed two_targets × IsInjective two_targets)
validate_mapping_iff_example = validate_mapping_iff two_targets

abbrev hashed : Bool → BackupTaskSpec
hashed cancel_requested = task_spec (some execution) "h" cancel_requested

hashed_valid : validate_task parsers (hashed true) ≡ valid
unfolding validate_task validate_backup_execution
hashed_valid = refl

started : is_unstarted BackupPhase.packaging ≡ false
unfolding is_unstarted
started = refl

-- A cancellation of a task that runs.
validate_task_update_fixed_example :
    (validate_task_update parsers BackupPhase.packaging (hashed false) (hashed true)
      ≡ checked valid)
    ↔ ((without_cancel (hashed false) ≡ without_cancel (hashed true))
        × ((hashed false).cancel_requested ≡ true → (hashed true).cancel_requested ≡ true)
        × (validate_task parsers (hashed true) ≡ valid))
validate_task_update_fixed_example =
    validate_task_update_fixed parsers BackupPhase.packaging (hashed false) (hashed true)
      (inl started)

validate_task_update-panics_iff_example :
    (validate_task_update parsers BackupPhase.pending
        (task_spec (some execution) "" false)
        (task_spec none "h" false)
      ≡ panics)
    ↔ DropsSpec BackupPhase.pending (task_spec (some execution) "" false) (task_spec none "h" false)
validate_task_update-panics_iff_example =
    validate_task_update-panics_iff parsers BackupPhase.pending
      (task_spec (some execution) "" false) (task_spec none "h" false)
