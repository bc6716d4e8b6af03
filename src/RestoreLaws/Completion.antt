-- ===== src/RestoreLaws/Completion.antt =====
-- A restore that finds what it needs comes to its end (internal/controller/restore_controller.go).
use backup_restore.Prelude.{ℕ, List, [], ◌∷◌}
use backup_restore.Api.{RestorePhase, RestoreTask, Time}
use backup_restore.RestoreRun.{RestoreWorld, reconcile_restore}

-- The task as it is left by one call after the other.
abbrev pub restore_run : RestoreWorld → List Time → RestoreTask → RestoreTask
restore_run w [] task = task
restore_run w (now ∷ times) task = restore_run w times (reconcile_restore w task now).task

-- How many calls the plan has left.
abbrev pub restore_steps_left : RestorePhase → ℕ
restore_steps_left RestorePhase.unset = 11
restore_steps_left RestorePhase.pending = 10
restore_steps_left RestorePhase.validating_backup = 9
restore_steps_left RestorePhase.downloading = 8
restore_steps_left RestorePhase.generating_plan = 7
restore_steps_left RestorePhase.pre_checking = 6
restore_steps_left RestorePhase.restoring_namespaces = 5
restore_steps_left RestorePhase.restoring_cluster_resources = 4
restore_steps_left RestorePhase.restoring_pvc = 3
restore_steps_left RestorePhase.restoring_namespaced_resources = 2
restore_steps_left RestorePhase.verifying = 1
restore_steps_left _ = 0
