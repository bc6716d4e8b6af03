-- ===== src/RestoreLaws/DryRun.antt =====
-- What a dry run changes (internal/controller/restore_controller.go).
use backup_restore.Prelude.{Bool, true, false, List, [], ◌∷◌, ◌++◌}
use backup_restore.Api.{RestorePhase, RestoreTask, Time}
use backup_restore.RestoreRun.{RestoreWorld, Call, reconcile_restore}

-- The calls that change the cluster, of one call of the reconciler after the other, each with what
-- it finds outside.
abbrev pub all_calls : List (RestoreWorld × Time) → RestoreTask → List Call
all_calls [] task = []
all_calls ((w, now) ∷ rest) task =
    (reconcile_restore w task now).calls ++ all_calls rest (reconcile_restore w task now).task

-- The phases behind the precheck, in which objects have been applied.
abbrev pub is_restoring : RestorePhase → Bool
is_restoring RestorePhase.restoring_namespaces = true
is_restoring RestorePhase.restoring_cluster_resources = true
is_restoring RestorePhase.restoring_pvc = true
is_restoring RestorePhase.restoring_namespaced_resources = true
is_restoring _ = false
