-- ===== src/RestoreLaws/Phases.antt =====
-- The phases that one call of the reconciler of a RestoreTask can lead to, and when it changes
-- objects of the cluster (internal/controller/restore_controller.go).
use backup_restore.Prelude.{◌≡◌, ◌⊎◌, Bool, true, false, List, []}
use backup_restore.Api.{RestorePhase, RestoreTask}
use backup_restore.RestoreLaws.Quiet.{IsNote, IsEnd, Keeps}
use backup_restore.RestoreRun.{RestoreStep, moved, erred, RestoreOutcome, Call}

-- The plan of a restore.
abbrev pub restore_successor : RestorePhase → RestorePhase
restore_successor RestorePhase.unset = RestorePhase.pending
restore_successor RestorePhase.pending = RestorePhase.validating_backup
restore_successor RestorePhase.validating_backup = RestorePhase.downloading
restore_successor RestorePhase.downloading = RestorePhase.generating_plan
restore_successor RestorePhase.generating_plan = RestorePhase.pre_checking
restore_successor RestorePhase.pre_checking = RestorePhase.restoring_namespaces
restore_successor RestorePhase.restoring_namespaces = RestorePhase.restoring_cluster_resources
restore_successor RestorePhase.restoring_cluster_resources = RestorePhase.restoring_pvc
restore_successor RestorePhase.restoring_pvc = RestorePhase.restoring_namespaced_resources
restore_successor RestorePhase.restoring_namespaced_resources = RestorePhase.verifying
restore_successor phase = phase

-- The last phase: verification, or the precheck of a dry run.
abbrev pub IsLast : Bool → RestorePhase → Type 0
IsLast dry p = (p ≡ RestorePhase.verifying) ⊎ ((p ≡ RestorePhase.pre_checking) × (dry ≡ true))

-- One step along the plan, in which nothing is restored by a dry run.
abbrev pub RestoreFollows : Bool → RestorePhase → RestorePhase → Type 0
RestoreFollows dry p q =
    (q ≡ p)
    ⊎ ((q ≡ restore_successor p) × ((p ≡ RestorePhase.pre_checking) → dry ≡ false))
    ⊎ (IsLast dry p × IsEnd q)

-- The phases after which objects are applied.
abbrev pub is_applying : RestorePhase → Bool
is_applying RestorePhase.pre_checking = true
is_applying RestorePhase.restoring_namespaces = true
is_applying RestorePhase.restoring_cluster_resources = true
is_applying RestorePhase.restoring_pvc = true
is_applying _ = false

-- Objects are changed only by a stage that applies them, and by none of a dry run after precheck;
-- and the status of the record by the call that ends the restore.
abbrev pub MayCall : Bool → RestorePhase → RestorePhase → List Call → Type 0
MayCall dry p q calls =
    (calls ≡ [])
    ⊎ ((is_applying p ≡ true) × ((p ≡ RestorePhase.pre_checking) → dry ≡ false))
    ⊎ (IsLast dry p × IsEnd q × IsNote calls)

abbrev IsStep : RestoreTask → Bool → RestorePhase → RestoreStep → Type 0
IsStep before dry p (moved task reply calls) =
    RestoreFollows dry p task.status.phase
    × Keeps before task
    × MayCall dry p task.status.phase calls
IsStep before dry p (erred task errors e calls) =
    Keeps before task × MayCall dry p RestorePhase.failed calls

-- What a call leaves behind: a phase that follows, or an end by failure or cancellation; and its
-- calls.
abbrev pub LeadsTo : Bool → RestorePhase → RestorePhase → Type 0
LeadsTo dry p q = RestoreFollows dry p q ⊎ (q ≡ RestorePhase.failed) ⊎ (q ≡ RestorePhase.cancelled)

abbrev Moves : Bool → RestorePhase → RestoreOutcome → Type 0
Moves dry p o = LeadsTo dry p o.task.status.phase × MayCall dry p o.task.status.phase o.calls

abbrev pub IsRestoreStep : RestoreTask → RestoreOutcome → Type 0
IsRestoreStep before o =
    LeadsTo before.spec.dry_run before.status.phase o.task.status.phase
    × Keeps before o.task
    × MayCall before.spec.dry_run before.status.phase o.task.status.phase o.calls

-- Adding the finalizer changes nothing of this.
abbrev Same : RestoreTask → RestoreTask → Type 0
Same t u = Keeps u t × (t.status ≡ u.status)
