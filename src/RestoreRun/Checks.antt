-- ===== src/RestoreRun/Checks.antt =====
-- precheck, applyStage and verifyRestore of internal/controller/restore_controller.go.
use backup_restore.Prelude.{
  ℕ, ◌+◌, String, Bool, true, false, ◌||◌, List, [], ◌∷◌, ◌++◌, none, some, ltb, length, ◌*◌,
  str_eq, if◌then◌else◌,
}
use backup_restore.Prelude.Int.{pos, ◌+ℤ◌}
use backup_restore.Api.{
  BackupRecord, RestorePhase, RestoreTask, RestoreConflictPolicy, ErrorDetail, Time,
}
use backup_restore.Errors.{Failure, operator_error, Io, done, failed, error_code, is_retryable}
use backup_restore.Backup.{requeue, requeue_after, stop, append_checkpoint}
use backup_restore.Webhook.Defaults.{second}
use backup_restore.Webhook.Repository.{is_set}
use backup_restore.Restore.{PlanItem, resolve}
use backup_restore.RestoreRun.Status.{count_restore, complete, error_detail}
use backup_restore.RestoreRun.Apply.{
  note_restore, Call, Answers, Found, found, not_found, get_failed,
}
use backup_restore.RestoreRun.Stage.{Loop, apply_items, tally_of, with_tally, end_stage}
use backup_restore.RestoreRun.Stages.{RestoreStep, moved, erred, rejected, precheck_error}

-- schema.ParseGroupVersion and RESTMapping: an error of the first, or of the second, which may be
-- that the cluster has no such kind.
pub data Mapped : Type 0 where
  mapped no_match : Mapped
  unparsed unavailable : Failure → Mapped

-- What precheck finds in the cluster for an object of the plan.
pub record Target : Type 0 where
  pub mapping : Mapped
  pub existing : Found

unfoldable pub has_kind : String → List PlanItem → Bool
has_kind kind [] = false
has_kind kind (item ∷ items) = str_eq item.kind kind || has_kind kind items

pub record Counts : Type 0 where
  pub conflicts : ℕ
  pub blocking : ℕ
  pub warnings : ℕ

pub data Prechecked : Type 0 where
  counted : Counts → Prechecked
  check_failed : Failure → Prechecked

unfoldable pub note_conflict : RestoreConflictPolicy → PlanItem → Counts → Counts
unfolding resolve
note_conflict policy item c = record c {
  conflicts = c.conflicts + 1;
  blocking =
      if is_set ((resolve policy item.source_gvr item.kind true).1)
      then c.blocking + 1
      else c.blocking;
}

-- One object, and the loop over the others from the counts on.
abbrev pub check_existing :
    RestoreConflictPolicy → PlanItem → Counts → Found → (Counts → Prechecked) → Prechecked
unfolding note_conflict
check_existing policy item c found rest = rest (note_conflict policy item c)
check_existing policy item c not_found rest = rest c
check_existing policy item c (get_failed e) rest = check_failed e

abbrev pub check_target :
    RestoreConflictPolicy
    → (has_crd : Bool) → PlanItem
    → Counts
    → Target
    → Mapped
    → (Counts → Prechecked)
    → Prechecked
unfolding note_conflict
check_target policy has_crd item c target mapped rest =
    check_existing policy item c target.existing rest
check_target policy has_crd item c target no_match rest =
    if has_crd then rest (record c { warnings = c.warnings + 1 }) else check_failed precheck_error
check_target policy has_crd item c target (unparsed e) rest = check_failed e
check_target policy has_crd item c target (unavailable e) rest = check_failed precheck_error

unfoldable pub check_items :
    RestoreConflictPolicy → Bool → (targets : ℕ → Target) → ℕ → List PlanItem → Counts → Prechecked
unfolding note_conflict
check_items policy has_crd targets place [] c = counted c
check_items policy has_crd targets place (item ∷ items) c =
    check_target policy has_crd item c (targets place) ((targets place).mapping)
      (check_items policy has_crd targets (place + 1) items)

unfoldable pub note_precheck : RestoreTask → Counts → Time → RestoreTask
unfolding append_checkpoint ◌+ℤ◌
note_precheck task c now = record task {
  status = record (task.status) {
    phase = RestorePhase.pre_checking;
    step = "PreChecking";
    plan = record (task.status.plan) {
      conflict_count = pos c.conflicts;
      blocking_count = pos c.blocking;
      warning_count = task.status.plan.warning_count +ℤ pos c.warnings;
    };
    checkpoints = append_checkpoint task.status.checkpoints "PreChecking" task.status.plan.hash now;
  };
}

abbrev pub after_check : RestoreTask → Prechecked → Time → RestoreStep
unfolding note_precheck
after_check task (check_failed e) now = rejected task e
after_check task (counted c) now =
    if ltb 0 c.blocking
    then rejected task (operator_error "BR-RESTORE-CONFLICT-002" false)
    else moved (note_precheck task c now) requeue []

unfoldable pub precheck :
    Io (List PlanItem) → (targets : ℕ → Target) → RestoreTask → Time → RestoreStep
unfolding check_items has_kind note_precheck
precheck (failed e) targets task now = rejected task e
precheck (done plan) targets task now =
    after_check task
      (check_items task.spec.conflict_policy (has_kind "CustomResourceDefinition" plan) targets 0
        plan (record { conflicts = 0; blocking = 0; warnings = 0 }))
      now

-- An error ends the loop under FailFast: the tally is stored before fail is called.
abbrev pub after_loop : RestoreTask → RestorePhase → Loop → Time → RestoreStep
unfolding end_stage
after_loop task stage l now = elim (l.error) [
  | some e ↦ erred (with_tally task l.tally) l.tally.errors e l.calls
  | none ↦ moved (end_stage task stage l.tally now) requeue l.calls
]

-- `found_record` tells that the record is read.
unfoldable pub apply_stage :
    Io (List PlanItem)
    → Io (Unit {0})
    → (answers : ℕ → Answers) → RestorePhase
    → RestoreTask
    → Time
    → RestoreStep
unfolding apply_items end_stage
apply_stage (failed e) found_record answers stage task now = rejected task e
apply_stage (done plan) (failed e) answers stage task now = rejected task e
apply_stage (done plan) (done _) answers stage task now =
    after_loop task stage (apply_items stage task.spec answers now 0 plan (tally_of task.status))
      now

-- What verifyRestore finds for an object: no mapping, or the object with its phase.
pub data Present : Type 0 where
  present : (phase : String) → Present
  absent : Present
  unreadable : Failure → Present

pub data Verified : Type 0 where
  all_bound : (missing : List ErrorDetail) → (bound : ℕ) → Verified
  not_bound : Verified
  verify_failed : List ErrorDetail → Failure → Verified

-- `missing` has an error for each object that is not there.
abbrev pub verify_item :
    PlanItem → Present → List ErrorDetail → ℕ → Time → (List ErrorDetail → ℕ → Verified) → Verified
unfolding error_code is_retryable
verify_item item (unreadable e) missing bound now rest = verify_failed missing e
verify_item item absent missing bound now rest =
    rest (missing ++ error_detail (operator_error "BR-RESTORE-RESOURCE-004" false) now ∷ []) bound
verify_item item (present phase) missing bound now rest =
    if str_eq item.kind "PersistentVolumeClaim"
    then (if str_eq phase "Bound" then rest missing (bound + 1) else not_bound)
    else rest missing bound

unfoldable pub verify_items :
    (objects : ℕ → Present) → Time → ℕ → List PlanItem → List ErrorDetail → ℕ → Verified
unfolding error_code is_retryable
verify_items objects now place [] missing bound = all_bound missing bound
verify_items objects now place (item ∷ items) missing bound =
    verify_item item (objects place) missing bound now (verify_items objects now (place + 1) items)

unfoldable pub note_verified : RestoreTask → List ErrorDetail → ℕ → RestoreTask
unfolding ◌+ℤ◌
note_verified task missing bound = record task {
  status = record (task.status) {
    progress = record (task.status.progress) {
      failed = task.status.progress.failed +ℤ pos (length missing);
      bound_pvcs = pos bound;
    };
    errors = task.status.errors ++ missing;
  };
}

-- complete reads the record again and patches its status; an error of either is ignored.
abbrev pub note_calls : Io BackupRecord → Time → List Call
unfolding count_restore
note_calls (failed e) now = []
note_calls (done found_record) now = note_restore (count_restore found_record now) ∷ []

abbrev pub after_verify : Io BackupRecord → RestoreTask → Verified → Time → RestoreStep
unfolding note_verified complete count_restore
after_verify noted task (verify_failed missing e) now =
    erred task (task.status.errors ++ missing) e []
after_verify noted task not_bound now = moved task (requeue_after (pos (5 * second))) []
after_verify noted task (all_bound missing bound) now =
    moved
      (complete (note_verified task missing bound) "RestoreCompleted"
        "restored objects exist and all restored PVCs are Bound" now)
      stop (note_calls noted now)

unfoldable pub verify_restore :
    Io (List PlanItem)
    → (objects : ℕ → Present) → Io BackupRecord
    → RestoreTask
    → Time
    → RestoreStep
unfolding verify_items note_verified complete count_restore
verify_restore (failed e) objects noted task now = rejected task e
verify_restore (done plan) objects noted task now =
    after_verify noted task (verify_items objects now 0 plan [] 0) now
