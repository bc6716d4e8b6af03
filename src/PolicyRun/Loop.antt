-- ===== src/PolicyRun/Loop.antt =====
-- The loop over the due times in Reconcile of internal/controller/policy_controller.go.
use backup_restore.Prelude.{
  Bool, true, false, ◌&&◌, not, List, [], ◌∷◌, ◌++◌, Option, none, some, if◌then◌else◌,
}
use backup_restore.Api.{
  Time, ObjectReference, BackupRepository, BackupPolicy, ConcurrencyPolicy, SkippedRun, BackupTask,
}
use backup_restore.Errors.{Failure, done, failed}
use backup_restore.Webhook.Selection.{is_nil}
use backup_restore.Backup.{terminal_backup}
use backup_restore.PolicyRun.Tasks.{
  PolicyWorld, find_task, reference_of, cancel_active, Stored, append_limited_skipped,
  scheduled_task,
}

-- What the loop over the due times changes.
pub record Slots : Type 0 where
  pub tasks : List BackupTask
  pub active : List ObjectReference
  pub skipped_runs : List SkippedRun
  pub last_schedule_time : Option Time

-- A step of the loop goes on, or ends the call with an error; the stored tasks stay as they are.
pub data SlotResult : Type 0 where
  next_slot : Slots → SlotResult
  slot_error : List BackupTask → Failure → SlotResult

abbrev pub is_forbid : ConcurrencyPolicy → Bool
is_forbid ConcurrencyPolicy.forbid = true
is_forbid _ = false

abbrev pub is_replace : ConcurrencyPolicy → Bool
is_replace ConcurrencyPolicy.replace = true
is_replace _ = false

abbrev pub noted_slot : Slots → Time → List BackupTask → List ObjectReference → SlotResult
noted_slot s at tasks active =
    next_slot (record s { tasks = tasks; active = active; last_schedule_time = some at })

-- The creation of a slot's task; a task of this name that is there already counts as the slot's.
unfoldable pub create_slot : PolicyWorld → BackupTask → Time → Slots → SlotResult
unfolding find_task
create_slot w task at s = elim (find_task task.meta.name s.tasks) [
  | some existing ↦ noted_slot s at s.tasks (
      if not (terminal_backup existing.status.phase)
      then s.active ++ reference_of existing ∷ []
      else s.active)
  | none ↦ elim (w.admit task) [
    | failed e ↦ slot_error s.tasks e
    | done _ ↦ noted_slot s at (s.tasks ++ task ∷ []) (s.active ++ reference_of task ∷ [])
  ]
]

abbrev pub create_after : PolicyWorld → BackupTask → Time → Slots → Stored → SlotResult
create_after w task at s (tasks, some e) = slot_error tasks e
create_after w task at s (tasks, none) = create_slot w task at (record s { tasks = tasks })

-- One due time.
unfoldable pub run_slot : PolicyWorld → BackupPolicy → BackupRepository → Time → Slots → SlotResult
unfolding create_slot append_limited_skipped cancel_active scheduled_task
run_slot w policy repository at s =
    let task = scheduled_task w policy repository at in
    let concurrency = policy.spec.concurrency_policy in
    if not (is_nil s.active) && is_forbid concurrency
    then next_slot
        (record s { skipped_runs = append_limited_skipped s.skipped_runs at "ConcurrencyForbid" })
    else if not (is_nil s.active) && is_replace concurrency
    then create_after w task at s (cancel_active w.patch s.active s.tasks)
    else create_slot w task at s

abbrev pub then_slots : (Slots → SlotResult) → SlotResult → SlotResult
then_slots rest (slot_error tasks e) = slot_error tasks e
then_slots rest (next_slot s) = rest s

-- The loop.
unfoldable pub run_slots :
    PolicyWorld → BackupPolicy → BackupRepository → List Time → Slots → SlotResult
unfolding run_slot
run_slots w policy repository [] s = next_slot s
run_slots w policy repository (at ∷ due) s =
    then_slots (run_slots w policy repository due) (run_slot w policy repository at s)
