-- ===== src/PolicyRun/Window.antt =====
-- The times that a policy evaluates (internal/controller/policy_controller.go), and the admission
-- of the tasks that it creates (api/v1alpha1/webhook_validation.go).
use backup_restore.Prelude.{◌≡◌, subst, true, false, List, some, arith, All, All-map, is_empty}
use backup_restore.Prelude.Int.{◌≤ℤ◌, ltb_ℤ}
use backup_restore.Api.{BackupPolicy, BackupRepository, BackupTask, Time, PolicyPhase}
use backup_restore.Errors.{Io, done, failed}
use backup_restore.Webhook.Check.{valid, Parsers}
use backup_restore.Webhook.Selection.{validate_backup_execution}
use backup_restore.Webhook.Policy.{validate_policy}
use backup_restore.Webhook.Task.{validate_task_create}
use backup_restore.Scheduler.{start_from}
use backup_restore.Scheduler.Due.{Advances, IsWithin, due_times-AreDue}
use backup_restore.Backup.{policy_execution_spec, Reply}
use backup_restore.PolicyRun.{
  PolicyWorld, scheduled_task, policy_due, last_evaluated, SlotResult, next_slot, slot_error,
  settle, with_active, active_tasks, schedule_listed, evaluate, replied,
}

-- The task that a policy creates is admitted, if the policy itself is: its specification passes the
-- validation of a new BackupTask.
pub scheduled_task-valid :
    (ext : Parsers) (w : PolicyWorld) (policy : BackupPolicy) (repository : BackupRepository)
    (at : Time)
    → is_empty policy.meta.name ≡ false
    → validate_policy ext policy.spec ≡ valid
    → validate_task_create ext (scheduled_task w policy repository at).spec ≡ valid
unfolding validate_policy validate_task_create validate_backup_execution scheduled_task
    policy_execution_spec
scheduled_task-valid ext w policy repository at named ok = ground arith

start_le : (last now : Time) (deadline : Time) → last ≤ℤ start_from last now deadline
unfolding start_from
start_le last now deadline = ground arith

due_after_last :
    (next : Time → Time) (policy : BackupPolicy) (now : Time)
    → Advances next
    → All (IsWithin (last_evaluated policy) now) (policy_due next policy now)
unfolding policy_due
due_after_last next policy now advances =
    let last = last_evaluated policy in
    let deadline = policy.spec.starting_deadline in
    All-map (IsWithin (start_from last now deadline) now) (IsWithin last now)
      (λ t within. (ground (arith, start_le last now deadline), within.1)) _
      (due_times-AreDue next advances last now deadline policy.spec.missed_run_policy
        policy.spec.max_catch_up_runs).0

ready_settle :
    (stored : BackupPolicy) (now clock : Time) (next : Time → Time) (policy : BackupPolicy)
    (r : SlotResult) (later : BackupPolicy) (tasks : List BackupTask) (reply : Reply)
    → settle stored now clock next policy r ≡ replied later tasks reply
    → later.status.last_evaluated_schedule_time ≡ some now
unfolding settle
ready_settle stored now clock next policy (slot_error ts e) later tasks reply h = cc
ready_settle stored now clock next policy (next_slot s) later tasks reply h = ground arith

ready_schedule :
    (w : PolicyWorld) (next : Time → Time) (stored : BackupPolicy) (repository : BackupRepository)
    (policy : BackupPolicy) (now clock : Time) (stored_tasks : List BackupTask)
    (listed : Io (Unit {0})) (later : BackupPolicy) (tasks : List BackupTask) (reply : Reply)
    → schedule_listed w next stored repository policy now clock stored_tasks listed
      ≡ replied later tasks reply
    → later.status.last_evaluated_schedule_time ≡ some now
unfolding schedule_listed
ready_schedule w next stored repository policy now clock stored_tasks (failed e) later tasks reply
      h =
    cc
ready_schedule w next stored repository policy now clock stored_tasks (done u) later tasks reply h =
    ready_settle stored now clock next
      (with_active policy (active_tasks policy.meta.uid stored_tasks)) _ later tasks reply h

ready_evaluate :
    (w : PolicyWorld) (next : Time → Time) (stored : BackupPolicy) (repository : BackupRepository)
    (now clock : Time) (stored_tasks : List BackupTask) (later : BackupPolicy)
    (tasks : List BackupTask) (reply : Reply)
    → evaluate w next stored repository now clock stored_tasks ≡ replied later tasks reply
    → later.status.phase ≡ PolicyPhase.ready
    → later.status.last_evaluated_schedule_time ≡ some now
unfolding evaluate
ready_evaluate w next stored repository now clock stored_tasks later tasks reply h ready = ground (
  arith,
  ready_schedule w next stored repository
      (record stored {
        status = record (stored.status) {
          observed_generation = stored.meta.generation;
          resolved_repository_uid = repository.meta.uid;
        };
      })
      now clock stored_tasks w.listed later tasks reply,
)

-- No due time is evaluated twice: the due times of a call that ends with the policy ready are not
-- after that call's time, and those of a later call all are.
pub evaluate-Disjoint :
    (w : PolicyWorld) (next : Time → Time) (stored : BackupPolicy) (repository : BackupRepository)
    (now clock : Time) (stored_tasks : List BackupTask) (later : BackupPolicy)
    (tasks : List BackupTask) (reply : Reply) (now' : Time)
    → Advances next
    → evaluate w next stored repository now clock stored_tasks ≡ replied later tasks reply
    → later.status.phase ≡ PolicyPhase.ready
    → All (λ t. t ≤ℤ now) (policy_due next stored now)
      × All (λ t. ltb_ℤ now t ≡ true) (policy_due next later now')
evaluate-Disjoint w next stored repository now clock stored_tasks later tasks reply now' advances h
      ready =
    let e =
      ready_evaluate w next stored repository now clock stored_tasks later tasks reply h ready in
    (
      All-map (IsWithin (last_evaluated stored) now) (λ t. t ≤ℤ now) (λ t within. within.1) _
          (due_after_last next stored now advances),
      All-map (IsWithin (last_evaluated later) now') (λ t. ltb_ℤ now t ≡ true)
          (λ t within. subst (λ u. ltb_ℤ u t ≡ true) (last_evaluated_of later now e) within.0) _
          (due_after_last next later now' advances),
    )
  where
    last_evaluated_of :
        (policy : BackupPolicy) (now : Time)
        → policy.status.last_evaluated_schedule_time ≡ some now
        → last_evaluated policy ≡ now
    last_evaluated_of policy now e = ground arith
