-- ===== src/PolicyRun/Reconcile.antt =====
-- Reconcile of internal/controller/policy_controller.go. The patch of the policy itself is taken to
-- succeed. Messages and conditions are left out, and so is the content of the selection preview.
use backup_restore.Prelude.{
  ◌*◌, String, Bool, true, false, ◌&&◌, ◌||◌, not, List, [], ◌∷◌, ◌++◌, none, some, is_empty,
  str_eq, if◌then◌else◌,
}
use backup_restore.Prelude.Int.{pos, ltb_ℤ, ◌-ℤ◌}
use backup_restore.Api.{
  Time, Duration, BackupRepository, BackupPolicy, ObjectReference, PolicyPhase, BackupTask,
}
use backup_restore.Errors.{Failure, operator_error, error_code, Io, done, failed}
use backup_restore.Webhook.Defaults.{second}
use backup_restore.Scheduler.{parse, due_times}
use backup_restore.Backup.{contains_string, remove_string, Reply, stop, requeue_after}
use backup_restore.PolicyRun.Tasks.{PolicyWorld, policy_finalizer, active_tasks}
use backup_restore.PolicyRun.Loop.{SlotResult, next_slot, slot_error, run_slots}

-- A call ends with the policy and the tasks that are stored, and a reply or an error.
pub data PolicyEnd : Type 0 where
  replied : BackupPolicy → List BackupTask → Reply → PolicyEnd
  returned : BackupPolicy → List BackupTask → Failure → PolicyEnd

abbrev minute_reply : Reply
minute_reply = requeue_after (pos (60 * second))

unfoldable pub invalid : BackupPolicy → List BackupTask → String → Failure → PolicyEnd
unfolding error_code
invalid policy tasks reason e =
    replied
      (record policy {
        status = record (policy.status) {
          observed_generation = policy.meta.generation;
          phase = PolicyPhase.invalid;
          error_code = error_code e;
          reason = reason;
        };
      })
      tasks minute_reply

-- The wait until the next activation by the clock, from a second to ten minutes.
unfoldable pub requeue_delay : Duration → Duration
requeue_delay delay =
    if ltb_ℤ (pos (600 * second)) delay
    then pos (600 * second)
    else if ltb_ℤ delay (pos second)
    then pos second
    else delay

unfoldable pub settle :
    BackupPolicy → Time → Time → (Time → Time) → BackupPolicy → SlotResult → PolicyEnd
unfolding requeue_delay
settle stored now clock next policy (slot_error tasks e) = returned stored tasks e
settle stored now clock next policy (next_slot s) =
    replied
      (record policy {
        status = record (policy.status) {
          phase = PolicyPhase.ready;
          reason = "ScheduleActive";
          last_evaluated_schedule_time = some now;
          next_schedule_time = some (next now);
          skipped_runs = s.skipped_runs;
          last_schedule_time = s.last_schedule_time;
        };
      })
      s.tasks (requeue_after (requeue_delay (next now -ℤ clock)))

abbrev pub last_evaluated : BackupPolicy → Time
last_evaluated policy = elim (policy.status.last_evaluated_schedule_time) [
  | none ↦ policy.meta.creation_timestamp
  | some t ↦ t
]

-- The due times of a call.
unfoldable pub policy_due : (Time → Time) → BackupPolicy → Time → List Time
policy_due next policy now =
    due_times next (last_evaluated policy) now policy.spec.starting_deadline
      policy.spec.missed_run_policy policy.spec.max_catch_up_runs

abbrev pub with_active : BackupPolicy → List ObjectReference → BackupPolicy
with_active policy active = record policy {
  status = record (policy.status) { active_tasks = active };
}

-- From the list of the tasks on.
unfoldable pub schedule_listed :
    PolicyWorld
    → (Time → Time)
    → BackupPolicy
    → BackupRepository
    → BackupPolicy
    → Time
    → Time
    → List BackupTask
    → Io (Unit {0})
    → PolicyEnd
unfolding active_tasks run_slots settle policy_due
schedule_listed w next stored repository policy now clock tasks (failed e) = returned stored tasks e
schedule_listed w next stored repository policy now clock tasks (done _) =
    let active = active_tasks policy.meta.uid tasks in
    settle stored now clock next (with_active policy active) (
      run_slots w policy repository (policy_due next policy now) (record {
        tasks = tasks;
        active = active;
        skipped_runs = policy.status.skipped_runs;
        last_schedule_time = policy.status.last_schedule_time;
      }))

-- From the parsed schedule on.
unfoldable pub evaluate :
    PolicyWorld
    → (Time → Time)
    → BackupPolicy
    → BackupRepository
    → Time
    → Time
    → List BackupTask
    → PolicyEnd
unfolding schedule_listed
evaluate w next stored repository now clock tasks =
    let policy = record stored {
      status = record (stored.status) {
        observed_generation = stored.meta.generation;
        resolved_repository_uid = repository.meta.uid;
      };
    } in
    if not policy.spec.enabled || policy.spec.suspend
    then replied
        (record policy {
          status = record (policy.status) {
            phase = PolicyPhase.paused;
            reason = "Suspended";
            next_schedule_time = none;
          };
        })
        tasks stop
    else if not (str_eq repository.phase "Ready")
    then replied
        (record policy {
          status = record (policy.status) {
            phase = PolicyPhase.degraded;
            reason = "DependencyNotReady";
          };
        })
        tasks minute_reply
    else schedule_listed w next stored repository policy now clock tasks w.listed

unfoldable pub parse_and_evaluate :
    PolicyWorld → BackupPolicy → BackupRepository → Time → Time → List BackupTask → PolicyEnd
unfolding evaluate invalid
parse_and_evaluate w policy repository now clock tasks =
    elim (parse w.cron policy.spec.schedule.cron policy.spec.schedule.timezone) [
      | none ↦ invalid policy tasks "InvalidSchedule" (operator_error "BR-POLICY-CRON-001" false)
      | some next ↦ evaluate w next policy repository now clock tasks
    ]

unfoldable pub check_policy_repository :
    PolicyWorld → BackupPolicy → Io BackupRepository → Time → Time → List BackupTask → PolicyEnd
unfolding parse_and_evaluate invalid
check_policy_repository w policy (failed e) now clock tasks =
    invalid policy tasks "RepositoryUnavailable" e
check_policy_repository w policy (done repository) now clock tasks =
    let parsed = parse_and_evaluate w policy repository now clock tasks in
    if not (str_eq repository.spec.identity.cluster_ref policy.spec.identity.cluster_ref)
    then invalid policy tasks "ReferenceBoundaryMismatch"
        (operator_error "BR-PERMISSION-DENIED-001" false)
    else if policy.spec.selection.include_secrets && not repository.spec.encryption.enabled
    then invalid policy tasks "EncryptionRequired" (operator_error "BR-PERMISSION-DENIED-001" false)
    else elim (w.preview) [
      | failed e ↦
          invalid policy tasks "SelectionPreviewFailed"
            (operator_error "BR-SELECTION-DISCOVERY-002" true)
      | done _ ↦ parsed
    ]

unfoldable pub with_policy_finalizer : BackupPolicy → BackupPolicy
with_policy_finalizer policy =
    if contains_string policy.meta.finalizers policy_finalizer then policy else record policy {
      meta = record (policy.meta) { finalizers = policy.meta.finalizers ++ policy_finalizer ∷ [] };
    }

abbrev pub is_foreign_policy : PolicyWorld → BackupPolicy → Bool
is_foreign_policy w policy =
    not (is_empty w.cluster_ref) && not (str_eq policy.spec.identity.cluster_ref w.cluster_ref)

-- `now` is the time of the evaluation, `clock` the time when the call ends.
unfoldable pub reconcile_policy :
    PolicyWorld → BackupPolicy → Time → Time → List BackupTask → PolicyEnd
unfolding check_policy_repository with_policy_finalizer
reconcile_policy w policy now clock tasks =
    let live =
      check_policy_repository w (with_policy_finalizer policy)
        (w.repository policy.spec.repository_ref.name) now clock tasks in
    if is_foreign_policy w policy
    then replied policy tasks stop
    else elim (policy.meta.deletion_timestamp) [
      | some _ ↦
          replied
            (if contains_string policy.meta.finalizers policy_finalizer
              then record policy {
                meta = record (policy.meta) {
                  finalizers = remove_string policy.meta.finalizers policy_finalizer;
                };
              }
              else policy)
            tasks stop
      | none ↦ live
    ]
