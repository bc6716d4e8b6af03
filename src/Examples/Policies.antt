-- ===== src/Examples/Policies.antt =====
-- The theorems on the reconciler of a BackupPolicy at work.
use backup_restore.Prelude.{
  ◌*◌, ◌<◌, ◌≡◌, refl, String, true, false, List, [], ◌∷◌, ◌++◌, none, some, arith, length, All,
  is_empty, str_append, str_eq_refl,
}
use backup_restore.PolicyRun.{
  policy_due, evaluate, schedule_listed, settle, active_tasks, requeue_delay, replied,
}
use backup_restore.PolicyRun.Window.{evaluate-Disjoint}
use backup_restore.Scheduler.{due_times, start_from, collect_due, choose_due}
use backup_restore.Prelude.Int.{◌+ℤ◌, ◌-ℤ◌, ◌≤ℤ◌, ltb_ℤ}
use backup_restore.Examples.Scheduled.{hourly-Advances}
use backup_restore.Webhook.Defaults.{minute}
use backup_restore.Backup.{requeue_after}
use backup_restore.Prelude.Int.{pos}
use backup_restore.Api.{
  BackupPolicy, BackupTask, BackupPhase, ObjectReference, ConcurrencyPolicy, MissedRunPolicy,
  PolicyPhase, Time,
}
use backup_restore.Errors.{done}
use backup_restore.Webhook.Check.{valid, field_count}
use backup_restore.Webhook.Policy.{validate_policy}
use backup_restore.Webhook.Task.{validate_task_create}
use backup_restore.Webhook.Defaults.{hour}
use backup_restore.PolicyRun.{
  PolicyWorld, Slots, next_slot, run_slots, run_slot, scheduled_task, find_task, reference_of,
}
use backup_restore.PolicyRun.Name.{
  deterministic_task_name, text_length, text_take, trim, trim_right, room, signed_decimal,
  deterministic_task_name-collides,
}
use backup_restore.PolicyRun.Concurrency.{IsBounded, run_slots-forbid}
use backup_restore.PolicyRun.Coverage.{Keeps, HasTask, slot_name, run_slots-HasTask}
use backup_restore.PolicyRun.Replace.{IsCancelled, run_slot_replays, run_slot_missing}
use backup_restore.PolicyRun.Window.{scheduled_task-valid}
use backup_restore.Examples.Scheduled.{hourly}
use backup_restore.Examples.Samples.{
  meta_of, identity, selection, reference, retention, retry_policy, repository, task_in, parsers,
}

abbrev policy_with : ConcurrencyPolicy → BackupPolicy
policy_with concurrency = record {
  meta = meta_of "nightly" (pos 0);
  spec = record {
    identity = identity;
    selection = selection;
    repository_ref = reference "vault";
    schedule = record { cron = "0 * * * *"; timezone = "Etc/UTC" };
    enabled = true;
    suspend = false;
    concurrency_policy = concurrency;
    missed_run_policy = MissedRunPolicy.run_all;
    starting_deadline = pos 0;
    max_catch_up_runs = pos 5;
    retention = retention 7 1 30;
    retry_policy = retry_policy;
    timeout = pos hour;
  };
  status = record {
    observed_generation = pos 1;
    phase = PolicyPhase.ready;
    conditions = [];
    reason = "";
    error_code = "";
    resolved_repository_uid = "";
    last_schedule_time = none;
    last_evaluated_schedule_time = some (pos 0);
    next_schedule_time = none;
    active_tasks = [];
    skipped_runs = [];
  };
}

abbrev policy_world : PolicyWorld
policy_world = record {
  cluster_ref = "prod";
  repository = λ name. done repository;
  preview = done tt;
  cron = record { location_ok = λ s. true; parse = λ z e. some hourly };
  listed = done tt;
  admit = λ t. done tt;
  patch = λ t. done tt;
  spec_hash = λ p r. "h";
  hash = λ s. "0123456789abcdef";
  rfc3339 = λ t. "";
  new_uid = λ s. "uid-2";
}

abbrev no_slots : List BackupTask → List ObjectReference → Slots
no_slots tasks active = record {
  tasks = tasks;
  active = active;
  skipped_runs = [];
  last_schedule_time = none;
}

abbrev pub forbidding : BackupPolicy
forbidding = policy_with ConcurrencyPolicy.forbid

abbrev replacing : BackupPolicy
replacing = policy_with ConcurrencyPolicy.replace

abbrev two_due : List Time
two_due = pos hour ∷ pos (2 * hour) ∷ []

run_slots-forbid_example :
    IsBounded 1 (run_slots policy_world forbidding repository two_due (no_slots [] []))
run_slots-forbid_example =
    run_slots-forbid policy_world forbidding repository two_due (no_slots [] []) refl

run_slots-HasTask_example :
    Keeps [] (run_slots policy_world replacing repository two_due (no_slots [] []))
    × ((later : Slots)
        → run_slots policy_world replacing repository two_due (no_slots [] []) ≡ next_slot later
        → All (λ at. HasTask (slot_name policy_world replacing repository at) later.tasks) two_due)
run_slots-HasTask_example =
    run_slots-HasTask policy_world replacing repository two_due (no_slots [] []) refl

-- The task of the slot an hour after the epoch.
abbrev own : BackupTask
own = scheduled_task policy_world replacing repository (pos hour)

own_found :
    find_task (scheduled_task policy_world replacing repository (pos hour)).meta.name (own ∷ [])
    ≡ some own
unfolding find_task
own_found = rw (str_eq_refl own.meta.name) refl

run_slot_replays_example :
    (later : Slots) × (run_slot policy_world replacing repository
        (pos hour)
        (no_slots (own ∷ []) (reference_of own ∷ []))
      ≡ next_slot later)
    × (length later.tasks ≡ 1)
    × IsCancelled
        (scheduled_task policy_world replacing repository (pos hour)).meta.name
        later.tasks
run_slot_replays_example =
    run_slot_replays policy_world replacing repository (pos hour)
      (no_slots (own ∷ []) (reference_of own ∷ [])) refl own own_found refl (λ t. refl)

gone_missing : find_task "gone" (task_in BackupPhase.packaging false ∷ []) ≡ none
unfolding find_task
gone_missing = refl

own_free :
    find_task
      (scheduled_task policy_world replacing repository (pos hour)).meta.name
      (task_in BackupPhase.packaging false ∷ [])
    ≡ none
unfolding find_task scheduled_task deterministic_task_name
own_free = refl

run_slot_missing_example :
    (later : Slots) × (run_slot policy_world replacing repository (pos hour) (
        no_slots
          (task_in BackupPhase.packaging false ∷ [])
          (reference "gone" ∷ reference "nightly" ∷ []))
      ≡ next_slot later)
    × (later.tasks
        ≡ (task_in BackupPhase.packaging false ∷ [])
          ++ scheduled_task policy_world replacing repository (pos hour) ∷ [])
run_slot_missing_example =
    run_slot_missing policy_world replacing repository (pos hour)
      (no_slots (task_in BackupPhase.packaging false ∷ [])
        (reference "gone" ∷ reference "nightly" ∷ []))
      refl (reference "gone") (reference "nightly" ∷ []) refl gone_missing own_free refl

forbidding_valid : validate_policy parsers forbidding.spec ≡ valid
unfolding validate_policy field_count
forbidding_valid = refl

scheduled_task-valid_example :
    validate_task_create parsers (scheduled_task policy_world forbidding repository (pos hour)).spec
    ≡ valid
scheduled_task-valid_example =
    scheduled_task-valid parsers policy_world forbidding repository (pos hour) refl forbidding_valid

abbrev long_name : String → String
long_name tail =
    str_append "payments-production-cluster-nightly-full-backup-of-all-stateful-namespaces-" tail

east_long : room (pos hour) < text_length (trim (long_name "east"))
unfolding trim signed_decimal
east_long = omega arith

west_long : room (pos hour) < text_length (trim (long_name "west"))
unfolding trim signed_decimal
west_long = omega arith

long_agree :
    text_take (room (pos hour)) (trim (long_name "east"))
    ≡ text_take (room (pos hour)) (trim (long_name "west"))
unfolding trim signed_decimal
long_agree = refl

long_full : is_empty (trim_right (text_take (room (pos hour)) (trim (long_name "east")))) ≡ false
unfolding trim trim_right signed_decimal
long_full = refl

deterministic_task_name-collides_example :
    deterministic_task_name (λ s. "0123456789abcdef") (long_name "east") (pos hour)
    ≡ deterministic_task_name (λ s. "0123456789abcdef") (long_name "west") (pos hour)
deterministic_task_name-collides_example =
    deterministic_task_name-collides (λ s. "0123456789abcdef") (long_name "east") (long_name "west")
      (pos hour) east_long west_long long_agree long_full

-- Half an hour after the epoch nothing is due.
abbrev half_hour : Time
half_hour = pos (30 * minute)

abbrev evaluated : BackupPolicy
evaluated = record forbidding {
  status = record (forbidding.status) {
    observed_generation = pos 1;
    resolved_repository_uid = "uid-1";
    reason = "ScheduleActive";
    last_evaluated_schedule_time = some half_hour;
    next_schedule_time = some (hourly half_hour);
  };
}

none_due : policy_due hourly forbidding half_hour ≡ []
unfolding policy_due due_times start_from collect_due choose_due ◌+ℤ◌ ◌-ℤ◌
none_due = refl

evaluate-half_hour :
    evaluate policy_world hourly forbidding repository half_hour half_hour []
    ≡ replied evaluated [] (requeue_after (pos (10 * minute)))
unfolding evaluate schedule_listed settle active_tasks run_slots requeue_delay ◌+ℤ◌ ◌-ℤ◌ policy_due
    due_times start_from collect_due choose_due
evaluate-half_hour = refl

evaluate-Disjoint_example :
    All (λ t. t ≤ℤ half_hour) (policy_due hourly forbidding half_hour)
    × All (λ t. ltb_ℤ half_hour t ≡ true) (policy_due hourly evaluated (pos (3 * hour)))
evaluate-Disjoint_example =
    evaluate-Disjoint policy_world hourly forbidding repository half_hour half_hour [] evaluated []
      (requeue_after (pos (10 * minute))) (pos (3 * hour)) hourly-Advances evaluate-half_hour refl
