-- ===== src/PolicyRun/Replace.antt =====
-- A policy whose runs replace each other (internal/controller/policy_controller.go).
use backup_restore.Prelude.{
  ◌≡◌, refl, sym, subst, ap, ◌∙◌, String, true, false, List, [], ◌∷◌, ◌++◌, none, some, arith, All,
  All-map, Bool-cases, Option-cases, inl, inr, str_eq, str_eq→eq, str_eq_refl, length,
}
use backup_restore.Api.{BackupPolicy, BackupRepository, BackupTask, ObjectReference, Time}
use backup_restore.Errors.{Io, done}
use backup_restore.Webhook.Selection.{is_nil}
use backup_restore.Webhook.Repository.{is_set}
use backup_restore.PolicyRun.{
  PolicyWorld, find_task, put_task, cancelled_task, cancel_active, scheduled_task, Slots, next_slot,
  is_replace, create_after, run_slot, reference_of,
}
use backup_restore.PolicyRun.Concurrency.{create_slot_found, create_slot_made, still_active}
use backup_restore.PolicyRun.Coverage.{
  HasTask, HasTask-put_task, cancel_active_next, cancel_active_missing,
}

-- The task of this name is asked to stop.
abbrev pub IsCancelled : String → List BackupTask → Type 0
IsCancelled name ts =
    (t : BackupTask) × (find_task name ts ≡ some t) × (t.spec.cancel_requested ≡ true)

find_task-put_task :
    (changed : BackupTask) (ts : List BackupTask)
    → HasTask changed.meta.name ts
    → find_task changed.meta.name (put_task changed ts) ≡ some changed
unfolding find_task put_task
find_task-put_task changed [] h = cc
find_task-put_task changed (t ∷ ts) h =
    ground (arith, find_task-put_task changed ts, str_eq_refl changed.meta.name)

find_task_other :
    (name : String) (changed : BackupTask) (ts : List BackupTask)
    → str_eq changed.meta.name name ≡ false
    → find_task name (put_task changed ts) ≡ find_task name ts
unfolding find_task put_task
find_task_other name changed [] h = refl
find_task_other name changed (t ∷ ts) h =
    ground (arith, find_task_other name changed ts, str_eq→eq t.meta.name changed.meta.name)

found_name :
    (name : String) (ts : List BackupTask) (t : BackupTask)
    → find_task name ts ≡ some t
    → t.meta.name ≡ name
unfolding find_task
found_name name [] t h = cc
found_name name (u ∷ ts) t h = ground (arith, found_name name ts t, str_eq→eq u.meta.name name)

found_HasTask :
    (name : String) (ts : List BackupTask) (t : BackupTask)
    → find_task name ts ≡ some t
    → HasTask t.meta.name ts
found_HasTask name ts t e =
    subst (λ n. is_set (find_task n ts) ≡ true) (sym (found_name name ts t e))
      (ap (λ o. is_set o) e)

cancelled_found :
    (name : String) (ts : List BackupTask) (t : BackupTask)
    → find_task name ts ≡ some t
    → find_task name (put_task (cancelled_task t) ts) ≡ some (cancelled_task t)
cancelled_found name ts t e =
    subst (λ n. find_task n (put_task (cancelled_task t) ts) ≡ some (cancelled_task t))
      (found_name name ts t e)
      (find_task-put_task (cancelled_task t) ts (found_HasTask name ts t e))

length-put_task :
    (changed : BackupTask) (ts : List BackupTask) → length (put_task changed ts) ≡ length ts
unfolding put_task
length-put_task changed [] = refl
length-put_task changed (t ∷ ts) = ground (arith, length-put_task changed ts)

module _ (w : PolicyWorld) (policy : BackupPolicy) (repository : BackupRepository) (at : Time)
    (s : Slots) where
  run_slot_replace :
      is_replace policy.spec.concurrency_policy ≡ true
      → is_nil s.active ≡ false
      → run_slot w policy repository at s
        ≡ create_after w
            (scheduled_task w policy repository at)
            at
            s
            (cancel_active w.patch s.active s.tasks)
  unfolding run_slot
  run_slot_replace replace some_active = ground arith

  cancel_one :
      (own : BackupTask) (name : String)
      → find_task name s.tasks ≡ some own
      → ((t : BackupTask) → w.patch t ≡ done tt)
      → cancel_active w.patch (reference_of own ∷ []) s.tasks
        ≡ (put_task (cancelled_task own) s.tasks, none)
  unfolding cancel_active
  cancel_one own name found ok =
      cancel_active_next w.patch (reference_of own) [] s.tasks own tt
        (subst (λ n. find_task n s.tasks ≡ some own) (sym (found_name name s.tasks own found))
          found)
        (ok (cancelled_task own))

  -- Runs replace each other, the slot's own task is stored and is the only active one, as after a
  -- call that created it and then failed, and every patch succeeds: the call creates no task, and
  -- cancels the slot's own.
  pub run_slot_replays :
      is_replace policy.spec.concurrency_policy ≡ true
      → (own : BackupTask)
      → find_task (scheduled_task w policy repository at).meta.name s.tasks ≡ some own
      → s.active ≡ reference_of own ∷ []
      → ((t : BackupTask) → w.patch t ≡ done tt)
      → (later : Slots) × (run_slot w policy repository at s ≡ next_slot later)
        × (length later.tasks ≡ length s.tasks)
        × IsCancelled (scheduled_task w policy repository at).meta.name later.tasks
  run_slot_replays replace own found active ok =
      let task = scheduled_task w policy repository at in
      let tasks = put_task (cancelled_task own) s.tasks in
      let again = cancelled_found task.meta.name s.tasks own found in
      let left : Slots = record s { tasks = tasks } in
      (
        record left {
          active = still_active w task at left (cancelled_task own);
          last_schedule_time = some at;
        },
        run_slot_replace replace (ap (λ l. is_nil l) active)
            ∙ ap (create_after w task at s) (
                ap (λ a. cancel_active w.patch a s.tasks) active
                ∙ cancel_one own task.meta.name found ok)
            ∙ create_slot_found w task at left (cancelled_task own) again,
        length-put_task (cancelled_task own) s.tasks,
        (cancelled_task own, again, refl),
      )

  -- Runs replace each other, the first active task has been deleted in the meantime, and the name of
  -- the slot's task is free and the cluster takes it: that task is created, and no other active task
  -- is cancelled.
  pub run_slot_missing :
      is_replace policy.spec.concurrency_policy ≡ true
      → (ref : ObjectReference) (refs : List ObjectReference) → s.active ≡ ref ∷ refs
      → find_task ref.name s.tasks ≡ none
      → find_task (scheduled_task w policy repository at).meta.name s.tasks ≡ none
      → w.admit (scheduled_task w policy repository at) ≡ done tt
      → (later : Slots) × (run_slot w policy repository at s ≡ next_slot later)
        × (later.tasks ≡ s.tasks ++ scheduled_task w policy repository at ∷ [])
  run_slot_missing replace ref refs active missing free ok =
      let task = scheduled_task w policy repository at in
      (
        record s {
          tasks = s.tasks ++ task ∷ [];
          active = s.active ++ reference_of task ∷ [];
          last_schedule_time = some at;
        },
        run_slot_replace replace (ap (λ l. is_nil l) active)
            ∙ ap (create_after w task at s) (
                ap (λ a. cancel_active w.patch a s.tasks) active
                ∙ cancel_active_missing w.patch ref refs s.tasks missing)
            ∙ create_slot_made w task at s tt free ok,
        refl,
      )

IsCancelled-put_task :
    (name : String) (ts : List BackupTask) (t : BackupTask)
    → IsCancelled name ts
    → IsCancelled name (put_task (cancelled_task t) ts)
IsCancelled-put_task name ts t (u, found, stops) = elim (Bool-cases (str_eq t.meta.name name)) [
  | inr other ↦ (u, find_task_other name (cancelled_task t) ts other ∙ found, stops)
  | inl same ↦ (
    cancelled_task t,
    subst (λ n. find_task n (put_task (cancelled_task t) ts) ≡ some (cancelled_task t))
        (str_eq→eq t.meta.name name same)
        (find_task-put_task (cancelled_task t) ts (
          subst (λ n. is_set (find_task n ts) ≡ true) (sym (str_eq→eq t.meta.name name same))
            (ap (λ o. is_set o) found))),
    refl,
  )
]

module _ (patch : BackupTask → Io (Unit {0})) (ok : (t : BackupTask) → patch t ≡ done tt) where
  IsCancelled-cancel_active :
      (name : String) (refs : List ObjectReference) (ts : List BackupTask)
      → IsCancelled name ts
      → IsCancelled name (cancel_active patch refs ts).0
  unfolding cancel_active
  IsCancelled-cancel_active name [] ts h = h
  IsCancelled-cancel_active name (ref ∷ refs) ts h = elim (Option-cases (find_task ref.name ts)) [
    | inl missing ↦
        subst (λ st. IsCancelled name st.0) (sym (cancel_active_missing patch ref refs ts missing))
          h
    | inr (t, found) ↦
        subst (λ st. IsCancelled name st.0)
          (sym (cancel_active_next patch ref refs ts t tt found (ok (cancelled_task t))))
          (IsCancelled-cancel_active name refs (put_task (cancelled_task t) ts)
            (IsCancelled-put_task name ts t h))
  ]

  -- When all active tasks are still there and every patch succeeds, each of them is asked to stop,
  -- and there is no error.
  cancel_active-cancels :
      (refs : List ObjectReference) (ts : List BackupTask)
      → All (λ ref. HasTask ref.name ts) refs
      → ((cancel_active patch refs ts).1 ≡ none)
        × All (λ ref. IsCancelled ref.name (cancel_active patch refs ts).0) refs
  unfolding cancel_active
  cancel_active-cancels [] ts h = (refl, tt)
  cancel_active-cancels (ref ∷ refs) ts (there, h) = elim (Option-cases (find_task ref.name ts)) [
    | inl missing ↦ absurd cc
    | inr (t, found) ↦
        let left = put_task (cancelled_task t) ts in
        subst (λ st. (st.1 ≡ none) × All (λ ref. IsCancelled ref.name st.0) (ref ∷ refs))
          (sym (cancel_active_next patch ref refs ts t tt found (ok (cancelled_task t))))
          (let (fine, rest) = cancel_active-cancels refs left (
              All-map (λ ref. HasTask ref.name ts) (λ ref. HasTask ref.name left)
                (λ r k. HasTask-put_task r.name (cancelled_task t) ts k) refs h) in
            (
              fine,
              (
                IsCancelled-cancel_active ref.name refs left
                    (cancelled_task t, cancelled_found ref.name ts t found, refl),
                rest,
              ),
            ))
  ]
