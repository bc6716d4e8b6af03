-- ===== src/PolicyRun/Coverage.antt =====
-- Every due time of a policy gets its task, and no stored task is lost
-- (internal/controller/policy_controller.go).
use backup_restore.Prelude.{
  ◌≡◌, refl, sym, subst, String, Bool, true, false, List, [], ◌∷◌, ◌++◌, none, some, arith, All,
  Option-cases, inl, inr, str_eq→eq, str_eq_refl, ◌&&◌, not, if◌then◌else◌,
}
use backup_restore.Api.{BackupPolicy, BackupRepository, BackupTask, ObjectReference, Time}
use backup_restore.Errors.{Failure, Io, done, failed}
use backup_restore.Webhook.Selection.{is_nil}
use backup_restore.Webhook.Repository.{is_set}
use backup_restore.PolicyRun.{
  PolicyWorld, find_task, put_task, cancelled_task, cancel_active, scheduled_task, Slots,
  SlotResult, next_slot, slot_error, is_forbid, is_replace, create_slot, create_after, run_slot,
  run_slots, then_slots, Stored,
}
use backup_restore.PolicyRun.Concurrency.{create_slot_cases, Io-cases}

abbrev pub HasTask : String → List BackupTask → Type 0
HasTask name tasks = is_set (find_task name tasks) ≡ true

HasTask-append :
    (name : String) (ts us : List BackupTask) → HasTask name ts → HasTask name (ts ++ us)
unfolding find_task
HasTask-append name [] us h = cc
HasTask-append name (t ∷ ts) us h = ground (arith, HasTask-append name ts us)

HasTask-last : (ts : List BackupTask) (t : BackupTask) → HasTask t.meta.name (ts ++ t ∷ [])
unfolding find_task
HasTask-last [] t = ground (arith, str_eq_refl t.meta.name)
HasTask-last (u ∷ ts) t = ground (arith, HasTask-last ts t)

pub HasTask-put_task :
    (name : String) (changed : BackupTask) (ts : List BackupTask)
    → HasTask name ts
    → HasTask name (put_task changed ts)
unfolding find_task put_task
HasTask-put_task name changed [] h = h
HasTask-put_task name changed (t ∷ ts) h =
    ground (arith, HasTask-put_task name changed ts, str_eq→eq t.meta.name changed.meta.name)

module _ (patch : BackupTask → Io (Unit {0})) where
  pub cancel_active_missing :
      (ref : ObjectReference) (refs : List ObjectReference) (ts : List BackupTask)
      → find_task ref.name ts ≡ none
      → cancel_active patch (ref ∷ refs) ts ≡ (ts, none)
  unfolding cancel_active
  cancel_active_missing ref refs ts e = ground arith

  cancel_active_refused :
      (ref : ObjectReference) (refs : List ObjectReference) (ts : List BackupTask) (t : BackupTask)
      (e : Failure)
      → find_task ref.name ts ≡ some t
      → patch (cancelled_task t) ≡ failed e
      → cancel_active patch (ref ∷ refs) ts ≡ (ts, some e)
  unfolding cancel_active
  cancel_active_refused ref refs ts t e found bad = ground arith

  pub cancel_active_next :
      (ref : ObjectReference) (refs : List ObjectReference) (ts : List BackupTask) (t : BackupTask)
      (u : Unit {0})
      → find_task ref.name ts ≡ some t
      → patch (cancelled_task t) ≡ done u
      → cancel_active patch (ref ∷ refs) ts
        ≡ cancel_active patch refs (put_task (cancelled_task t) ts)
  unfolding cancel_active
  cancel_active_next ref refs ts t u found ok = ground arith

  HasTask-cancel_active :
      (name : String) (refs : List ObjectReference) (ts : List BackupTask)
      → HasTask name ts
      → HasTask name (cancel_active patch refs ts).0
  unfolding cancel_active
  HasTask-cancel_active name [] ts h = h
  HasTask-cancel_active name (ref ∷ refs) ts h = elim (Option-cases (find_task ref.name ts)) [
    | inl missing ↦
        subst (λ st. HasTask name st.0) (sym (cancel_active_missing ref refs ts missing)) h
    | inr (t, found) ↦ elim (Io-cases (patch (cancelled_task t))) [
      | inr (e, bad) ↦
          subst (λ st. HasTask name st.0) (sym (cancel_active_refused ref refs ts t e found bad)) h
      | inl (u, ok) ↦
          subst (λ st. HasTask name st.0) (sym (cancel_active_next ref refs ts t u found ok))
            (HasTask-cancel_active name refs (put_task (cancelled_task t) ts)
              (HasTask-put_task name (cancelled_task t) ts h))
    ]
  ]

-- What is stored under a name stays there.
abbrev pub tasks_of : SlotResult → List BackupTask
tasks_of (next_slot s) = s.tasks
tasks_of (slot_error tasks e) = tasks

abbrev pub Keeps : List BackupTask → SlotResult → Type 0
Keeps ts r = (name : String) → HasTask name ts → HasTask name (tasks_of r)

-- The slot has its task, unless there was an error.
abbrev Gives : String → SlotResult → Type 0
Gives name (next_slot s) = HasTask name s.tasks
Gives name (slot_error tasks e) = Unit

abbrev Serves : List BackupTask → String → SlotResult → Type 0
Serves ts name r = Keeps ts r × Gives name r

create_slot-Serves :
    (w : PolicyWorld) (task : BackupTask) (at : Time) (s : Slots)
    → Serves s.tasks task.meta.name (create_slot w task at s)
create_slot-Serves w task at s =
    create_slot_cases w task at s (Serves s.tasks task.meta.name)
      (λ existing found. ((λ name h. h), rw found refl))
      (λ free. ((λ name h. HasTask-append name s.tasks (task ∷ []) h), HasTask-last s.tasks task))
      (λ e. ((λ name h. h), tt))

create_after-Serves :
    (w : PolicyWorld) (task : BackupTask) (at : Time) (s : Slots) (ts : List BackupTask)
    (st : Stored)
    → ((name : String) → HasTask name ts → HasTask name st.0)
    → Serves ts task.meta.name (create_after w task at s st)
create_after-Serves w task at s ts (tasks, some e) keeps = (keeps, tt)
create_after-Serves w task at s ts (tasks, none) keeps =
    let (kept, gives) = create_slot-Serves w task at (record s { tasks = tasks }) in
    ((λ name h. kept name (keeps name h)), gives)

if_case :
    (b : Bool) (P : SlotResult → Type 0) {x y : SlotResult}
    → (b ≡ true → P x)
    → (b ≡ false → P y)
    → P (if b then x else y)
if_case true P f g = f refl
if_case false P f g = g refl

module _ (w : PolicyWorld) (policy : BackupPolicy) (repository : BackupRepository) where
  abbrev pub slot_name : Time → String
  slot_name at = (scheduled_task w policy repository at).meta.name

  run_slot-Serves :
      (at : Time) (s : Slots)
      → is_forbid policy.spec.concurrency_policy ≡ false
      → Serves s.tasks (slot_name at) (run_slot w policy repository at s)
  unfolding run_slot
  run_slot-Serves at s allowed =
      let task = scheduled_task w policy repository at in
      rw allowed (
        if_case (not (is_nil s.active) && false) (Serves s.tasks task.meta.name)
          (λ b. absurd (ground arith))
          (λ b.
            if_case (not (is_nil s.active) && is_replace policy.spec.concurrency_policy)
              (Serves s.tasks task.meta.name)
              (λ c.
                create_after-Serves w task at s s.tasks (cancel_active w.patch s.active s.tasks)
                  (λ name h. HasTask-cancel_active w.patch name s.active s.tasks h))
              (λ c. create_slot-Serves w task at s)))

  then_slots-Serves :
      (due : List Time) (ts : List BackupTask) (name : String) (rest : Slots → SlotResult)
      (r : SlotResult)
      → ((s : Slots) → Keeps s.tasks (rest s))
      → ((s later : Slots)
          → rest s ≡ next_slot later
          → All (λ at. HasTask (slot_name at) later.tasks) due)
      → Serves ts name r
      → Keeps ts (then_slots rest r)
        × ((later : Slots)
            → then_slots rest r ≡ next_slot later
            → HasTask name later.tasks × All (λ at. HasTask (slot_name at) later.tasks) due)
  then_slots-Serves due ts name rest (slot_error tasks e) keeps all (kept, gives) =
      (kept, λ later h. absurd cc)
  then_slots-Serves due ts name rest (next_slot s) keeps all (kept, gives) = (
    (λ n h. keeps s n (kept n h)),
    λ later h. (subst (λ r. HasTask name (tasks_of r)) h (keeps s name gives), all s later h),
  )

  -- Unless concurrent runs are forbidden: when the loop over the due times ends without an error,
  -- there is a task for each of them, under its deterministic name; and in any case no stored
  -- task is lost.
  pub run_slots-HasTask :
      (due : List Time) (s : Slots)
      → is_forbid policy.spec.concurrency_policy ≡ false
      → Keeps s.tasks (run_slots w policy repository due s)
        × ((later : Slots)
            → run_slots w policy repository due s ≡ next_slot later
            → All (λ at. HasTask (slot_name at) later.tasks) due)
  unfolding run_slots
  run_slots-HasTask [] s allowed = ((λ name h. h), λ later h. tt)
  run_slots-HasTask (at ∷ due) s allowed =
      then_slots-Serves due s.tasks (slot_name at) (run_slots w policy repository due)
        (run_slot w policy repository at s) (λ s'. (run_slots-HasTask due s' allowed).0)
        (λ s' later h. (run_slots-HasTask due s' allowed).1 later h) (run_slot-Serves at s allowed)
