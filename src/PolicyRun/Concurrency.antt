-- ===== src/PolicyRun/Concurrency.antt =====
-- What the loop over the due times of a policy does to the stored tasks
-- (internal/controller/policy_controller.go).
use backup_restore.Prelude.{
  ℕ, suc, ◌+◌, ◌≤◌, ◌≡◌, refl, sym, subst, ap, true, false, not, List, [], ◌∷◌, ◌++◌, none, some,
  arith, length, ◌⊎◌, Option-cases, inl, inr, if◌then◌else◌,
}
use backup_restore.Api.{BackupPolicy, BackupRepository, BackupTask, ObjectReference, Time}
use backup_restore.Errors.{Failure, Io, done, failed}
use backup_restore.Webhook.Selection.{is_nil}
use backup_restore.Backup.{terminal_backup}
use backup_restore.PolicyRun.{
  PolicyWorld, find_task, reference_of, scheduled_task, Slots, SlotResult, next_slot, slot_error,
  is_forbid, create_slot, run_slot, run_slots, then_slots, noted_slot, append_limited_skipped,
}

-- How many tasks a policy that forbids concurrency may still create.
abbrev pub quota : List ObjectReference → ℕ
quota [] = 1
quota (ref ∷ refs) = 0

abbrev pub IsBounded : ℕ → SlotResult → Type 0
IsBounded n (next_slot s) = length s.tasks + quota s.active ≤ n
IsBounded n (slot_error tasks e) = length tasks ≤ n

length-snoc : (ts : List BackupTask) (t : BackupTask) → length (ts ++ t ∷ []) ≡ suc (length ts)
length-snoc [] t = refl
length-snoc (u ∷ ts) t = ap suc (length-snoc ts t)

quota-snoc : (refs : List ObjectReference) (ref : ObjectReference) → quota (refs ++ ref ∷ []) ≡ 0
quota-snoc [] ref = refl
quota-snoc (r ∷ refs) ref = refl

quota_le : (refs : List ObjectReference) → quota refs ≤ 1
quota_le [] = omega arith
quota_le (ref ∷ refs) = omega arith

pub Io-cases :
    (io : Io (Unit {0})) → ((u : Unit {0}) × (io ≡ done u)) ⊎ ((e : Failure) × (io ≡ failed e))
Io-cases (done u) = inl (u, refl)
Io-cases (failed e) = inr (e, refl)

module _ (w : PolicyWorld) (task : BackupTask) (at : Time) (s : Slots) where
  abbrev pub still_active : BackupTask → List ObjectReference
  still_active existing =
      if not (terminal_backup existing.status.phase)
      then s.active ++ reference_of existing ∷ []
      else s.active

  pub create_slot_found :
      (existing : BackupTask)
      → find_task task.meta.name s.tasks ≡ some existing
      → create_slot w task at s ≡ noted_slot s at s.tasks (still_active existing)
  unfolding create_slot
  create_slot_found existing found = ground arith

  pub create_slot_made :
      (u : Unit {0})
      → find_task task.meta.name s.tasks ≡ none
      → w.admit task ≡ done u
      → create_slot w task at s
        ≡ noted_slot s at (s.tasks ++ task ∷ []) (s.active ++ reference_of task ∷ [])
  unfolding create_slot
  create_slot_made u free ok = ground arith

  pub create_slot_refused :
      (e : Failure)
      → find_task task.meta.name s.tasks ≡ none
      → w.admit task ≡ failed e
      → create_slot w task at s ≡ slot_error s.tasks e
  unfolding create_slot
  create_slot_refused e free bad = ground arith

  -- The three ways in which a slot's task can come out.
  pub create_slot_cases :
      (P : SlotResult → Type 0)
      → ((existing : BackupTask)
          → find_task task.meta.name s.tasks ≡ some existing
          → P (noted_slot s at s.tasks (still_active existing)))
      → (find_task task.meta.name s.tasks ≡ none
          → P (noted_slot s at (s.tasks ++ task ∷ []) (s.active ++ reference_of task ∷ [])))
      → ((e : Failure) → P (slot_error s.tasks e))
      → P (create_slot w task at s)
  create_slot_cases P there new bad = elim (Option-cases (find_task task.meta.name s.tasks)) [
    | inr (existing, found) ↦
        subst P (sym (create_slot_found existing found)) (there existing found)
    | inl free ↦ elim (Io-cases (w.admit task)) [
      | inl (u, ok) ↦ subst P (sym (create_slot_made u free ok)) (new free)
      | inr (e, refused) ↦ subst P (sym (create_slot_refused e free refused)) (bad e)
    ]
  ]

  create_slot-IsBounded : IsBounded (length s.tasks + 1) (create_slot w task at s)
  create_slot-IsBounded =
      create_slot_cases (IsBounded (length s.tasks + 1))
        (λ existing found. omega (arith, quota_le (still_active existing)))
        (λ free. omega (arith, length-snoc s.tasks task, quota-snoc s.active (reference_of task)))
        (λ e. omega arith)

module _ (w : PolicyWorld) (policy : BackupPolicy) (repository : BackupRepository) (at : Time)
    (s : Slots) where
  run_slot_create :
      is_nil s.active ≡ true
      → run_slot w policy repository at s
        ≡ create_slot w (scheduled_task w policy repository at) at s
  unfolding run_slot
  run_slot_create e = rw e refl

  run_slot_blocked :
      is_nil s.active ≡ false
      → is_forbid policy.spec.concurrency_policy ≡ true
      → run_slot w policy repository at s
        ≡ next_slot (record s {
          skipped_runs = append_limited_skipped s.skipped_runs at "ConcurrencyForbid";
        })
  unfolding run_slot
  run_slot_blocked e forbid = rw e (rw forbid refl)

  run_slot-IsBounded :
      is_forbid policy.spec.concurrency_policy ≡ true
      → (active : List ObjectReference) → s.active ≡ active
      → IsBounded (length s.tasks + quota active) (run_slot w policy repository at s)
  run_slot-IsBounded forbid [] e =
      subst (IsBounded (length s.tasks + 1)) (sym (run_slot_create (ap (λ l. is_nil l) e)))
        (create_slot-IsBounded w (scheduled_task w policy repository at) at s)
  run_slot-IsBounded forbid (ref ∷ refs) e =
      subst (IsBounded (length s.tasks + 0)) (sym (run_slot_blocked (ap (λ l. is_nil l) e) forbid))
        (omega (arith, ap quota e))

then_slots-IsBounded :
    (n : ℕ) (rest : Slots → SlotResult) (r : SlotResult)
    → ((s : Slots) → IsBounded (length s.tasks + quota s.active) (rest s))
    → IsBounded n r
    → IsBounded n (then_slots rest r)
then_slots-IsBounded n rest (slot_error tasks e) h b = b
then_slots-IsBounded n rest (next_slot s) h b = weaken (rest s) (h s)
  where
    weaken : (r : SlotResult) → IsBounded (length s.tasks + quota s.active) r → IsBounded n r
    weaken (next_slot t) k = omega arith
    weaken (slot_error tasks e) k = omega arith

-- A policy that forbids concurrent runs creates one task at most, however many times are due, and
-- none while one of its tasks is active; with an error too.
pub run_slots-forbid :
    (w : PolicyWorld) (policy : BackupPolicy) (repository : BackupRepository) (due : List Time)
    (s : Slots)
    → is_forbid policy.spec.concurrency_policy ≡ true
    → IsBounded (length s.tasks + quota s.active) (run_slots w policy repository due s)
unfolding run_slots
run_slots-forbid w policy repository [] s forbid = omega arith
run_slots-forbid w policy repository (at ∷ due) s forbid =
    then_slots-IsBounded _ (run_slots w policy repository due) (run_slot w policy repository at s)
      (λ s'. run_slots-forbid w policy repository due s' forbid)
      (run_slot-IsBounded w policy repository at s forbid s.active refl)
