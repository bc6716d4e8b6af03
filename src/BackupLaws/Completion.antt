-- ===== src/BackupLaws/Completion.antt =====
-- A backup whose stages succeed is completed (internal/controller/backup_controller.go).
use backup_restore.Prelude.{
  ◌≡◌, refl, sym, ◌∙◌, ap, subst, true, false, Option, none, some, List, [], ◌∷◌, arith, ◌⊎◌, inl,
  inr, All, length, ℕ, suc, Bool-cases,
}
use backup_restore.Prelude.Int.{◌+ℤ◌, ◌≤ℤ◌, +ℤ_parts}
use backup_restore.Api.{BackupPhase, BackupTask, Time, Duration}
use backup_restore.Webhook.Repository.{is_set}
use backup_restore.Backup.{
  StageResult, moved, erred, World, reconcile, on_live, with_finalizer, after_stage, is_foreign,
  timed_out, backup_task_timeout, terminal_backup, transition, run_stage, contains_string,
  backup_task_finalizer,
}
use backup_restore.BackupLaws.Phases.{successor, with_finalizer-status}
use backup_restore.BackupLaws.Progress.{Works, IsSettled, Advances, is_stage, stage-Advances}

-- The task as it is left by one call after the other.
abbrev pub run : World → List Time → BackupTask → BackupTask
run w [] task = task
run w (now ∷ times) task = run w times (reconcile w task now).0

abbrev pub StartsAfter : Time → Option Time → Type 0
StartsAfter start none = Unit
StartsAfter start (some t) = start ≤ℤ t

-- The task belongs to the cluster, is neither deleted nor cancelled, has a settled specification,
-- has not begun before `start`, and knows its record when it waits for it.
pub record IsOnCourse (w : World) (start : Time) (timeout : Duration) (task : BackupTask)
    : Type 0 where
  pub ours : is_foreign w task ≡ false
  pub kept : task.meta.deletion_timestamp ≡ none
  pub wanted : task.spec.cancel_requested ≡ false
  pub lasts : backup_task_timeout task.spec.backup_spec ≡ timeout
  pub settled : IsSettled w.lookups task.spec
  pub begun : StartsAfter start task.status.started_at
  pub linked :
      task.status.phase ≡ BackupPhase.generating_record → is_set task.status.record_ref ≡ true

abbrev pub IsInTime : Time → Duration → Time → Type 0
IsInTime start timeout now = (start ≤ℤ now) × (now ≤ℤ start +ℤ timeout)

pub not_timed_out :
    (start now : Time) (timeout : Duration) (started : Option Time)
    → StartsAfter start started
    → IsInTime start timeout now
    → timed_out started timeout now ≡ false
unfolding timed_out
not_timed_out start now timeout none h t = refl
not_timed_out start now timeout (some s) h t =
    ground (arith, +ℤ_parts start timeout, +ℤ_parts s timeout)

pub starts_after :
    (start now : Time) (before after : Option Time)
    → (after ≡ before) ⊎ (after ≡ some now)
    → start ≤ℤ now
    → StartsAfter start before
    → StartsAfter start after
starts_after start now before after (inl e) l h = subst (StartsAfter start) (sym e) h
starts_after start now before after (inr e) l h = subst (StartsAfter start) (sym e) l

abbrev pub IsUnfinished : BackupPhase → Type 0
IsUnfinished p = (p ≡ BackupPhase.unset) ⊎ (is_stage p ≡ true)

before_generating :
    (p : BackupPhase) → successor p ≡ BackupPhase.generating_record → p ≡ BackupPhase.verifying
before_generating p e = ground arith

module _ (w : World) (start : Time) (timeout : Duration) (now : Time) where
  abbrev MovesOn : BackupPhase → BackupTask → Type 0
  MovesOn p later = (later.status.phase ≡ successor p) × IsOnCourse w start timeout later

  after_stage-MovesOn :
      (task : BackupTask) (stage : StageResult)
      → IsOnCourse w start timeout task
      → start ≤ℤ now
      → Advances task now task.status.phase stage
      → MovesOn task.status.phase (after_stage stage now).0
  after_stage-MovesOn task (erred later e) c l a = absurd a
  after_stage-MovesOn task (moved later reply) c l (phase, spec, meta, began, linked) = (
    phase,
    record {
      ours = ground (arith, c.ours);
      kept = ground (arith, c.kept);
      wanted = ground (arith, c.wanted);
      lasts = ground (arith, c.lasts);
      settled = subst (IsSettled w.lookups) (sym spec) c.settled;
      begun = starts_after start now task.status.started_at later.status.started_at began l c.begun;
      linked = λ e. linked (before_generating task.status.phase (sym phase ∙ e));
    },
  )

  first-MovesOn :
      (task : BackupTask)
      → IsOnCourse w start timeout task
      → task.status.phase ≡ BackupPhase.unset
      → MovesOn BackupPhase.unset
          (transition task BackupPhase.pending 0 "Queued" "backup task accepted" now).0
  unfolding transition
  first-MovesOn task c e = (
    refl,
    record {
      ours = c.ours;
      kept = c.kept;
      wanted = c.wanted;
      lasts = c.lasts;
      settled = c.settled;
      begun = c.begun;
      linked = λ e. absurd cc;
    },
  )

  on_live_first :
      (task : BackupTask)
      → IsOnCourse w start timeout task
      → IsInTime start timeout now
      → task.status.phase ≡ BackupPhase.unset
      → on_live w task now
        ≡ transition task BackupPhase.pending 0 "Queued" "backup task accepted" now
  unfolding on_live terminal_backup
  on_live_first task c t e =
      ground
        (arith, c.wanted, c.lasts, not_timed_out start now timeout task.status.started_at c.begun t)

  on_live_stage :
      (task : BackupTask)
      → IsOnCourse w start timeout task
      → IsInTime start timeout now
      → is_stage task.status.phase ≡ true
      → on_live w task now ≡ after_stage (run_stage task.status.phase w task now) now
  unfolding on_live terminal_backup
  on_live_stage task c t i =
      ground
        (arith, c.wanted, c.lasts, not_timed_out start now timeout task.status.started_at c.begun t)

  on_live-MovesOn :
      (task : BackupTask)
      → Works w
      → IsOnCourse w start timeout task
      → IsInTime start timeout now
      → IsUnfinished task.status.phase
      → MovesOn task.status.phase (on_live w task now).0
  on_live-MovesOn task ok c t (inl e) =
      subst (λ p. MovesOn p (on_live w task now).0) (sym e)
        (subst (λ r. MovesOn BackupPhase.unset r.0) (sym (on_live_first task c t e))
          (first-MovesOn task c e))
  on_live-MovesOn task ok c t (inr i) =
      subst (λ r. MovesOn task.status.phase r.0) (sym (on_live_stage task c t i))
        (after_stage-MovesOn task (run_stage task.status.phase w task now) c t.0
          (stage-Advances w task now ok task.status.phase i c.settled c.linked))

  with_finalizer-IsOnCourse :
      (task : BackupTask)
      → IsOnCourse w start timeout task
      → IsOnCourse w start timeout (with_finalizer task)
  unfolding with_finalizer
  with_finalizer-IsOnCourse task c =
      elim (Bool-cases (contains_string task.meta.finalizers backup_task_finalizer)) [
        | inl b ↦ rw b c
        | inr b ↦ rw b (record {
          ours = c.ours;
          kept = c.kept;
          wanted = c.wanted;
          lasts = c.lasts;
          settled = c.settled;
          begun = c.begun;
          linked = c.linked;
        })
      ]

  reconcile_live :
      (task : BackupTask)
      → IsOnCourse w start timeout task
      → reconcile w task now ≡ on_live w (with_finalizer task) now
  unfolding reconcile
  reconcile_live task c = ground (arith, c.kept, c.ours)

  reconcile-MovesOn :
      (task : BackupTask)
      → Works w
      → IsOnCourse w start timeout task
      → IsInTime start timeout now
      → IsUnfinished task.status.phase
      → MovesOn task.status.phase (reconcile w task now).0
  reconcile-MovesOn task ok c t u =
      subst (λ r. MovesOn task.status.phase r.0) (sym (reconcile_live task c))
        (subst (λ status. MovesOn status.phase (on_live w (with_finalizer task) now).0)
          (with_finalizer-status task)
          (on_live-MovesOn (with_finalizer task) ok (with_finalizer-IsOnCourse task c) t
            (subst (λ status. IsUnfinished status.phase) (sym (with_finalizer-status task)) u)))

-- How many calls the plan has left.
abbrev pub steps_left : BackupPhase → ℕ
steps_left BackupPhase.unset = 11
steps_left BackupPhase.pending = 10
steps_left BackupPhase.validating = 9
steps_left BackupPhase.preparing = 8
steps_left BackupPhase.collecting_resources = 7
steps_left BackupPhase.running_pre_hooks = 6
steps_left BackupPhase.creating_snapshots = 5
steps_left BackupPhase.packaging = 4
steps_left BackupPhase.uploading = 3
steps_left BackupPhase.verifying = 2
steps_left BackupPhase.generating_record = 1
steps_left _ = 0

none_left : (p : BackupPhase) → steps_left p ≡ 0 → ¬ IsUnfinished p
none_left p e u = ground arith

one_less :
    (p : BackupPhase) (n : ℕ)
    → steps_left p ≡ suc n
    → ((n ≡ 0) × (successor p ≡ BackupPhase.completed))
      ⊎ (IsUnfinished (successor p) × (steps_left (successor p) ≡ n))
one_less p n e = ground arith

run_nothing :
    (w : World) (task : BackupTask) (times : List Time) → length times ≡ 0 → run w times task ≡ task
run_nothing w task [] l = refl
run_nothing w task (now ∷ times) l = cc

-- A task that is on course, in a world that works, is completed by as many calls as its plan has
-- left (11 for a new task), if these all come before its timeout.
pub run-completes :
    (w : World) (start : Time) (timeout : Duration) (task : BackupTask) (times : List Time)
    → Works w
    → IsOnCourse w start timeout task
    → IsUnfinished task.status.phase
    → All (IsInTime start timeout) times
    → length times ≡ steps_left task.status.phase
    → (run w times task).status.phase ≡ BackupPhase.completed
run-completes w start timeout task [] ok c u t l = absurd (none_left task.status.phase (sym l) u)
run-completes w start timeout task (now ∷ times) ok c u (t, ts) l =
    let (e, course) = reconcile-MovesOn w start timeout now task ok c t u in
    let later = (reconcile w task now).0 in
    elim (one_less task.status.phase (length times) (sym l)) [
      | inl (none_more, ends) ↦
          subst (λ task. task.status.phase ≡ BackupPhase.completed)
            (sym (run_nothing w later times none_more)) (e ∙ ends)
      | inr (unfinished, left) ↦
          run-completes w start timeout later times ok course
            (subst IsUnfinished (sym e) unfinished) ts (sym (ap steps_left e ∙ left))
    ]
