-- ===== src/RestoreLaws/UnderWay.antt =====
-- One call on a restore that finds what it needs moves it on (internal/controller/restore_controller.go).
use backup_restore.Prelude.{
  ◌≡◌, refl, sym, ◌∙◌, ap, subst, ◌⊎◌, inl, inr, true, false, Option, none, arith, if-both,
}
use backup_restore.Prelude.Int.{◌≤ℤ◌}
use backup_restore.Api.{RestorePhase, RestoreTask, RestoreTaskSpec, RestoreTaskStatus, Time}
use backup_restore.Backup.{contains_string, requeue}
use backup_restore.BackupLaws.Completion.{StartsAfter, IsInTime, not_timed_out, starts_after}
use backup_restore.RestoreRun.{
  RestoreStep, RestoreOutcome, moved, erred, RestoreWorld, run_restore_stage, restore_transition,
  reconcile_restore, on_live_restore, with_restore_finalizer, after_restore_stage,
  is_foreign_restore, restore_finalizer, terminal_restore, is_new, restore_fail, quiet,
}
use backup_restore.RestoreLaws.Quiet.{IsEnd, Keeps}
use backup_restore.RestoreLaws.Phases.{restore_successor}
use backup_restore.RestoreLaws.Works.{RestoreWorks, Began, MovesTo, Ends}
use backup_restore.RestoreLaws.Moves.{goes_on, GoesThrough, stage-MovesTo, verifying-Ends}

-- The task belongs to the cluster, is neither deleted nor cancelled nor a dry run, goes on after an
-- error, finds what it needs, and has not begun before `start`.
pub record IsUnderWay (w : RestoreWorld) (start : Time) (task : RestoreTask) : Type 0 where
  pub ours : is_foreign_restore w task ≡ false
  pub kept : task.meta.deletion_timestamp ≡ none
  pub wanted : task.spec.cancel_requested ≡ false
  pub through : GoesThrough task.spec
  pub works : RestoreWorks w task.spec
  pub begun : StartsAfter start task.status.started_at

abbrev pub IsOpen : RestorePhase → Type 0
IsOpen p = (p ≡ RestorePhase.unset) ⊎ (goes_on p ≡ true)

-- What the specification and the deletion time decide.
abbrev Decided : RestoreWorld → RestoreTask → RestoreTaskSpec → Option Time → Type 0
Decided w task spec deleted =
    (is_foreign_restore w (record task { spec = spec }) ≡ false)
    × (deleted ≡ none)
    × (spec.cancel_requested ≡ false)
    × GoesThrough spec
    × RestoreWorks w spec

later_UnderWay :
    (w : RestoreWorld) (start now : Time) (task later : RestoreTask)
    → IsUnderWay w start task
    → start ≤ℤ now
    → Keeps task later
    → Began task now later
    → IsUnderWay w start later
later_UnderWay w start now task later c l (spec, deleted) began =
    let (ours, kept, wanted, through, works) =
      subst (λ d. Decided w task later.spec d) (sym deleted)
        (subst (λ s. Decided w task s task.meta.deletion_timestamp) (sym spec)
          (c.ours, c.kept, c.wanted, c.through, c.works)) in
    record {
      ours = ours;
      kept = kept;
      wanted = wanted;
      through = through;
      works = works;
      begun = starts_after start now task.status.started_at later.status.started_at began l c.begun;
    }

open_not_terminal : (p : RestorePhase) → goes_on p ≡ true → terminal_restore p ≡ false
unfolding terminal_restore
open_not_terminal p g = ground arith

open_not_new : (p : RestorePhase) → goes_on p ≡ true → is_new p ≡ false
open_not_new p g = ground arith

unset_not_terminal : (p : RestorePhase) → p ≡ RestorePhase.unset → terminal_restore p ≡ false
unfolding terminal_restore
unset_not_terminal p e = ground arith

verifying_not_terminal :
    (p : RestorePhase) → p ≡ RestorePhase.verifying → terminal_restore p ≡ false
unfolding terminal_restore
verifying_not_terminal p e = ground arith

verifying_not_new : (p : RestorePhase) → p ≡ RestorePhase.verifying → is_new p ≡ false
verifying_not_new p e = ap is_new e

unset_is_new : (p : RestorePhase) → p ≡ RestorePhase.unset → is_new p ≡ true
unset_is_new p e = ap is_new e

abbrev queued : RestoreTask → Time → RestoreTask
unfolding restore_transition
queued task now = restore_transition task RestorePhase.pending "Queued" "restore task accepted" now

module _ (w : RestoreWorld) (start : Time) (now : Time) where
  abbrev pub MovesOn : RestorePhase → RestoreTask → Type 0
  MovesOn p later = (later.status.phase ≡ restore_successor p) × IsUnderWay w start later

  step_MovesOn :
      (task : RestoreTask) (p : RestorePhase) (s : RestoreStep)
      → IsUnderWay w start task
      → start ≤ℤ now
      → MovesTo task now (restore_successor p) s
      → MovesOn p (after_restore_stage s now).task
  unfolding restore_fail
  step_MovesOn task p (moved later reply calls) c l (phase, keeps, began) =
      (phase, later_UnderWay w start now task later c l keeps began)
  step_MovesOn task p (erred later errors e calls) c l m = absurd m

  -- A live call on a new task, and on one that goes on, in time.
  live_new :
      (task : RestoreTask)
      → IsUnderWay w start task
      → IsInTime start task.spec.timeout now
      → task.status.phase ≡ RestorePhase.unset
      → on_live_restore w task now ≡ quiet (queued task now) requeue
  unfolding on_live_restore
  live_new task c t e =
      simp
        (
          unset_not_terminal task.status.phase e,
          unset_is_new task.status.phase e,
          c.wanted,
          not_timed_out start now task.spec.timeout task.status.started_at c.begun t,
        )
        refl

  live_stage :
      (task : RestoreTask)
      → IsUnderWay w start task
      → IsInTime start task.spec.timeout now
      → goes_on task.status.phase ≡ true
      → on_live_restore w task now
        ≡ after_restore_stage (run_restore_stage task.status.phase w task now) now
  unfolding on_live_restore
  live_stage task c t g =
      simp
        (
          open_not_terminal task.status.phase g,
          open_not_new task.status.phase g,
          c.wanted,
          not_timed_out start now task.spec.timeout task.status.started_at c.begun t,
        )
        refl

  after_live :
      (task : RestoreTask)
      → IsUnderWay w start task
      → IsInTime start task.spec.timeout now
      → IsOpen task.status.phase
      → MovesOn task.status.phase (on_live_restore w task now).task
  unfolding restore_transition
  after_live task c t (inl e) =
      subst (λ p. MovesOn p (on_live_restore w task now).task) (sym e)
        (subst (λ (o : RestoreOutcome). MovesOn RestorePhase.unset o.task)
          (sym (live_new task c t e))
          (refl, later_UnderWay w start now task (queued task now) c t.0 (refl, refl) (inl refl)))
  after_live task c t (inr g) =
      subst (λ (o : RestoreOutcome). MovesOn task.status.phase o.task) (sym (live_stage task c t g))
        (step_MovesOn task task.status.phase (run_restore_stage task.status.phase w task now) c t.0
          (stage-MovesTo w task now c.works c.through task.status.phase g))

  with_finalizer-UnderWay :
      (task : RestoreTask)
      → IsUnderWay w start task
      → (IsUnderWay w start (with_restore_finalizer task))
        × ((with_restore_finalizer task).status ≡ task.status)
        × ((with_restore_finalizer task).spec ≡ task.spec)
  unfolding with_restore_finalizer
  with_finalizer-UnderWay task c =
      if-both
        (λ (t : RestoreTask).
          IsUnderWay w start t × (t.status ≡ task.status) × (t.spec ≡ task.spec))
        (contains_string task.meta.finalizers restore_finalizer) _ _ (λ b. (c, refl, refl))
        (λ b. (
          record {
            ours = c.ours;
            kept = c.kept;
            wanted = c.wanted;
            through = c.through;
            works = c.works;
            begun = c.begun;
          },
          refl,
          refl,
        ))

  reconcile_live :
      (task : RestoreTask)
      → IsUnderWay w start task
      → reconcile_restore w task now ≡ on_live_restore w (with_restore_finalizer task) now
  unfolding reconcile_restore
  reconcile_live task c = ground (arith, c.kept, c.ours)

  pub reconcile-MovesOn :
      (task : RestoreTask)
      → IsUnderWay w start task
      → IsInTime start task.spec.timeout now
      → IsOpen task.status.phase
      → MovesOn task.status.phase (reconcile_restore w task now).task
  reconcile-MovesOn task c t u =
      let (c', status, spec) = with_finalizer-UnderWay task c in
      subst (λ (o : RestoreOutcome). MovesOn task.status.phase o.task) (sym (reconcile_live task c))
        (subst
          (λ (s : RestoreTaskStatus).
            MovesOn s.phase (on_live_restore w (with_restore_finalizer task) now).task)
          status
          (after_live (with_restore_finalizer task) c'
            (subst (λ (s : RestoreTaskSpec). IsInTime start s.timeout now) (sym spec) t)
            (subst (λ (s : RestoreTaskStatus). IsOpen s.phase) (sym status) u)))

  -- The last call.
  live_last :
      (task : RestoreTask)
      → IsUnderWay w start task
      → IsInTime start task.spec.timeout now
      → task.status.phase ≡ RestorePhase.verifying
      → on_live_restore w task now
        ≡ after_restore_stage (run_restore_stage task.status.phase w task now) now
  unfolding on_live_restore
  live_last task c t e =
      simp
        (
          verifying_not_terminal task.status.phase e,
          verifying_not_new task.status.phase e,
          c.wanted,
          not_timed_out start now task.spec.timeout task.status.started_at c.begun t,
        )
        refl

  step_Ends : (s : RestoreStep) → Ends s → IsEnd (after_restore_stage s now).task.status.phase
  unfolding restore_fail
  step_Ends (moved later reply calls) h = h
  step_Ends (erred later errors e calls) h = absurd h

  live_Ends :
      (task : RestoreTask)
      → IsUnderWay w start task
      → IsInTime start task.spec.timeout now
      → task.status.phase ≡ RestorePhase.verifying
      → IsEnd (on_live_restore w task now).task.status.phase
  live_Ends task c t e =
      subst (λ (o : RestoreOutcome). IsEnd o.task.status.phase) (sym (live_last task c t e))
        (step_Ends (run_restore_stage task.status.phase w task now) (
          subst (λ p. Ends (run_restore_stage p w task now)) (sym e)
            (verifying-Ends w task now c.works c.through)))

  pub reconcile-Ends :
      (task : RestoreTask)
      → IsUnderWay w start task
      → IsInTime start task.spec.timeout now
      → task.status.phase ≡ RestorePhase.verifying
      → IsEnd (reconcile_restore w task now).task.status.phase
  reconcile-Ends task c t e =
      let (c', status, spec) = with_finalizer-UnderWay task c in
      subst (λ (o : RestoreOutcome). IsEnd o.task.status.phase) (sym (reconcile_live task c))
        (live_Ends (with_restore_finalizer task) c'
          (subst (λ (s : RestoreTaskSpec). IsInTime start s.timeout now) (sym spec) t)
          (ap (λ (s : RestoreTaskStatus). s.phase) status ∙ e))
