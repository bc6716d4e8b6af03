-- ===== src/Lifecycle/Swept.antt =====
-- What the garbage collection deletes (GarbageCollectionReconciler of
-- internal/controller/lifecycle_controllers.go).
use backup_restore.Prelude.{
  ℕ, ◌*◌, ◌≤◌, arith, String, true, false, ◌&&◌, ◌||◌, is_empty, str_eq, ◌∙◌, ◌≡◌, refl, ap, Bool,
  List, [], ◌∷◌, ◌++◌, map, Bool-cases, inl, inr, if◌then◌else◌,
}
use mathlib.Core.List.{append-nil}
use backup_restore.Prelude.Int.{◌+ℤ◌, ◌-ℤ◌, pos, ltb_ℤ, sub_ℕ}
use backup_restore.Api.{
  BackupTask, RestoreTask, BackupPluginConfig, Duration, Time, BackupPhase, RestorePhase,
}
use backup_restore.Errors.{Io, done, failed}
use backup_restore.Backup.{Reply, terminal_backup}
use backup_restore.RestoreRun.{terminal_restore}
use backup_restore.RecordRun.{replied}
use backup_restore.Lifecycle.Garbage.{
  minus_days_of, Garbage, backup_garbage, restore_garbage, directory_garbage, Directory,
  GarbageWorld, GarbageOutcome, is_old_backup, is_old_restore, swept, sweep_backups, sweep_restores,
  old_directories, sweep_directories, reconcile_garbage,
}

-- The elements that pass a test, in their order.
unfoldable pub select_if {ℓ} : {A : Type ℓ} → (A → Bool) → List A → List A
select_if p [] = []
select_if p (x ∷ xs) = let rest = select_if p xs in if p x then x ∷ rest else rest

-- The phases that end a task.
abbrev pub has_ended_backup : BackupPhase → Bool
has_ended_backup BackupPhase.completed = true
has_ended_backup BackupPhase.partially_failed = true
has_ended_backup BackupPhase.failed = true
has_ended_backup BackupPhase.cancelled = true
has_ended_backup _ = false

abbrev pub has_ended_restore : RestorePhase → Bool
has_ended_restore RestorePhase.completed = true
has_ended_restore RestorePhase.partially_failed = true
has_ended_restore RestorePhase.failed = true
has_ended_restore RestorePhase.cancelled = true
has_ended_restore _ = false

-- A configuration without a cluster takes the tasks of all.
abbrev pub is_of : String → String → Bool
is_of mine cluster = is_empty mine || str_eq cluster mine

-- An ended task of the cluster that was created before the cutoff.
unfoldable pub is_done_backup : String → Time → BackupTask → Bool
is_done_backup mine cutoff t =
    is_of mine t.spec.identity.cluster_ref
    && has_ended_backup t.status.phase
    && ltb_ℤ t.meta.creation_timestamp cutoff

unfoldable pub is_done_restore : String → Time → RestoreTask → Bool
is_done_restore mine cutoff t =
    is_of mine t.spec.identity.cluster_ref
    && has_ended_restore t.status.phase
    && ltb_ℤ t.meta.creation_timestamp cutoff

abbrev pub is_left_over : Time → Directory → Bool
is_left_over cutoff d = d.is_directory && ltb_ℤ d.modified cutoff

abbrev pub wanted_backups : GarbageWorld → Time → List BackupTask → List Garbage
wanted_backups w cutoff tasks =
    map (λ t. backup_garbage t.meta.name) (select_if (is_done_backup w.cluster_ref cutoff) tasks)

abbrev pub wanted_restores : GarbageWorld → Time → List RestoreTask → List Garbage
wanted_restores w cutoff tasks =
    map (λ t. restore_garbage t.meta.name) (select_if (is_done_restore w.cluster_ref cutoff) tasks)

abbrev pub wanted_directories : Time → List Directory → List Garbage
wanted_directories cutoff entries =
    map (λ d. directory_garbage d.name) (select_if (is_left_over cutoff) entries)

-- The tasks are kept for a number of days of 24 hours, in nanoseconds.
abbrev pub kept_since : ℕ → Time → Time
kept_since days now = now -ℤ pos (days * 86400000000000)

abbrev pub wanted_garbage :
    GarbageWorld → ℕ → Duration → Time → List BackupTask → List RestoreTask → List Garbage
wanted_garbage w days grace now backups restores =
    wanted_backups w (kept_since days now) backups
    ++ (wanted_restores w (kept_since days now) restores
        ++ wanted_directories (now -ℤ grace) w.entries)

-- The deletions begin a list, and are all of it unless an error ends the call.
abbrev pub Begins : List Garbage → GarbageOutcome → Type 0
Begins wanted o =
    (rest : List Garbage) × (o.deleted ++ rest ≡ wanted)
    × ((reply : Reply) → o.ended ≡ replied reply → rest ≡ [])

swept-Begins :
    (g : Garbage) (io : Io (Unit {0})) (wanted : List Garbage) (rest : GarbageOutcome)
    → Begins wanted rest
    → Begins (g ∷ wanted) (swept g io rest)
swept-Begins g (failed e) wanted rest b = (wanted, refl, λ reply h. absurd (cc))
swept-Begins g (done _) wanted rest (left, e, all) = (left, ap (λ l. g ∷ l) e, all)

has_ended_backup_lem : (p : BackupPhase) → terminal_backup p ≡ has_ended_backup p
unfolding terminal_backup
has_ended_backup_lem p = ground arith

has_ended_restore_lem : (p : RestorePhase) → terminal_restore p ≡ has_ended_restore p
unfolding terminal_restore
has_ended_restore_lem p = ground arith

is_done_backup_lem :
    (mine : String) (cutoff : Time) (t : BackupTask)
    → is_old_backup mine cutoff t ≡ is_done_backup mine cutoff t
unfolding is_old_backup is_done_backup
is_done_backup_lem mine cutoff t = rw (has_ended_backup_lem t.status.phase) refl

is_done_restore_lem :
    (mine : String) (cutoff : Time) (t : RestoreTask)
    → is_old_restore mine cutoff t ≡ is_done_restore mine cutoff t
unfolding is_old_restore is_done_restore
is_done_restore_lem mine cutoff t = rw (has_ended_restore_lem t.status.phase) refl

old_directories_lem :
    (cutoff : Time) (entries : List Directory)
    → old_directories cutoff entries ≡ wanted_directories cutoff entries
unfolding old_directories select_if
old_directories_lem cutoff [] = refl
old_directories_lem cutoff (d ∷ entries) =
    elim (Bool-cases (d.is_directory && ltb_ℤ d.modified cutoff)) [
      | inl old ↦
          rw old (ap (λ l. directory_garbage d.name ∷ l) (old_directories_lem cutoff entries))
      | inr young ↦ rw young (old_directories_lem cutoff entries)
    ]

-- Up to 106751 days the product does not overflow.
minus_days_of_exact : (d : ℕ) → d ≤ 106751 → minus_days_of (pos d) ≡ sub_ℕ 0 (d * 86400000000000)
unfolding minus_days_of
minus_days_of_exact d h = ground arith

kept_since_lem : (d : ℕ) (now : Time) → d ≤ 106751 → now +ℤ minus_days_of (pos d) ≡ kept_since d now
unfolding ◌+ℤ◌ ◌-ℤ◌
kept_since_lem d now h = rw (minus_days_of_exact d h) (ground arith)

module _ (w : GarbageWorld) (cutoff : Time) where
  sweep_backups-Begins :
      (tasks : List BackupTask) (wanted : List Garbage) (after : GarbageOutcome)
      → Begins wanted after
      → Begins (wanted_backups w cutoff tasks ++ wanted) (sweep_backups w cutoff tasks after)
  unfolding sweep_backups select_if
  sweep_backups-Begins [] wanted after b = b
  sweep_backups-Begins (task ∷ tasks) wanted after b =
      rw (is_done_backup_lem w.cluster_ref cutoff task)
        (elim (Bool-cases (is_done_backup w.cluster_ref cutoff task)) [
          | inl old ↦ rw old (
              swept-Begins (backup_garbage task.meta.name)
                (w.delete (backup_garbage task.meta.name)) _ _
                (sweep_backups-Begins tasks wanted after b))
          | inr young ↦ rw young (sweep_backups-Begins tasks wanted after b)
        ])

  sweep_restores-Begins :
      (tasks : List RestoreTask) (wanted : List Garbage) (after : GarbageOutcome)
      → Begins wanted after
      → Begins (wanted_restores w cutoff tasks ++ wanted) (sweep_restores w cutoff tasks after)
  unfolding sweep_restores select_if
  sweep_restores-Begins [] wanted after b = b
  sweep_restores-Begins (task ∷ tasks) wanted after b =
      rw (is_done_restore_lem w.cluster_ref cutoff task)
        (elim (Bool-cases (is_done_restore w.cluster_ref cutoff task)) [
          | inl old ↦ rw old (
              swept-Begins (restore_garbage task.meta.name)
                (w.delete (restore_garbage task.meta.name)) _ _
                (sweep_restores-Begins tasks wanted after b))
          | inr young ↦ rw young (sweep_restores-Begins tasks wanted after b)
        ])

-- When the tasks can be listed and ended tasks are kept for at most 106751 days, the deletions of a
-- garbage collection begin a list: the completed, partially failed, failed and cancelled backup tasks
-- of the cluster that were created before the days they are kept for, then such restore tasks, then
-- the directories of the workspace that have not changed for the grace period; and they are all of it
-- unless an error ends the call.
pub reconcile_garbage-Begins :
    (w : GarbageWorld) (config : BackupPluginConfig) (now : Time) (backups : List BackupTask)
    (restores : List RestoreTask) (days : ℕ)
    → w.backups ≡ done backups
    → w.restores ≡ done restores
    → config.spec.garbage_collection.terminal_task_ttl_days ≡ pos days
    → days ≤ 106751
    → Begins
        (wanted_garbage w days config.spec.garbage_collection.staging_grace_period now backups
          restores)
        (reconcile_garbage w config now)
unfolding reconcile_garbage
reconcile_garbage-Begins w config now backups restores days b r ttl h =
    let gc = config.spec.garbage_collection in
    let cutoff = kept_since days now in
    let young = now -ℤ gc.staging_grace_period in
    rw (b, r, ttl, kept_since_lem days now h)
      (sweep_backups-Begins w cutoff backups _ _ (
        sweep_restores-Begins w cutoff restores _ (sweep_directories w gc now) (
          [],
          append-nil (old_directories young w.entries) ∙ old_directories_lem young w.entries,
          λ reply e. refl,
        )))
