-- ===== src/Lifecycle/Garbage.antt =====
-- GarbageCollectionReconciler of internal/controller/lifecycle_controllers.go. The lists, the
-- directories of the workspace and the ends of the calls are arguments.
use backup_restore.Prelude.{
  suc, ◌*◌, String, Bool, ◌&&◌, ◌||◌, List, [], ◌∷◌, is_empty, str_eq, if◌then◌else◌,
}
use backup_restore.Prelude.Int.{ℤ, pos, negsuc, ltb_ℤ, sub_ℕ, ◌+ℤ◌, ◌-ℤ◌}
use backup_restore.Api.{
  BackupTask, RestoreTask, BackupPluginConfig, GarbageCollectionConfig, Duration, Time,
}
use backup_restore.Errors.{Io, done, failed}
use backup_restore.Webhook.Defaults.{hour}
use backup_restore.Backup.{terminal_backup, requeue_after}
use backup_restore.Retention.{day, wrap64}
use backup_restore.RestoreRun.{terminal_restore}
use backup_restore.RecordRun.{RecordReply, replied, gave_error}

-- -time.Duration(days) * 24 * time.Hour, which wraps around.
unfoldable pub minus_days_of : ℤ → Duration
unfolding wrap64
minus_days_of (pos n) = wrap64 (sub_ℕ 0 (n * day))
minus_days_of (negsuc n) = wrap64 (pos (suc n * day))

-- What is deleted: the objects by name, and the directories.
pub data Garbage : Type 0 where
  backup_garbage restore_garbage directory_garbage : String → Garbage

pub record Directory : Type 0 where
  pub name : String
  pub is_directory : Bool
  pub modified : Time

pub record GarbageWorld : Type 0 where
  pub cluster_ref : String
  pub backups : Io (List BackupTask)
  pub restores : Io (List RestoreTask)
  -- A deletion; what is missing already counts as deleted.
  pub delete : Garbage → Io (Unit {0})
  pub entries : List Directory

pub record GarbageOutcome : Type 0 where
  pub deleted : List Garbage
  pub ended : RecordReply

abbrev pub is_ours : String → String → Bool
is_ours mine cluster = is_empty mine || str_eq cluster mine

unfoldable pub is_old_backup : String → Time → BackupTask → Bool
unfolding terminal_backup
is_old_backup mine cutoff task =
    is_ours mine task.spec.identity.cluster_ref
    && terminal_backup task.status.phase
    && ltb_ℤ task.meta.creation_timestamp cutoff

unfoldable pub is_old_restore : String → Time → RestoreTask → Bool
unfolding terminal_restore
is_old_restore mine cutoff task =
    is_ours mine task.spec.identity.cluster_ref
    && terminal_restore task.status.phase
    && ltb_ℤ task.meta.creation_timestamp cutoff

-- A loop that deletes, and goes on with the rest unless the deletion fails.
abbrev pub swept : Garbage → Io (Unit {0}) → GarbageOutcome → GarbageOutcome
swept g (failed e) rest = record { deleted = g ∷ []; ended = gave_error e }
swept g (done _) rest = record rest { deleted = g ∷ rest.deleted }

unfoldable pub sweep_backups :
    GarbageWorld → Time → List BackupTask → GarbageOutcome → GarbageOutcome
unfolding is_old_backup
sweep_backups w cutoff [] after = after
sweep_backups w cutoff (task ∷ tasks) after =
    let rest = sweep_backups w cutoff tasks after in
    if is_old_backup w.cluster_ref cutoff task
    then swept (backup_garbage task.meta.name) (w.delete (backup_garbage task.meta.name)) rest
    else rest

unfoldable pub sweep_restores :
    GarbageWorld → Time → List RestoreTask → GarbageOutcome → GarbageOutcome
unfolding is_old_restore
sweep_restores w cutoff [] after = after
sweep_restores w cutoff (task ∷ tasks) after =
    let rest = sweep_restores w cutoff tasks after in
    if is_old_restore w.cluster_ref cutoff task
    then swept (restore_garbage task.meta.name) (w.delete (restore_garbage task.meta.name)) rest
    else rest

-- Directories that have not changed for a while; an error of their removal is ignored.
unfoldable pub old_directories : Time → List Directory → List Garbage
old_directories cutoff [] = []
old_directories cutoff (d ∷ entries) =
    let rest = old_directories cutoff entries in
    if d.is_directory && ltb_ℤ d.modified cutoff then directory_garbage d.name ∷ rest else rest

abbrev pub interval_or_hour : Duration → Duration
interval_or_hour interval = if ltb_ℤ (pos 0) interval then interval else pos hour

abbrev pub sweep_directories : GarbageWorld → GarbageCollectionConfig → Time → GarbageOutcome
unfolding old_directories ◌-ℤ◌
sweep_directories w config now = record {
  deleted = old_directories (now -ℤ config.staging_grace_period) w.entries;
  ended = replied (requeue_after (interval_or_hour config.interval));
}

abbrev pub after_restores :
    GarbageWorld → GarbageCollectionConfig → Time → Io (List RestoreTask) → GarbageOutcome
unfolding sweep_restores old_directories ◌-ℤ◌ minus_days_of ◌+ℤ◌
after_restores w config now (failed e) = record { deleted = []; ended = gave_error e }
after_restores w config now (done tasks) =
    sweep_restores w (now +ℤ minus_days_of config.terminal_task_ttl_days) tasks
      (sweep_directories w config now)

abbrev pub after_backups :
    GarbageWorld → GarbageCollectionConfig → Time → Io (List BackupTask) → GarbageOutcome
unfolding sweep_backups sweep_restores old_directories ◌-ℤ◌ minus_days_of ◌+ℤ◌
after_backups w config now (failed e) = record { deleted = []; ended = gave_error e }
after_backups w config now (done tasks) =
    sweep_backups w (now +ℤ minus_days_of config.terminal_task_ttl_days) tasks
      (after_restores w config now w.restores)

unfoldable pub reconcile_garbage : GarbageWorld → BackupPluginConfig → Time → GarbageOutcome
unfolding sweep_backups sweep_restores old_directories ◌-ℤ◌ minus_days_of ◌+ℤ◌
reconcile_garbage w config now = after_backups w config.spec.garbage_collection now w.backups
