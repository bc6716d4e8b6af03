-- ===== src/Lifecycle/Retain.antt =====
-- RetentionReconciler of internal/controller/lifecycle_controllers.go. The listed records, and the
-- ends of the calls of the API server, are arguments.
use backup_restore.Prelude.{
  String, Bool, false, ◌&&◌, not, List, [], ◌∷◌, Option, none, some, is_empty, str_eq, insert,
  if◌then◌else◌,
}
use backup_restore.Prelude.Int.{pos}
use backup_restore.Api.{BackupRecord, BackupPolicy, ObjectReference, RetentionSpec, Time}
use backup_restore.Errors.{Io, done, failed}
use backup_restore.Webhook.Defaults.{hour}
use backup_restore.Webhook.Repository.{is_set}
use backup_restore.Webhook.Record.{annotation_delete_mode, annotation_delete_confirmed}
use backup_restore.Backup.{stop, requeue_after}
use backup_restore.Retention.{select}
use backup_restore.RecordRun.{RecordReply, replied, gave_error}

pub record RetainWorld : Type 0 where
  pub cluster_ref : String
  pub records : Io (List BackupRecord)
  pub sort : List BackupRecord → List BackupRecord
  -- The record of a name as it is now.
  pub current : String → Io BackupRecord
  pub patch : BackupRecord → Io (Unit {0})
  pub delete : BackupRecord → Io (Unit {0})

-- The records that a call asks to delete, as they are patched before, and its end.
pub record RetainOutcome : Type 0 where
  pub deletes : List BackupRecord
  pub reply : RecordReply

abbrev pub ends : RecordReply → RetainOutcome
ends reply = record { deletes = []; reply = reply }

abbrev pub is_of : String → Option ObjectReference → Bool
is_of uid none = false
is_of uid (some ref) = str_eq ref.uid uid

unfoldable pub records_of : String → List BackupRecord → List BackupRecord
records_of uid [] = []
records_of uid (r ∷ records) =
    let rest = records_of uid records in if is_of uid r.spec.policy_ref then r ∷ rest else rest

abbrev pub retention_mode : RetentionSpec → String
retention_mode policy =
    if policy.delete_snapshots then "RepositoryDataAndSnapshots" else "RepositoryData"

unfoldable pub mark_deleted : RetentionSpec → BackupRecord → BackupRecord
unfolding insert
mark_deleted policy r = record r {
  meta = record (r.meta) {
    annotations =
        insert annotation_delete_mode (retention_mode policy)
          (insert annotation_delete_confirmed "true" r.meta.annotations);
  };
}

abbrev pub after_delete : BackupRecord → Io (Unit {0}) → RetainOutcome → RetainOutcome
after_delete r (failed e) rest = record { deletes = r ∷ []; reply = gave_error e }
after_delete r (done _) rest = record rest { deletes = r ∷ rest.deletes }

abbrev pub after_mark : RetainWorld → BackupRecord → Io (Unit {0}) → RetainOutcome → RetainOutcome
after_mark w r (failed e) rest = ends (gave_error e)
after_mark w r (done _) rest = after_delete r (w.delete r) rest

-- A record that cannot be read is passed over.
abbrev pub delete_current :
    RetainWorld → RetentionSpec → Io BackupRecord → RetainOutcome → RetainOutcome
unfolding mark_deleted
delete_current w policy (failed e) rest = rest
delete_current w policy (done r) rest =
    after_mark w (mark_deleted policy r) (w.patch (mark_deleted policy r)) rest

unfoldable pub delete_selected : RetainWorld → RetentionSpec → List BackupRecord → RetainOutcome
unfolding mark_deleted
delete_selected w policy [] = ends (replied (requeue_after (pos hour)))
delete_selected w policy (candidate ∷ candidates) =
    delete_current w policy (w.current candidate.meta.name) (delete_selected w policy candidates)

abbrev pub retain : RetainWorld → BackupPolicy → Time → Io (List BackupRecord) → RetainOutcome
unfolding records_of select delete_selected
retain w policy now (failed e) = ends (gave_error e)
retain w policy now (done records) =
    delete_selected w policy.spec.retention
      (select w.sort (records_of policy.meta.uid records) policy.spec.retention now)

unfoldable pub reconcile_retention : RetainWorld → BackupPolicy → Time → RetainOutcome
unfolding records_of select delete_selected
reconcile_retention w policy now =
    if not (is_empty w.cluster_ref) && not (str_eq policy.spec.identity.cluster_ref w.cluster_ref)
    then ends (replied stop)
    else if is_set policy.meta.deletion_timestamp
    then ends (replied stop)
    else retain w policy now w.records
