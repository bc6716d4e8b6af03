-- ===== src/RecordRun/Reconcile.antt =====
-- Reconcile of internal/controller/record_controller.go. A Get, a Patch and a Delete succeed.
use backup_restore.Prelude.{
  String, Bool, false, ◌&&◌, not, [], ◌∷◌, ◌++◌, Option, none, some, is_empty, str_eq, insert,
  if◌then◌else◌,
}
use backup_restore.Prelude.Int.{pos, ltb_ℤ}
use backup_restore.Api.{BackupRecord, RecordPhase, Time}
use backup_restore.Backup.{stop, requeue_after, contains_string}
use backup_restore.Webhook.Defaults.{hour}
use backup_restore.Webhook.Repository.{is_set}
use backup_restore.Webhook.Task.{is_one_time}
use backup_restore.Webhook.Record.{annotation_delete_mode, annotation_delete_confirmed}
use backup_restore.RecordRun.Verify.{RecordWorld, RecordReply, replied, is_protected, verify_record}
use backup_restore.RecordRun.Finalize.{RecordOutcome, plainly, record_finalizer, finalize}

unfoldable pub is_past : Option Time → Time → Bool
is_past none now = false
is_past (some deadline) now = ltb_ℤ deadline now

unfoldable pub ensure_finalizer : BackupRecord → BackupRecord
ensure_finalizer r = if contains_string r.meta.finalizers record_finalizer then r else record r {
  meta = record (r.meta) { finalizers = r.meta.finalizers ++ record_finalizer ∷ [] };
}

abbrev pub expiry_mode : BackupRecord → String
expiry_mode r =
    if r.spec.backup_spec.retention.delete_snapshots
    then "RepositoryDataAndSnapshots"
    else "RepositoryData"

-- The annotations that a deletion needs, and the Delete, which sets the timestamp.
unfoldable pub delete_expired : BackupRecord → Time → BackupRecord
unfolding insert
delete_expired r now = record r {
  meta = record (r.meta) {
    annotations =
        insert annotation_delete_confirmed "true"
          (insert annotation_delete_mode (expiry_mode r) r.meta.annotations);
    deletion_timestamp = some now;
  };
}

unfoldable pub mark_expired : BackupRecord → BackupRecord
mark_expired r = record r {
  status = record (r.status) {
    observed_generation = r.meta.generation;
    phase = RecordPhase.expired;
    restorable = false;
    protected = is_protected r;
    reason = "RetentionExpired";
    message = "backup record exceeded its retention deadline";
  };
}

abbrev pub of_pair : BackupRecord × RecordReply → RecordOutcome
of_pair (r, reply) = plainly r reply

-- The record has its finalizer.
unfoldable pub expire_or_verify : RecordWorld → BackupRecord → Time → RecordOutcome
unfolding is_past delete_expired mark_expired verify_record
expire_or_verify w r now =
    if is_past r.spec.expires_at now
    then if is_one_time r.spec.source_type && not (is_protected r)
      then plainly (delete_expired r now) (replied stop)
      else plainly (mark_expired r) (replied (requeue_after (pos hour)))
    else of_pair (verify_record w r now)

unfoldable pub reconcile_record : RecordWorld → BackupRecord → Time → RecordOutcome
unfolding ensure_finalizer expire_or_verify finalize
reconcile_record w r now =
    if not (is_empty w.cluster_ref) && not (str_eq r.spec.identity.cluster_ref w.cluster_ref)
    then plainly r (replied stop)
    else if is_set r.meta.deletion_timestamp
    then finalize w r now
    else expire_or_verify w (ensure_finalizer r) now
