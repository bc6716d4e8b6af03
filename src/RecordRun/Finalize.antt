-- ===== src/RecordRun/Finalize.antt =====
-- finalize of internal/controller/record_controller.go, with the deletions it makes.
use backup_restore.Prelude.{
  String, ◌&&◌, not, List, [], ◌∷◌, ◌++◌, map, some, is_empty, str_eq, get_text, if◌then◌else◌,
}
use backup_restore.Prelude.Int.{pos}
use backup_restore.Api.{BackupRecord, RecordPhase, SnapshotResult, Time}
use backup_restore.Errors.{other_error, Io, done, failed}
use backup_restore.Checksum.{Bytes, codes}
use backup_restore.Backup.{stop, requeue_after, contains_string, remove_string}
use backup_restore.Webhook.Defaults.{minute}
use backup_restore.Webhook.Record.{annotation_delete_mode, is_delete_mode}
use backup_restore.RecordRun.Verify.{
  RecordWorld, RecordReply, replied, gave_error, is_protected, path_of,
}

abbrev pub record_finalizer : String
record_finalizer = "protection.platform.io/backup-record-assets"

abbrev pub annotation_force_delete : String
annotation_force_delete = "protection.platform.io/force-delete"

-- A call that deletes, and may fail.
pub data Deletion : Type 0 where
  file_deletion : Bytes → Deletion
  snapshot_deletion : SnapshotResult → Deletion

pub record RecordOutcome : Type 0 where
  pub stored : BackupRecord
  pub reply : RecordReply
  pub deletions : List Deletion

abbrev pub plainly : BackupRecord → RecordReply → RecordOutcome
plainly r reply = record { stored = r; reply = reply; deletions = [] }

-- The files of a record in the order of their deletion, and the directory.
abbrev pub record_files : List String
record_files =
    ".done" ∷ "sha256sum.txt" ∷ "resources.tar.gz" ∷ "metadata.json" ∷ "index.json"
    ∷ "snapshots.json" ∷ []

abbrev pub deletion_paths : BackupRecord → List Bytes
deletion_paths r =
    map (λ name. path_of r (codes name)) record_files ++ codes r.spec.backup_path ∷ []

-- A deletion, and what comes after it unless it fails.
abbrev pub then_delete : Deletion → Io (Unit {0}) → RecordOutcome → BackupRecord → RecordOutcome
then_delete d (done _) rest r = record rest { deletions = d ∷ rest.deletions }
then_delete d (failed e) rest r = record { stored = r; reply = gave_error e; deletions = d ∷ [] }

unfoldable pub delete_files :
    (Bytes → Io (Unit {0})) → List Bytes → BackupRecord → RecordOutcome → RecordOutcome
delete_files delete [] r rest = rest
delete_files delete (path ∷ paths) r rest =
    then_delete (file_deletion path) (delete path) (delete_files delete paths r rest) r

unfoldable pub delete_snapshots :
    (SnapshotResult → Io (Unit {0}))
    → List SnapshotResult
    → BackupRecord
    → RecordOutcome
    → RecordOutcome
delete_snapshots delete [] r rest = rest
delete_snapshots delete (s ∷ snapshots) r rest =
    then_delete (snapshot_deletion s) (delete s) (delete_snapshots delete snapshots r rest) r

unfoldable pub release : BackupRecord → RecordOutcome
unfolding remove_string
release r =
    plainly
      (record r {
        meta = record (r.meta) { finalizers = remove_string r.meta.finalizers record_finalizer };
      })
      (replied stop)

unfoldable pub note_deleting : BackupRecord → String → Time → BackupRecord
note_deleting r mode now = record r {
  status = record (r.status) {
    phase = RecordPhase.deleting;
    deletion = record (r.status.deletion) { mode = mode; started_at = some now };
  };
}

abbrev pub delete_mode_of : BackupRecord → String
delete_mode_of r =
    if is_empty (get_text annotation_delete_mode r.meta.annotations)
    then "RecordOnly"
    else get_text annotation_delete_mode r.meta.annotations

-- The files, where the repository can be reached, and then the snapshots.
abbrev pub with_repository :
    RecordWorld → BackupRecord → Io (Unit {0}) → RecordOutcome → RecordOutcome
unfolding delete_files
with_repository w r (failed e) rest = plainly r (gave_error e)
with_repository w r (done _) rest = delete_files w.delete_file (deletion_paths r) r rest

unfoldable pub delete_assets : RecordWorld → BackupRecord → String → RecordOutcome
unfolding delete_files delete_snapshots release
delete_assets w r mode =
    let rest =
      if str_eq mode "RepositoryDataAndSnapshots"
      then delete_snapshots w.delete_snapshot r.spec.snapshots r (release r)
      else release r in
    if not (str_eq mode "RecordOnly") then with_repository w r w.repository rest else rest

unfoldable pub finalize : RecordWorld → BackupRecord → Time → RecordOutcome
unfolding delete_assets note_deleting is_delete_mode get_text
finalize w r now =
    if not (contains_string r.meta.finalizers record_finalizer)
    then plainly r (replied stop)
    else if is_protected r
        && not (str_eq (get_text annotation_force_delete r.meta.annotations) "true")
    then plainly r (replied (requeue_after (pos minute)))
    else if not (is_delete_mode (delete_mode_of r))
    then plainly r (gave_error other_error)
    else delete_assets w (note_deleting r (delete_mode_of r) now) (delete_mode_of r)
