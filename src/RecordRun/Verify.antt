-- ===== src/RecordRun/Verify.antt =====
-- verify and markBroken of internal/controller/record_controller.go. The files of the repository and
-- the snapshots of the cluster are arguments; a status patch succeeds. Conditions, metrics and the
-- texts of error messages are left out.
use backup_restore.Prelude.{
  ℕ, ◌*◌, String, Bool, true, false, ◌&&◌, ◌||◌, not, List, [], ◌∷◌, ◌++◌, Option, none, some,
  length, is_empty, str_eq, str_append, get_text, leb, ◌==◌, if◌then◌else◌,
}
use mathlib.Core.List.{reverse}
use backup_restore.Prelude.Int.{pos, ltb_ℤ}
use backup_restore.Api.{BackupRecord, BackupRecordStatus, RecordPhase, SnapshotResult, Time}
use backup_restore.Errors.{Failure, Io, done, failed}
use backup_restore.Checksum.{
  Bytes, Entries, codes, equal_fold, verify_sum, parse_manifest, find_sum, sum_or_nothing,
}
use backup_restore.Backup.{Reply, requeue_after}
use backup_restore.Webhook.Defaults.{hour, minute}
use backup_restore.Webhook.Selection.{is_nil}
use backup_restore.Retention.{annotation_protected}
use backup_restore.RestoreRun.{Found, found, not_found, get_failed}

-- What a call finds outside.
pub record RecordWorld : Type 0 where
  pub cluster_ref : String
  -- The repository is read and its adapter made.
  pub repository : Io (Unit {0})
  -- A file of the repository, read to its end.
  pub file : Bytes → Io Bytes
  pub sum : Bytes → Bytes
  -- The order in which Go visits a map.
  pub visit : Entries → Entries
  pub snapshot : SnapshotResult → Found
  -- Deletions; what is missing already counts as deleted.
  pub delete_file : Bytes → Io (Unit {0})
  pub delete_snapshot : SnapshotResult → Io (Unit {0})

-- A result, or an error for which the queue tries again.
pub data RecordReply : Type 0 where
  replied : Reply → RecordReply
  gave_error : Failure → RecordReply

abbrev pub is_protected : BackupRecord → Bool
is_protected r = str_eq (get_text annotation_protected r.meta.annotations) "true"

abbrev pub path_of : BackupRecord → Bytes → Bytes
path_of r name = codes r.spec.backup_path ++ b'/' ∷ name

-- strings.TrimSpace of texts in ASCII.
abbrev pub is_space : ℕ → Bool
is_space c = (leb 9 c && leb c 13) || c == 32

unfoldable pub trim_start : Bytes → Bytes
trim_start [] = []
trim_start (c ∷ text) = let rest = trim_start text in if is_space c then rest else c ∷ text

unfoldable pub trim_space : Bytes → Bytes
unfolding trim_start
trim_space text = reverse (trim_start (reverse (trim_start text)))

unfoldable pub mark_broken : BackupRecord → BackupRecord
mark_broken r = record r {
  status = record (r.status) {
    phase = RecordPhase.broken;
    restorable = false;
    error_code = "BR-RECORD-BROKEN-001";
    reason = "IntegrityCheckFailed";
    message = "";
  };
}

abbrev pub broken : BackupRecord → BackupRecord × RecordReply
unfolding mark_broken
broken r = (mark_broken r, replied (requeue_after (pos hour)))

-- The status while the record is verified.
unfoldable pub begin_verify : BackupRecord → BackupRecord
unfolding get_text
begin_verify r = record r {
  status = record (r.status) {
    observed_generation = r.meta.generation;
    phase = RecordPhase.verifying;
    restorable = false;
    protected = is_protected r;
  };
}

unfoldable pub mark_unavailable : BackupRecord → BackupRecord
mark_unavailable r = record r {
  status = record (r.status) {
    phase = RecordPhase.repo_unavailable;
    reason = "RepositoryUnavailable";
    message = "";
    error_code = "BR-REPO-CONNECT-001";
  };
}

-- The loop over the files of the manifest.
abbrev pub sum_matches : RecordWorld → Bytes → Io Bytes → Bool
unfolding verify_sum
sum_matches w expected (failed e) = false
sum_matches w expected (done bytes) = verify_sum w.sum bytes expected

unfoldable pub files_match : RecordWorld → BackupRecord → Entries → Bool
unfolding verify_sum
files_match w r [] = true
files_match w r ((name, expected) ∷ entries) =
    sum_matches w expected (w.file (path_of r name)) && files_match w r entries

-- The loop over the snapshots: those that are missing, or the error of a Get.
pub data Missing : Type 0 where
  missing : List String → Missing
  not_read : Failure → Missing

abbrev pub is_skipped : SnapshotResult → Bool
is_skipped s = is_empty s.volume_snapshot_name || not s.ready_to_use

abbrev pub note_missing : SnapshotResult → Missing → Missing
note_missing s (missing names) =
    missing (str_append s.pvc_namespace (str_append "/" s.volume_snapshot_name) ∷ names)
note_missing s (not_read e) = not_read e

abbrev pub after_get : SnapshotResult → Found → Missing → Missing
after_get s found rest = rest
after_get s not_found rest = note_missing s rest
after_get s (get_failed e) rest = not_read e

unfoldable pub missing_of : (SnapshotResult → Found) → List SnapshotResult → Missing
missing_of snapshot [] = missing []
missing_of snapshot (s ∷ snapshots) =
    let rest = missing_of snapshot snapshots in
    if is_skipped s then rest else after_get s (snapshot s) rest

unfoldable pub join_comma : List String → String
join_comma [] = ""
join_comma (s ∷ []) = s
join_comma (s ∷ t ∷ texts) = str_append s (str_append ", " (join_comma (t ∷ texts)))

unfoldable pub settle_record : BackupRecord → List String → BackupRecordStatus
unfolding join_comma
settle_record r names =
    if not (is_nil names)
    then record (r.status) {
      phase = RecordPhase.snapshot_missing;
      reason = "SnapshotMissing";
      message = join_comma names;
      restorable = not (
          str_eq r.spec.content_completeness "Complete"
          && ltb_ℤ (pos 0) r.spec.inventory.pvc_count);
    }
    else if str_eq r.spec.content_completeness "Partial"
    then record (r.status) {
      phase = RecordPhase.partially_available;
      restorable = true;
      reason = "VerifiedPartial";
      message = "metadata package is valid; some backup items failed";
    }
    else record (r.status) {
      phase = RecordPhase.available;
      restorable = true;
      reason = "Verified";
      message = "backup package and snapshots are available";
    }

-- The snapshots have been looked for. An error is returned before the patch: the stored record
-- stays as it was.
abbrev pub after_missing :
    BackupRecord → BackupRecord → ℕ → Time → Missing → BackupRecord × RecordReply
unfolding settle_record
after_missing stored r files now (not_read e) = (stored, gave_error e)
after_missing stored r files now (missing names) =
    let seen = record r {
      status = record (r.status) {
        last_verified_at = some now;
        verified_files = pos files;
        missing_snapshots = names;
      };
    } in
    (record seen { status = settle_record seen names }, replied (requeue_after (pos (6 * hour))))

abbrev pub archive_name : Bytes
archive_name = codes "resources.tar.gz"

-- The manifest has been parsed.
abbrev pub after_manifest :
    RecordWorld → BackupRecord → BackupRecord → Time → Option Entries → BackupRecord × RecordReply
unfolding mark_broken equal_fold find_sum files_match missing_of settle_record
after_manifest w stored r now none = broken r
after_manifest w stored r now (some entries) =
    if not (equal_fold (sum_or_nothing (find_sum archive_name entries)) (codes r.spec.checksum))
    then broken r
    else if not (files_match w r (w.visit entries))
    then broken r
    else after_missing stored r (length (w.visit entries)) now
        (missing_of w.snapshot r.spec.snapshots)

abbrev pub after_manifest_file :
    RecordWorld → BackupRecord → BackupRecord → Time → Io Bytes → BackupRecord × RecordReply
unfolding mark_broken equal_fold find_sum files_match missing_of settle_record parse_manifest
after_manifest_file w stored r now (failed e) = broken r
after_manifest_file w stored r now (done text) = after_manifest w stored r now (parse_manifest text)

abbrev pub after_marker :
    RecordWorld → BackupRecord → BackupRecord → Time → Io Bytes → BackupRecord × RecordReply
unfolding mark_broken equal_fold find_sum files_match missing_of settle_record parse_manifest
    trim_space
after_marker w stored r now (failed e) = broken r
after_marker w stored r now (done text) =
    if not (equal_fold (trim_space text) (codes r.spec.checksum))
    then broken r
    else after_manifest_file w stored r now (w.file (path_of r (codes "sha256sum.txt")))

abbrev pub after_repository :
    RecordWorld → BackupRecord → BackupRecord → Time → Io (Unit {0}) → BackupRecord × RecordReply
unfolding mark_broken equal_fold find_sum files_match missing_of settle_record parse_manifest
    trim_space mark_unavailable
after_repository w stored r now (failed e) =
    (mark_unavailable r, replied (requeue_after (pos minute)))
after_repository w stored r now (done _) =
    after_marker w stored r now (w.file (path_of r (codes ".done")))

unfoldable pub verify_record : RecordWorld → BackupRecord → Time → BackupRecord × RecordReply
unfolding mark_broken equal_fold find_sum files_match missing_of settle_record parse_manifest
    trim_space mark_unavailable begin_verify
verify_record w r now = after_repository w r (begin_verify r) now w.repository
