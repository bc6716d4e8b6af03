-- ===== src/Backup/Stages.antt =====
-- The stages of internal/controller/backup_controller.go that follow the validation. What a stage
-- reads or does outside (workspace, cluster, repository) is an argument: the error of its first
-- failing call, or what it obtained.
use backup_restore.Prelude.{
  ℕ, suc, String, Bool, true, false, ◌&&◌, ◌||◌, not, List, [], ◌∷◌, Option, none, some, length,
  ltb, str_eq, if◌then◌else◌, ◌-◌, ◌*◌,
}
use backup_restore.Prelude.Int.{pos, eqb_ℤ}
use backup_restore.Api.{
  BackupPhase, BackupTask, BackupExecutionSpec, SnapshotResult, ObjectReference, RecordPhase,
  BackupRecordStatus, Time,
}
use backup_restore.Errors.{Failure, operator_error, Io, done, failed}
use backup_restore.Backup.Phases.{append_checkpoint}
use backup_restore.Backup.Status.{Reply, stop, requeue, requeue_after, transition}
use backup_restore.Webhook.Defaults.{second}

-- A stage ends with the changed task, or with an error and the task as it stands.
pub data StageResult : Type 0 where
  moved : BackupTask → Reply → StageResult
  erred : BackupTask → Failure → StageResult

abbrev pub moved_by : BackupTask × Reply → StageResult
moved_by (task, reply) = moved task reply

-- prepare: the workspace directory.
unfoldable pub prepare : Io (Unit {0}) → BackupTask → Time → StageResult
prepare (failed e) task now = erred task e
prepare (done _) task now =
    moved_by (transition task BackupPhase.preparing 10 "Prepared" "workspace prepared" now)

-- What collector.Collect counts.
pub record Collected : Type 0 where
  pub resource_count : ℕ
  pub pvc_count : ℕ
  pub warnings : ℕ

unfoldable pub collect : Io Collected → BackupTask → Time → StageResult
collect (failed e) task now = erred task e
collect (done c) task now =
    moved
      (record task {
        status = record (task.status) {
          phase = BackupPhase.collecting_resources;
          step = "CollectingResources";
          progress = record (task.status.progress) {
            percent = pos 35;
            total_resources = pos c.resource_count;
            processed_resources = pos c.resource_count;
            succeeded_resources = pos c.resource_count;
            total_pvcs = pos c.pvc_count;
          };
          warnings = pos c.warnings;
          checkpoints =
              append_checkpoint task.status.checkpoints "CollectingResources" "resources-collected"
                now;
        };
      })
      requeue

unfoldable pub pre_hooks : BackupTask → Time → StageResult
pre_hooks task now = moved_by (
    transition task BackupPhase.running_pre_hooks 40 "HooksSkipped"
      "CrashConsistent mode has no pre-hooks" now)

-- One selected claim of the index: its snapshot class could not be found, the claim's labels do
-- not match, or a snapshot was made or looked up, with the error or the readiness that came of it.
pub data ClaimOutcome : Type 0 where
  undetected : SnapshotResult → ClaimOutcome
  unmatched : ClaimOutcome
  snapshot_failed : SnapshotResult → ClaimOutcome
  snapshot_made : SnapshotResult → (ready : Bool) → ClaimOutcome

abbrev pub results_of : List ClaimOutcome → List SnapshotResult
results_of [] = []
results_of (undetected r ∷ cs) = r ∷ results_of cs
results_of (unmatched ∷ cs) = results_of cs
results_of (snapshot_failed r ∷ cs) = r ∷ results_of cs
results_of (snapshot_made r ready ∷ cs) = r ∷ results_of cs

abbrev pub failures_of : List ClaimOutcome → ℕ
failures_of [] = 0
failures_of (undetected r ∷ cs) = suc (failures_of cs)
failures_of (unmatched ∷ cs) = failures_of cs
failures_of (snapshot_failed r ∷ cs) = suc (failures_of cs)
failures_of (snapshot_made r ready ∷ cs) = failures_of cs

abbrev pub is_pending : List ClaimOutcome → Bool
is_pending [] = false
is_pending (snapshot_made r ready ∷ cs) = not ready || is_pending cs
is_pending (_ ∷ cs) = is_pending cs

unfoldable pub note_snapshots : List ClaimOutcome → BackupTask → BackupTask
note_snapshots claims task = record task {
  status = record (task.status) {
    snapshots = results_of claims;
    progress = record (task.status.progress) {
      processed_pvcs = pos (length (results_of claims));
      total_pvcs = pos (length (results_of claims));
      failed_snapshots = pos (failures_of claims);
      succeeded_snapshots = pos (length (results_of claims) - failures_of claims);
    };
  };
}

-- FailFast, or a backup that may not be partial, turns a failed snapshot into an error.
abbrev pub must_be_whole : Option BackupExecutionSpec → Bool
must_be_whole none = false
must_be_whole (some spec) =
    str_eq spec.selection.pvc.failure_policy "FailFast" || not spec.allow_partial_record

abbrev pub takes_snapshots : BackupTask → Bool
takes_snapshots task = elim (task.spec.backup_spec) [
  | none ↦ false
  | some spec ↦ spec.selection.pvc.enabled && not (eqb_ℤ task.status.progress.total_pvcs (pos 0))
]

unfoldable pub settle_snapshots : List ClaimOutcome → BackupTask → Time → StageResult
unfolding note_snapshots
settle_snapshots claims task now =
    let noted = note_snapshots claims task in
    if is_pending claims
    then moved noted (requeue_after (pos (5 * second)))
    else if ltb 0 (failures_of claims) && must_be_whole task.spec.backup_spec
    then erred noted (operator_error "BR-SNAPSHOT-CREATE-002" false)
    else moved_by (
        transition noted BackupPhase.creating_snapshots 60 "SnapshotsProcessed"
          "snapshot stage completed" now)

unfoldable pub create_snapshots : Io (List ClaimOutcome) → BackupTask → Time → StageResult
unfolding settle_snapshots
create_snapshots io task now =
    let skipped = moved_by (
      transition task BackupPhase.creating_snapshots 55 "SnapshotsSkipped"
        "PVC snapshots are disabled or no PVC was selected" now) in
    if not (takes_snapshots task)
    then skipped
    else elim io [ failed e ↦ erred task e | done claims ↦ settle_snapshots claims task now ]

-- The archive, sealed if the repository is encrypted: where it lies, its checksum and its size.
pub record Archive : Type 0 where
  pub path : String
  pub checksum : String
  pub size : ℕ

unfoldable pub package_backup : Io Archive → BackupTask → Time → StageResult
package_backup (failed e) task now = erred task e
package_backup (done a) task now =
    moved
      (record task {
        status = record (task.status) {
          phase = BackupPhase.packaging;
          step = "Packaging";
          archive_path = a.path;
          archive_checksum = a.checksum;
          backup_bytes = pos a.size;
          checkpoints = append_checkpoint task.status.checkpoints "Packaging" a.checksum now;
          progress = record (task.status.progress) {
            percent = pos 70;
            bytes_processed = pos a.size;
          };
        };
      })
      requeue

unfoldable pub upload : Io (Unit {0}) → BackupTask → Time → StageResult
upload (failed e) task now = erred task e
upload (done _) task now =
    moved
      (record task {
        status = record (task.status) {
          phase = BackupPhase.uploading;
          step = "Uploading";
          checkpoints =
              append_checkpoint task.status.checkpoints "Uploading" task.status.archive_checksum
                now;
          progress = record (task.status.progress) {
            percent = pos 85;
            bytes_uploaded = task.status.backup_bytes;
          };
        };
      })
      requeue

unfoldable pub verify : Io (Unit {0}) → BackupTask → Time → StageResult
verify (failed e) task now = erred task e
verify (done _) task now =
    moved
      (record task {
        status = record (task.status) {
          phase = BackupPhase.verifying;
          step = "Verifying";
          checkpoints =
              append_checkpoint task.status.checkpoints "Verifying" task.status.archive_checksum
                now;
          progress = record (task.status.progress) { percent = pos 95 };
        };
      })
      requeue

-- The record that was found or created.
unfoldable pub generate_record : Io ObjectReference → BackupTask → Time → StageResult
generate_record (failed e) task now = erred task e
generate_record (done ref) task now =
    moved
      (record task {
        status = record (task.status) {
          phase = BackupPhase.generating_record;
          step = "GeneratingRecord";
          record_ref = some ref;
          checkpoints = append_checkpoint task.status.checkpoints "GeneratingRecord" ref.name now;
        };
      })
      (requeue_after (pos (2 * second)))

finish : BackupTask → BackupPhase → String → String → Time → StageResult
finish task phase reason message now =
    moved
      (record task {
        status = record (task.status) {
          phase = phase;
          completed_at = some now;
          reason = reason;
          message = message;
          progress = record (task.status.progress) { percent = pos 100 };
        };
      })
      stop

settle_record : RecordPhase → BackupRecordStatus → BackupTask → Time → StageResult
unfolding finish
settle_record RecordPhase.available r task now =
    finish task BackupPhase.completed "BackupCompleted"
      "backup and independent record verification completed" now
settle_record RecordPhase.partially_available r task now =
    finish task BackupPhase.partially_failed "PartialBackup"
      "record is restorable but has partial failures" now
settle_record RecordPhase.broken r task now =
    erred task (operator_error "BR-RECORD-BROKEN-001" false)
settle_record RecordPhase.snapshot_missing r task now =
    if r.restorable
    then finish task BackupPhase.partially_failed "SnapshotMissing"
        "resource package is valid but one or more snapshots are missing" now
    else erred task (operator_error "BR-RECORD-BROKEN-001" false)
settle_record _ r task now = moved task (requeue_after (pos (5 * second)))

unfoldable pub wait_for_record : Io BackupRecordStatus → BackupTask → Time → StageResult
unfolding settle_record
wait_for_record io task now = elim (task.status.record_ref) [
  | none ↦ erred task (operator_error "BR-INTERNAL-001" true)
  | some ref ↦ elim io [ failed e ↦ erred task e | done r ↦ settle_record r.phase r task now ]
]
