-- ===== src/RestoreRun/Stages.antt =====
-- The stages of internal/controller/restore_controller.go. What a stage finds outside is an
-- argument: a value, or the error of the first call that fails.
use backup_restore.Prelude.{
  ℕ, ◌+◌, String, Bool, true, false, ◌&&◌, ◌||◌, not, List, [], ◌∷◌, Option, none, some, length,
  is_empty, str_eq, if◌then◌else◌,
}
use backup_restore.Prelude.Int.{pos, ◌+ℤ◌}
use backup_restore.Api.{RestorePhase, RestoreTask, ErrorDetail, BackupRecord, RecordPhase, Time}
use backup_restore.Errors.{Failure, operator_error, Io, done, failed}
use backup_restore.Checksum.{verify_sum, codes}
use backup_restore.Encryption.{Aead, decrypt, StreamError}
use backup_restore.Backup.{Reply, requeue, append_checkpoint}
use backup_restore.Webhook.Restore.{validate_mapping}
use backup_restore.Webhook.Check.{Check, valid}
use backup_restore.Restore.{IndexEntry, PlanItem, build_plan}
use backup_restore.RestoreRun.Status.{restore_transition}
use backup_restore.RestoreRun.Apply.{Call}

-- The stored task with a reply, or the stored task, the errors in memory, and what fail is given;
-- with the calls that change the objects of the cluster.
pub data RestoreStep : Type 0 where
  moved : RestoreTask → Reply → List Call → RestoreStep
  erred : RestoreTask → List ErrorDetail → Failure → List Call → RestoreStep

abbrev pub moved_to : RestoreTask → RestorePhase → (reason message : String) → Time → RestoreStep
unfolding restore_transition
moved_to task phase reason message now =
    moved (restore_transition task phase reason message now) requeue []

abbrev pub rejected : RestoreTask → Failure → RestoreStep
rejected task e = erred task task.status.errors e []

abbrev pub precheck_error : Failure
precheck_error = operator_error "BR-RESTORE-PRECHECK-001" false

abbrev pub is_bad_phase : RecordPhase → Bool
is_bad_phase RecordPhase.broken = true
is_bad_phase RecordPhase.repo_unavailable = true
is_bad_phase _ = false

abbrev pub is_restorable : BackupRecord → Bool
is_restorable record_ = record_.status.restorable && not (is_bad_phase record_.status.phase)

abbrev pub is_problem : Check → Bool
is_problem valid = false
is_problem (Check.rejected p) = true

unfoldable pub validate_backup : Io BackupRecord → RestoreTask → Time → RestoreStep
unfolding validate_mapping restore_transition
validate_backup (failed e) task now = rejected task (operator_error "BR-RECORD-NOTFOUND-002" false)
validate_backup (done found_record) task now =
    if not (is_restorable found_record)
      || not (str_eq task.spec.target_cluster_ref found_record.spec.source.cluster_ref)
      || is_problem (validate_mapping task.spec.namespace_mapping)
    then rejected task precheck_error
    else moved_to task RestorePhase.validating_backup "BackupValidated"
        "backup record is independently verified and restorable" now

-- What download finds outside.
pub record Downloads : Type 0 where
  pub sum : List ℕ → List ℕ
  pub new_gcm : List ℕ → Aead
  -- The record, then its workspace, its repository and the archive.
  pub found_record : Io BackupRecord
  pub archive : Io (List ℕ)
  pub key : Io (List ℕ)
  pub extracted : List ℕ → Io (Unit {0})

abbrev pub after_extract : Io (Unit {0}) → RestoreTask → Time → RestoreStep
unfolding restore_transition
after_extract (failed e) task now = rejected task precheck_error
after_extract (done _) task now =
    moved_to task RestorePhase.downloading "Downloaded"
      "archive downloaded, verified, and safely extracted" now

abbrev pub extract_plain :
    Downloads → List ℕ × Option StreamError → RestoreTask → Time → RestoreStep
unfolding restore_transition
extract_plain d (plain, some e) task now = rejected task precheck_error
extract_plain d (plain, none) task now = after_extract (d.extracted plain) task now

unfoldable pub decrypt_archive : Downloads → Io (List ℕ) → List ℕ → RestoreTask → Time → RestoreStep
unfolding decrypt restore_transition
decrypt_archive d (failed e) bytes task now = rejected task precheck_error
decrypt_archive d (done key) bytes task now = extract_plain d (decrypt d.new_gcm key bytes) task now

unfoldable pub open_archive : Downloads → BackupRecord → List ℕ → RestoreTask → Time → RestoreStep
unfolding verify_sum decrypt_archive restore_transition
open_archive d found_record bytes task now =
    if not (verify_sum d.sum bytes (codes found_record.spec.checksum))
    then rejected task (operator_error "BR-RECORD-BROKEN-001" false)
    else if found_record.spec.encryption.enabled
    then decrypt_archive d d.key bytes task now
    else after_extract (d.extracted bytes) task now

abbrev pub after_record :
    Downloads → Io BackupRecord → Io (List ℕ) → RestoreTask → Time → RestoreStep
unfolding open_archive
after_record d (failed e) archive task now = rejected task e
after_record d (done found_record) (failed e) task now = rejected task e
after_record d (done found_record) (done bytes) task now =
    open_archive d found_record bytes task now

unfoldable pub download : Downloads → RestoreTask → Time → RestoreStep
unfolding open_archive
download d task now = after_record d d.found_record d.archive task now

-- What generatePlan finds outside: the index, and the writing of the plan.
pub record Planning : Type 0 where
  pub index : Io (List IndexEntry)
  pub visit : List (String × String) → List (String × String)
  pub hash : List PlanItem → String
  pub reference : String
  pub written : Io (Unit {0})

unfoldable pub count_kind : String → List PlanItem → ℕ
count_kind kind [] = 0
count_kind kind (item ∷ items) =
    let rest = count_kind kind items in if str_eq item.kind kind then rest + 1 else rest

unfoldable pub note_plan : Planning → List PlanItem → RestoreTask → Time → RestoreTask
unfolding count_kind append_checkpoint ◌+ℤ◌
note_plan p items task now =
    let claims = pos (count_kind "PersistentVolumeClaim" items) in
    record task {
      status = record (task.status) {
        phase = RestorePhase.generating_plan;
        step = "GeneratingPlan";
        plan = record {
          reference = p.reference;
          hash = p.hash items;
          total_objects = pos (length items);
          total_pvcs = claims;
          conflict_count = pos 0;
          blocking_count = pos 0;
          warning_count = pos 0;
          generated_at = some now;
        };
        checkpoints = append_checkpoint task.status.checkpoints "GeneratingPlan" (p.hash items) now;
        progress = record (task.status.progress) {
          total = pos (length items);
          total_pvcs = task.status.progress.total_pvcs +ℤ claims;
        };
      };
    }

abbrev pub after_write : Io (Unit {0}) → RestoreTask → RestoreTask → RestoreStep
after_write (failed e) task planned = rejected task e
after_write (done _) task planned = moved planned requeue []

abbrev pub is_other_hash : String → String → Bool
is_other_hash asked hash = not (is_empty asked) && not (str_eq asked hash)

abbrev pub after_index : Planning → Io (List IndexEntry) → RestoreTask → Time → RestoreStep
unfolding build_plan note_plan
after_index p (failed e) task now = rejected task precheck_error
after_index p (done index) task now =
    let items = build_plan p.visit index task.spec in
    if is_other_hash task.spec.plan_hash (p.hash items)
    then rejected task precheck_error
    else after_write p.written task (note_plan p items task now)

unfoldable pub generate_plan : Planning → RestoreTask → Time → RestoreStep
unfolding build_plan note_plan
generate_plan p task now = after_index p p.index task now
