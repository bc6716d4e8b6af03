-- ===== src/RestoreLaws/Quiet.antt =====
-- What each stage of a restore makes of its task (internal/controller/restore_controller.go).
use backup_restore.Prelude.{
  ◌∷◌, ℕ, String, ◌≡◌, refl, ◌⊎◌, inl, inr, not, List, [], Option, none, some, arith, Bool-cases,
  if-both, ltb,
}
use backup_restore.Prelude.Int.{◌+ℤ◌, pos}
use backup_restore.Api.{RestorePhase, RestoreTask, BackupRecord, Time}
use backup_restore.Errors.{Io, done, failed}
use backup_restore.Encryption.{StreamError, decrypt}
use backup_restore.Checksum.{verify_sum, codes}
use backup_restore.Restore.{PlanItem, IndexEntry, build_plan}
use backup_restore.RestoreRun.{
  note_calls, note_restore, Call, count_restore, RestoreStep, check_items, has_kind, apply_items,
  tally_of, note_verified, moved, erred, validate_backup, Downloads, after_extract, extract_plain,
  after_record, after_write, after_index, is_other_hash, decrypt_archive, open_archive, download,
  Planning, generate_plan, note_plan, Prechecked, counted, check_failed, after_check, note_precheck,
  precheck, Target, Answers, after_loop, end_stage, apply_stage, Loop, Verified, all_bound,
  not_bound, verify_failed, verify_items, after_verify, verify_restore, Present, complete,
  restore_transition,
}

abbrev pub IsEnd : RestorePhase → Type 0
IsEnd q = (q ≡ RestorePhase.completed) ⊎ (q ≡ RestorePhase.partially_failed)

-- What no call of the reconciler changes.
abbrev pub Keeps : RestoreTask → RestoreTask → Type 0
Keeps before after =
    (after.spec ≡ before.spec) × (after.meta.deletion_timestamp ≡ before.meta.deletion_timestamp)

-- A stage that calls nothing, and may move the task to a phase.
abbrev pub IsQuiet : RestoreTask → RestorePhase → RestoreStep → Type 0
IsQuiet before q (moved task reply calls) =
    (task.status.phase ≡ q) × Keeps before task × (calls ≡ [])
IsQuiet before q (erred task errors e calls) = Keeps before task × (calls ≡ [])

pub validate_backup-IsQuiet :
    (io : Io BackupRecord) (task : RestoreTask) (now : Time)
    → IsQuiet task RestorePhase.validating_backup (validate_backup io task now)
unfolding validate_backup restore_transition
validate_backup-IsQuiet (failed e) task now = ((refl, refl), refl)
validate_backup-IsQuiet (done r) task now = ground arith

after_extract-IsQuiet :
    (io : Io (Unit {0})) (task : RestoreTask) (now : Time)
    → IsQuiet task RestorePhase.downloading (after_extract io task now)
unfolding restore_transition
after_extract-IsQuiet (failed e) task now = ((refl, refl), refl)
after_extract-IsQuiet (done _) task now = (refl, (refl, refl), refl)

extract_plain-IsQuiet :
    (d : Downloads) (w : List ℕ × Option StreamError) (task : RestoreTask) (now : Time)
    → IsQuiet task RestorePhase.downloading (extract_plain d w task now)
unfolding restore_transition
extract_plain-IsQuiet d (plain, some e) task now = ((refl, refl), refl)
extract_plain-IsQuiet d (plain, none) task now = after_extract-IsQuiet (d.extracted plain) task now

decrypt_archive-IsQuiet :
    (d : Downloads) (io : Io (List ℕ)) (bytes : List ℕ) (task : RestoreTask) (now : Time)
    → IsQuiet task RestorePhase.downloading (decrypt_archive d io bytes task now)
unfolding decrypt_archive
decrypt_archive-IsQuiet d (failed e) bytes task now = ((refl, refl), refl)
decrypt_archive-IsQuiet d (done key) bytes task now =
    extract_plain-IsQuiet d (decrypt d.new_gcm key bytes) task now

open_archive-IsQuiet :
    (d : Downloads) (r : BackupRecord) (bytes : List ℕ) (task : RestoreTask) (now : Time)
    → IsQuiet task RestorePhase.downloading (open_archive d r bytes task now)
unfolding open_archive
open_archive-IsQuiet d r bytes task now =
    let P = IsQuiet task RestorePhase.downloading in
    if-both P (not (verify_sum d.sum bytes (codes r.spec.checksum))) _ _ (λ b. ((refl, refl), refl))
      (λ b.
        if-both P r.spec.encryption.enabled _ _
          (λ e. decrypt_archive-IsQuiet d d.key bytes task now)
          (λ e. after_extract-IsQuiet (d.extracted bytes) task now))

after_record-IsQuiet :
    (d : Downloads) (r : Io BackupRecord) (io : Io (List ℕ)) (task : RestoreTask) (now : Time)
    → IsQuiet task RestorePhase.downloading (after_record d r io task now)
unfolding open_archive
after_record-IsQuiet d (failed e) io task now = ((refl, refl), refl)
after_record-IsQuiet d (done r) (failed e) task now = ((refl, refl), refl)
after_record-IsQuiet d (done r) (done bytes) task now = open_archive-IsQuiet d r bytes task now

pub download-IsQuiet :
    (d : Downloads) (task : RestoreTask) (now : Time)
    → IsQuiet task RestorePhase.downloading (download d task now)
unfolding download
download-IsQuiet d task now = after_record-IsQuiet d d.found_record d.archive task now

after_write-IsQuiet :
    (p : Planning) (io : Io (Unit {0})) (items : List PlanItem) (task : RestoreTask) (now : Time)
    → IsQuiet task RestorePhase.generating_plan (after_write io task (note_plan p items task now))
unfolding note_plan
after_write-IsQuiet p (failed e) items task now = ((refl, refl), refl)
after_write-IsQuiet p (done _) items task now = (refl, (refl, refl), refl)

after_index-IsQuiet :
    (p : Planning) (io : Io (List IndexEntry)) (task : RestoreTask) (now : Time)
    → IsQuiet task RestorePhase.generating_plan (after_index p io task now)
unfolding note_plan build_plan
after_index-IsQuiet p (failed e) task now = ((refl, refl), refl)
after_index-IsQuiet p (done index) task now =
    if-both (IsQuiet task RestorePhase.generating_plan)
      (is_other_hash task.spec.plan_hash (p.hash (build_plan p.visit index task.spec))) _ _
      (λ b. ((refl, refl), refl))
      (λ b. after_write-IsQuiet p p.written (build_plan p.visit index task.spec) task now)

pub generate_plan-IsQuiet :
    (p : Planning) (task : RestoreTask) (now : Time)
    → IsQuiet task RestorePhase.generating_plan (generate_plan p task now)
unfolding generate_plan
generate_plan-IsQuiet p task now = after_index-IsQuiet p p.index task now

pub after_check-IsQuiet :
    (task : RestoreTask) (c : Prechecked) (now : Time)
    → IsQuiet task RestorePhase.pre_checking (after_check task c now)
unfolding note_precheck
after_check-IsQuiet task (check_failed e) now = ((refl, refl), refl)
after_check-IsQuiet task (counted c) now = elim (Bool-cases (ltb 0 c.blocking)) [
  | inl b ↦ rw b ((refl, refl), refl)
  | inr b ↦ rw b (refl, (refl, refl), refl)
]

pub precheck-IsQuiet :
    (plan : Io (List PlanItem)) (targets : ℕ → Target) (task : RestoreTask) (now : Time)
    → IsQuiet task RestorePhase.pre_checking (precheck plan targets task now)
unfolding precheck
precheck-IsQuiet (failed e) targets task now = ((refl, refl), refl)
precheck-IsQuiet (done plan) targets task now =
    after_check-IsQuiet task
      (check_items task.spec.conflict_policy (has_kind "CustomResourceDefinition" plan) targets 0
        plan (record { conflicts = 0; blocking = 0; warnings = 0 }))
      now

-- A stage that applies objects ends in its own phase.
abbrev pub EndsIn : RestoreTask → RestorePhase → RestoreStep → Type 0
EndsIn before q (moved task reply calls) = (task.status.phase ≡ q) × Keeps before task
EndsIn before q (erred task errors e calls) = Keeps before task

pub after_loop-EndsIn :
    (task : RestoreTask) (stage : RestorePhase) (l : Loop) (now : Time)
    → EndsIn task stage (after_loop task stage l now)
unfolding end_stage
after_loop-EndsIn task stage l now = ground arith

pub apply_stage-EndsIn :
    (plan : Io (List PlanItem)) (r : Io (Unit {0})) (answers : ℕ → Answers) (stage : RestorePhase)
    (task : RestoreTask) (now : Time)
    → EndsIn task stage (apply_stage plan r answers stage task now)
unfolding apply_stage
apply_stage-EndsIn (failed e) r answers stage task now = (refl, refl)
apply_stage-EndsIn (done plan) (failed e) answers stage task now = (refl, refl)
apply_stage-EndsIn (done plan) (done _) answers stage task now =
    after_loop-EndsIn task stage
      (apply_items stage task.spec answers now 0 plan (tally_of task.status)) now

-- The record with one more restore, at the time.
abbrev pub with_restore : BackupRecord → Time → BackupRecord
with_restore r at = record r {
  status = record (r.status) {
    restore_count = r.status.restore_count +ℤ pos 1;
    last_restore_time = some at;
  };
}

-- A record counts one more restore, and nothing else is changed.
abbrev pub IsNote : List Call → Type 0
IsNote calls = (r : BackupRecord) × (at : Time) × (calls ≡ note_restore (with_restore r at) ∷ [])

abbrev pub IsNoted : List Call → Type 0
IsNoted calls = (calls ≡ []) ⊎ IsNote calls

pub note_calls-IsNoted : (io : Io BackupRecord) (now : Time) → IsNoted (note_calls io now)
unfolding count_restore
note_calls-IsNoted (failed e) now = inl refl
note_calls-IsNoted (done r) now = inr (r, now, refl)

-- Verification waits, fails, or ends the restore.
abbrev pub EndsOrWaits : RestoreTask → RestoreStep → Type 0
EndsOrWaits before (moved task reply calls) =
    (((task.status.phase ≡ before.status.phase) × (calls ≡ []))
      ⊎ (IsEnd task.status.phase × IsNoted calls))
    × Keeps before task
EndsOrWaits before (erred task errors e calls) = Keeps before task × (calls ≡ [])

pub complete-IsEnd :
    (task : RestoreTask) (reason message : String) (now : Time)
    → IsEnd (complete task reason message now).status.phase
unfolding complete
complete-IsEnd task reason message now = ground arith

pub after_verify-EndsOrWaits :
    (noted : Io BackupRecord) (task : RestoreTask) (v : Verified) (now : Time)
    → EndsOrWaits task (after_verify noted task v now)
unfolding complete note_verified count_restore
after_verify-EndsOrWaits noted task (verify_failed missing e) now = ((refl, refl), refl)
after_verify-EndsOrWaits noted task not_bound now = (inl (refl, refl), (refl, refl))
after_verify-EndsOrWaits noted task (all_bound missing bound) now = (
  inr (complete-IsEnd (note_verified task missing bound) "" "" now, note_calls-IsNoted noted now),
  (refl, refl),
)

pub verify_restore-EndsOrWaits :
    (plan : Io (List PlanItem)) (objects : ℕ → Present) (noted : Io BackupRecord)
    (task : RestoreTask) (now : Time)
    → EndsOrWaits task (verify_restore plan objects noted task now)
unfolding verify_restore
verify_restore-EndsOrWaits (failed e) objects noted task now = ((refl, refl), refl)
verify_restore-EndsOrWaits (done plan) objects noted task now =
    after_verify-EndsOrWaits noted task (verify_items objects now 0 plan [] 0) now
