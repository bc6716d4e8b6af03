-- ===== src/RestoreRun/Stage.antt =====
-- applyStage of internal/controller/restore_controller.go: the objects of one stage of the plan.
use backup_restore.Prelude.{
  ℕ, ◌+◌, Bool, false, ◌&&◌, not, List, [], ◌∷◌, ◌++◌, Option, none, some, is_empty, str_eq,
  str_append, if◌then◌else◌,
}
use backup_restore.Prelude.Int.{pos, ◌+ℤ◌}
use backup_restore.Api.{
  RestorePhase, RestoreTask, RestoreTaskSpec, RestoreTaskStatus, RestoreProgress, ErrorDetail,
  ResourceObjectRef, Time,
}
use backup_restore.Errors.{Failure, operator_error, is_retryable, error_code}
use backup_restore.Backup.{append_checkpoint, keep_last}
use backup_restore.PolicyRun.Name.{signed_decimal}
use backup_restore.Restore.{PlanItem}
use backup_restore.RestoreRun.Status.{restore_phase_text, error_detail}
use backup_restore.RestoreRun.Apply.{Answers, Call, ApplyResult, Applied, apply}

unfoldable pub stage_includes : RestorePhase → PlanItem → Bool
stage_includes RestorePhase.restoring_namespaces item = str_eq item.kind "Namespace"
stage_includes RestorePhase.restoring_cluster_resources item =
    is_empty item.target_namespace && not (str_eq item.kind "Namespace")
stage_includes RestorePhase.restoring_pvc item = str_eq item.kind "PersistentVolumeClaim"
stage_includes RestorePhase.restoring_namespaced_resources item =
    not (is_empty item.target_namespace) && not (str_eq item.kind "PersistentVolumeClaim")
stage_includes _ item = false

-- The parts of the status that the loop changes.
pub record Tally : Type 0 where
  pub progress : RestoreProgress
  pub errors : List ErrorDetail
  pub residual : List ResourceObjectRef

abbrev pub residual_of : PlanItem → ApplyResult → ResourceObjectRef
residual_of item result = record {
  group = "";
  version = "";
  resource = item.source_gvr;
  namespace = result.target_namespace;
  name = result.target_name;
}

-- An object that could not be applied. Its error is wrapped.
unfoldable pub note_error : Tally → Time → Tally
unfolding ◌+ℤ◌ error_code is_retryable
note_error t now = record t {
  progress = record (t.progress) {
    processed = t.progress.processed +ℤ pos 1;
    failed = t.progress.failed +ℤ pos 1;
  };
  errors = t.errors ++ error_detail (operator_error "BR-RESTORE-RESOURCE-004" false) now ∷ [];
}

-- The `switch` on the action of the result.
unfoldable pub note_action : Tally → PlanItem → ApplyResult → Tally
unfolding ◌+ℤ◌
note_action t item result =
    let seen = record (t.progress) { processed = t.progress.processed +ℤ pos 1 } in
    let left = t.residual ++ residual_of item result ∷ [] in
    if str_eq result.action "Create"
    then record t {
      progress = record seen { created = t.progress.created +ℤ pos 1 };
      residual = left;
    }
    else if str_eq result.action "Overwrite"
    then record t { progress = record seen { updated = t.progress.updated +ℤ pos 1 } }
    else if str_eq result.action "Recreate"
    then record t {
      progress = record seen { updated = t.progress.updated +ℤ pos 1 };
      residual = left;
    }
    else if str_eq result.action "Skip"
    then record t { progress = record seen { skipped = t.progress.skipped +ℤ pos 1 } }
    else if str_eq result.action "Rename"
    then record t {
      progress = record seen { renamed = t.progress.renamed +ℤ pos 1 };
      residual = left;
    }
    else record t { progress = seen }

-- What a loop over the plan ends with: the tally, the calls, and the error that ends it early.
pub record Loop : Type 0 where
  pub tally : Tally
  pub calls : List Call
  pub error : Option Failure

abbrev pub called : List Call → Loop → Loop
called calls l = record l { calls = calls ++ l.calls }

-- One object that has been applied, and the loop over the others from a tally on.
abbrev pub after_error :
    Bool → Tally → Time → PlanItem → Applied → (Tally → Loop) → Option Failure → Loop
after_error fail_fast t now item applied rest none =
    called applied.calls (rest (note_action t item applied.result))
after_error fail_fast t now item applied rest (some e) =
    if fail_fast
    then record { tally = note_error t now; calls = applied.calls; error = some e }
    else called applied.calls (rest (note_error t now))

abbrev pub after_apply : Bool → Tally → Time → PlanItem → Applied → (Tally → Loop) → Loop
after_apply fail_fast t now item applied rest =
    after_error fail_fast t now item applied rest applied.error

-- The answers are numbered by the place in the plan.
unfoldable pub apply_items :
    RestorePhase
    → RestoreTaskSpec
    → (answers : ℕ → Answers) → Time
    → ℕ
    → List PlanItem
    → Tally
    → Loop
unfolding stage_includes note_error note_action apply
apply_items stage spec answers now place [] t = record { tally = t; calls = []; error = none }
apply_items stage spec answers now place (item ∷ items) t =
    let rest = apply_items stage spec answers now (place + 1) items in
    if stage_includes stage item
    then after_apply (str_eq spec.failure_policy "FailFast") t now item
        (apply (answers place) spec.conflict_policy item) rest
    else rest t

abbrev pub tally_of : RestoreTaskStatus → Tally
tally_of status = record {
  progress = status.progress;
  errors = status.errors;
  residual = status.residual_resources;
}

abbrev pub with_tally : RestoreTask → Tally → RestoreTask
with_tally task t = record task {
  status = record (task.status) {
    progress = t.progress;
    errors = t.errors;
    residual_resources = t.residual;
  };
}

-- The end of a stage whose loop went through.
unfoldable pub end_stage : RestoreTask → RestorePhase → Tally → Time → RestoreTask
unfolding keep_last append_checkpoint restore_phase_text signed_decimal
end_stage task stage t now = record task {
  status = record (task.status) {
    progress = t.progress;
    errors = keep_last 50 t.errors;
    residual_resources = keep_last 200 t.residual;
    phase = stage;
    step = restore_phase_text stage;
    checkpoints =
        append_checkpoint task.status.checkpoints (restore_phase_text stage)
          (str_append "processed-" (signed_decimal t.progress.processed)) now;
  };
}
