-- ===== src/Examples/Restored.antt =====
-- The theorems on the reconciler of a RestoreTask at work.
use backup_restore.Prelude.{
  lookup, get_text, contains, ◌≡◌, refl, List, [], ◌∷◌, Bool, true, false, none, All,
}
use backup_restore.Prelude.Int.{pos, ◌+ℤ◌}
use backup_restore.Api.{RestorePhase, RestoreTask, RestoreProgress, RestoreConflictPolicy}
use backup_restore.Errors.{operator_error, other_error, done, failed}
use backup_restore.Webhook.Check.{valid}
use backup_restore.Webhook.Restore.{validate_mapping}
use backup_restore.Checksum.{codes}
use backup_restore.Restore.{PlanItem, build_plan, policy_for}
use backup_restore.RestoreRun.{
  RestoreWorld, Answers, Call, apply, apply_items, Tally, update_object, delete_object, found,
  not_found, mapped, present, may_recreate, recreate_supported,
}
use backup_restore.RestoreLaws.Permitted.{apply-deletes}
use backup_restore.RestoreLaws.Tally.{IsBalanced, IsAccounted, count_stage, apply_items-IsAccounted}
use backup_restore.RestoreLaws.Stages.{stages_of, build_plan-once}
use backup_restore.Examples.Samples.{meta_of, record_at}
use backup_restore.Examples.Restores.{restore_spec, conflict_policy, two_maps}
use backup_restore.Examples.Reconciled.{calls}

-- Answers of a cluster that has the object, where its update fails for a while.
abbrev answers : Answers
answers = record {
  loaded = done tt;
  transformed = done tt;
  mapped = done tt;
  existing = λ name. found;
  created = λ name. done tt;
  updated = failed (operator_error "BR-RESTORE-RESOURCE-001" true);
  deleted = found;
  gone = done tt;
  recreated = failed other_error;
}

abbrev recreating : RestoreConflictPolicy
recreating = record conflict_policy { allow_recreate = true; high_risk_confirmed = true }

abbrev settings : PlanItem
settings = record {
  order = 6;
  source_gvr = "configmaps";
  source_namespace = "shop";
  target_namespace = "bank";
  source_name = "settings";
  target_name = "settings";
  kind = "ConfigMap";
  api_version = "v1";
  file = "f.json";
  action = "Create";
  conflict = "";
  transformations = [];
  dependencies = [];
  validation_result = "";
}

overwrites : policy_for recreating settings.source_gvr ≡ "Overwrite"
unfolding policy_for get_text
overwrites = refl

recreates : may_recreate recreating settings ≡ true
unfolding recreate_supported contains
recreates = refl

apply-deletes_example :
    (later : List Call) × ((apply answers recreating settings).calls
      ≡ update_object "settings" ∷ delete_object "settings" ∷ later)
apply-deletes_example =
    apply-deletes answers recreating settings (operator_error "BR-RESTORE-RESOURCE-001" true)
      (record { loads = refl; transforms = refl; maps = refl; exists = refl }) overwrites recreates
      refl

abbrev no_progress : RestoreProgress
no_progress = record {
  total = pos 0;
  processed = pos 0;
  created = pos 0;
  updated = pos 0;
  skipped = pos 0;
  renamed = pos 0;
  failed = pos 0;
  total_pvcs = pos 0;
  bound_pvcs = pos 0;
  failed_pvcs = pos 0;
}

abbrev nothing_done : Tally
nothing_done = record { progress = no_progress; errors = []; residual = [] }

balanced : IsBalanced no_progress
unfolding ◌+ℤ◌
balanced = refl

apply_items-IsAccounted_example :
    IsAccounted (pos 0) (count_stage RestorePhase.restoring_namespaced_resources (settings ∷ [])) (
      apply_items RestorePhase.restoring_namespaced_resources restore_spec
        (λ place. answers)
        (pos 1)
        0
        (settings ∷ [])
        nothing_done)
apply_items-IsAccounted_example =
    apply_items-IsAccounted RestorePhase.restoring_namespaced_resources restore_spec
      (λ place. answers) (pos 1) 0 (settings ∷ []) nothing_done balanced

mapping_valid : validate_mapping restore_spec.namespace_mapping ≡ valid
unfolding validate_mapping lookup
mapping_valid = refl

build_plan-once_example :
    All (λ item. stages_of item ≡ 1) (build_plan (λ m. m) two_maps restore_spec)
build_plan-once_example =
    build_plan-once (λ m. m) two_maps restore_spec mapping_valid
      ((λ e. cc, λ e. refl), ((λ e. cc, λ e. refl), tt))

abbrev pub restore_task : RestorePhase → Bool → RestoreTask
restore_task phase dry_run = record {
  meta = meta_of "restore-1" (pos 0);
  spec = record restore_spec { dry_run = dry_run };
  status = record {
    observed_generation = pos 1;
    phase = phase;
    started_at = none;
    completed_at = none;
    reason = "";
    message = "";
    error_code = "";
    step = "";
    plan = record {
      reference = "";
      hash = "";
      total_objects = pos 0;
      total_pvcs = pos 0;
      conflict_count = pos 0;
      blocking_count = pos 0;
      warning_count = pos 0;
      generated_at = none;
    };
    progress = no_progress;
    last_heartbeat_time = none;
    checkpoints = [];
    errors = [];
    residual_resources = [];
  };
}

abbrev world : RestoreWorld
world = record {
  cluster_ref = "prod";
  found_record = done (record_at "record-1" 0 false);
  downloads = record {
    sum = λ bytes. codes "00";
    new_gcm = λ key. record {
      seal = λ nonce plain bound. plain;
      unseal = λ nonce sealed bound. none;
      overhead = 16;
    };
    found_record = done (record_at "record-1" 0 false);
    archive = done (7 ∷ []);
    key = failed other_error;
    extracted = λ bytes. done tt;
  };
  planning = record {
    index = done two_maps;
    visit = λ targets. targets;
    hash = λ items. "p";
    reference = "/workspace/plan.json";
    written = done tt;
  };
  plan = done (build_plan (λ m. m) two_maps restore_spec);
  targets = λ place. record { mapping = mapped; existing = not_found };
  record_read = done tt;
  answers = λ place. answers;
  objects = λ place. present "Bound";
}
