-- ===== src/RestoreLaws/Moves.antt =====
-- The stages of a restore that finds what it needs, one after the other
-- (internal/controller/restore_controller.go).
use backup_restore.Prelude.{◌≡◌, refl, inl, Bool, true, false, [], arith, str_eq}
use backup_restore.Api.{RestorePhase, RestoreTask, RestoreTaskSpec, Time}
use backup_restore.RestoreRun.{
  RestoreWorld, run_restore_stage, apply_to, apply_stage, precheck, has_kind, note_precheck,
  apply_items, tally_of, verify_restore, verify_items, restore_transition,
}
use backup_restore.RestoreLaws.Phases.{restore_successor}
use backup_restore.RestoreLaws.Works.{
  RestoreWorks, MovesTo, Ends, validate_backup-MovesTo, download-MovesTo, generate_plan-MovesTo,
  check_items-free, apply_items-none, after_loop-MovesTo, transition_began, verify_items-IsDone,
  after_verify-Ends,
}

-- The phases from which a restore goes on to another one.
abbrev pub goes_on : RestorePhase → Bool
goes_on RestorePhase.pending = true
goes_on RestorePhase.validating_backup = true
goes_on RestorePhase.downloading = true
goes_on RestorePhase.generating_plan = true
goes_on RestorePhase.pre_checking = true
goes_on RestorePhase.restoring_namespaces = true
goes_on RestorePhase.restoring_cluster_resources = true
goes_on RestorePhase.restoring_pvc = true
goes_on RestorePhase.restoring_namespaced_resources = true
goes_on _ = false

-- No dry run, and no stop at the first error.
abbrev pub GoesThrough : RestoreTaskSpec → Type 0
GoesThrough spec = (spec.dry_run ≡ false) × (str_eq spec.failure_policy "FailFast" ≡ false)

module _ (w : RestoreWorld) (task : RestoreTask) (now : Time) (ok : RestoreWorks w task.spec)
    (through : GoesThrough task.spec) where
  open ok use {plan, planned, known, free, record_read, bound}

  precheck-MovesTo : MovesTo task now RestorePhase.pre_checking (precheck w.plan w.targets task now)
  unfolding precheck note_precheck
  precheck-MovesTo =
      simp
        (
          planned,
          check_items-free task.spec.conflict_policy (has_kind "CustomResourceDefinition" plan)
              w.targets known free 0 plan,
        )
        (refl, (refl, refl), inl refl)

  apply_to-MovesTo : (stage : RestorePhase) → MovesTo task now stage (apply_to w stage task now)
  unfolding apply_to apply_stage
  apply_to-MovesTo stage =
      let l = apply_items stage task.spec w.answers now 0 plan (tally_of task.status) in
      simp (planned, record_read)
        (after_loop-MovesTo task stage l.tally l.calls now l.error (
          apply_items-none stage task.spec w.answers now 0 plan (tally_of task.status) (through.1)))

  pub stage-MovesTo :
      (p : RestorePhase)
      → goes_on p ≡ true
      → MovesTo task now (restore_successor p) (run_restore_stage p w task now)
  unfolding run_restore_stage restore_transition
  stage-MovesTo RestorePhase.pending g = validate_backup-MovesTo w task now ok
  stage-MovesTo RestorePhase.validating_backup g = download-MovesTo w task now ok
  stage-MovesTo RestorePhase.downloading g = generate_plan-MovesTo w task now ok
  stage-MovesTo RestorePhase.generating_plan g = precheck-MovesTo
  stage-MovesTo RestorePhase.pre_checking g =
      simp (through.0) (apply_to-MovesTo RestorePhase.restoring_namespaces)
  stage-MovesTo RestorePhase.restoring_namespaces g =
      apply_to-MovesTo RestorePhase.restoring_cluster_resources
  stage-MovesTo RestorePhase.restoring_cluster_resources g =
      apply_to-MovesTo RestorePhase.restoring_pvc
  stage-MovesTo RestorePhase.restoring_pvc g =
      apply_to-MovesTo RestorePhase.restoring_namespaced_resources
  stage-MovesTo RestorePhase.restoring_namespaced_resources g =
      (refl, (refl, refl), transition_began RestorePhase.verifying task.status.started_at now)
  stage-MovesTo RestorePhase.unset g = absurd (cc)
  stage-MovesTo p g = absurd (ground arith)

  pub verifying-Ends : Ends (run_restore_stage RestorePhase.verifying w task now)
  unfolding run_restore_stage verify_restore
  verifying-Ends = simp planned (
      after_verify-Ends w.found_record task (verify_items w.objects now 0 plan [] 0) now
        (verify_items-IsDone w.objects now bound 0 plan [] 0))
