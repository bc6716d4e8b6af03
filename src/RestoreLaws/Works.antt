-- ===== src/RestoreLaws/Works.antt =====
-- Stages that find what they need (internal/controller/restore_controller.go).
use backup_restore.Prelude.{
  ℕ, ◌+◌, ◌≡◌, refl, sym, ◌∙◌, ap, subst, ◌⊎◌, inl, inr, String, Bool, true, false, List, [], ◌∷◌,
  Option, none, some, arith, if-both, eq→str_eq, is_empty, str_eq,
}
use backup_restore.Api.{
  RestorePhase, RestoreTask, RestoreTaskSpec, RestoreConflictPolicy, BackupRecord, Time,
  ErrorDetail,
}
use backup_restore.Errors.{Io, done, Failure, error_code, is_retryable}
use backup_restore.Checksum.{verify_sum, codes}
use backup_restore.Encryption.{decrypt}
use backup_restore.Webhook.Check.{valid}
use backup_restore.Webhook.Restore.{validate_mapping}
use backup_restore.Restore.{IndexEntry, PlanItem, build_plan}
use backup_restore.RestoreRun.{
  count_restore, RestoreStep, moved, erred, validate_backup, is_restorable, Downloads, download,
  open_archive, decrypt_archive, is_other_hash, generate_plan, note_plan, check_items, check_target,
  check_existing, note_conflict, after_loop, Call, verify_item, unreadable, verify_failed,
  not_bound, after_verify, Target, mapped, not_found, Counts, counted, Answers, Tally, Loop,
  after_error, Applied, apply, apply_items, end_stage, stage_includes, Present, present, absent,
  Verified, all_bound, verify_items, note_verified, complete, restore_transition, RestoreWorld,
  restore_start,
}
use backup_restore.RestoreLaws.Quiet.{IsEnd, Keeps, complete-IsEnd}

abbrev pub Opens : Downloads → BackupRecord → List ℕ → Type 0
Opens d r bytes =
    ((r.spec.encryption.enabled ≡ false) × (d.extracted bytes ≡ done tt))
    ⊎ ((r.spec.encryption.enabled ≡ true)
        × ((key : List ℕ) × (plain : List ℕ) × (d.key ≡ done key)
            × (decrypt d.new_gcm key bytes ≡ (plain, none))
            × (d.extracted plain ≡ done tt)))

-- The record is restorable, its archive intact and readable; the index is there and the plan is
-- the one that was asked for; no object of the plan is in the cluster yet; and afterwards every
-- claim of the plan that is there is bound. Of the answers to the calls that apply the objects,
-- nothing is asked.
pub record RestoreWorks (w : RestoreWorld) (spec : RestoreTaskSpec) : Type 0 where
  pub source : BackupRecord
  pub bytes : List ℕ
  pub index : List IndexEntry
  pub plan : List PlanItem
  pub found : w.found_record ≡ done source
  pub restorable : is_restorable source ≡ true
  pub same_cluster : str_eq spec.target_cluster_ref source.spec.source.cluster_ref ≡ true
  pub mapping_valid : validate_mapping spec.namespace_mapping ≡ valid
  pub source_read : w.downloads.found_record ≡ done source
  pub fetched : w.downloads.archive ≡ done bytes
  pub intact : verify_sum w.downloads.sum bytes (codes source.spec.checksum) ≡ true
  pub opens : Opens w.downloads source bytes
  pub indexed : w.planning.index ≡ done index
  pub written : w.planning.written ≡ done tt
  pub asked :
      (is_empty spec.plan_hash ≡ true)
      ⊎ (str_eq spec.plan_hash (w.planning.hash (build_plan w.planning.visit index spec)) ≡ true)
  pub planned : w.plan ≡ done plan
  pub known : (place : ℕ) → (w.targets place).mapping ≡ mapped
  pub free : (place : ℕ) → (w.targets place).existing ≡ not_found
  pub record_read : w.record_read ≡ done tt
  pub bound : (place : ℕ) → (w.objects place ≡ absent) ⊎ (w.objects place ≡ present "Bound")

abbrev pub Began : RestoreTask → Time → RestoreTask → Type 0
Began before now after =
    (after.status.started_at ≡ before.status.started_at) ⊎ (after.status.started_at ≡ some now)

abbrev pub MovesTo : RestoreTask → Time → RestorePhase → RestoreStep → Type 0
MovesTo before now q (moved after reply calls) =
    (after.status.phase ≡ q) × Keeps before after × Began before now after
MovesTo before now q (erred after errors e calls) = ⊥

pub transition_began :
    (phase : RestorePhase) (started : Option Time) (now : Time)
    → (restore_start phase started now ≡ started) ⊎ (restore_start phase started now ≡ some now)
transition_began phase none now = ground arith
transition_began phase (some s) now = ground arith

module _ (w : RestoreWorld) (task : RestoreTask) (now : Time) (ok : RestoreWorks w task.spec) where
  open ok use {
    source, bytes, index, plan, found, restorable, same_cluster, mapping_valid, source_read,
    fetched, intact, opens, indexed, written, asked, planned, known, free, record_read, bound,
  }

  pub validate_backup-MovesTo :
      MovesTo task now RestorePhase.validating_backup (validate_backup w.found_record task now)
  unfolding validate_backup restore_transition
  validate_backup-MovesTo =
      simp (found, restorable, same_cluster, mapping_valid)
        (
          refl,
          (refl, refl),
          transition_began RestorePhase.validating_backup task.status.started_at now,
        )

  pub download-MovesTo : MovesTo task now RestorePhase.downloading (download w.downloads task now)
  unfolding download open_archive decrypt_archive restore_transition
  download-MovesTo = elim opens [
    | inl (plainly, extracted) ↦
        simp (source_read, fetched, intact, plainly, extracted)
          (refl, (refl, refl), transition_began RestorePhase.downloading task.status.started_at now)
    | inr (sealed, (key, plain, has_key, decrypted, extracted)) ↦
        simp (source_read, fetched, intact, sealed, has_key, decrypted, extracted)
          (refl, (refl, refl), transition_began RestorePhase.downloading task.status.started_at now)
  ]

  hash_agrees :
      is_other_hash task.spec.plan_hash
        (w.planning.hash (build_plan w.planning.visit index task.spec))
      ≡ false
  hash_agrees = elim asked [ inl e ↦ ground arith | inr e ↦ ground arith ]

  pub generate_plan-MovesTo :
      MovesTo task now RestorePhase.generating_plan (generate_plan w.planning task now)
  unfolding generate_plan note_plan build_plan
  generate_plan-MovesTo = simp (indexed, written, hash_agrees) (refl, (refl, refl), inl refl)

pub check_items-free :
    (policy : RestoreConflictPolicy) (has_crd : Bool) (targets : ℕ → Target)
    → ((place : ℕ) → (targets place).mapping ≡ mapped)
    → ((place : ℕ) → (targets place).existing ≡ not_found)
    → (place : ℕ) (items : List PlanItem) (c : Counts)
    → check_items policy has_crd targets place items c ≡ counted c
unfolding check_items note_conflict
check_items-free policy has_crd targets known free place [] c = refl
check_items-free policy has_crd targets known free place (item ∷ items) c =
    let rest = check_items policy has_crd targets (place + 1) items in
    ap (λ m. check_target policy has_crd item c (targets place) m rest) (known place)
    ∙ ap (λ e. check_existing policy item c e rest) (free place)
    ∙ check_items-free policy has_crd targets known free (place + 1) items c

-- Under any policy but FailFast no error ends the loop over the plan.
after_error-none :
    (t : Tally) (now : Time) (item : PlanItem) (a : Applied) (rest : Tally → Loop)
    (o : Option Failure)
    → ((u : Tally) → (rest u).error ≡ none)
    → (after_error false t now item a rest o).error ≡ none
after_error-none t now item a rest none h = h _
after_error-none t now item a rest (some e) h = h _

pub apply_items-none :
    (stage : RestorePhase) (spec : RestoreTaskSpec) (answers : ℕ → Answers) (now : Time) (place : ℕ)
    (items : List PlanItem) (t : Tally)
    → str_eq spec.failure_policy "FailFast" ≡ false
    → (apply_items stage spec answers now place items t).error ≡ none
unfolding apply_items
apply_items-none stage spec answers now place [] t p = refl
apply_items-none stage spec answers now place (item ∷ items) t p =
    let a = apply (answers place) spec.conflict_policy item in
    let rest = apply_items stage spec answers now (place + 1) items in
    let later = λ (u : Tally). apply_items-none stage spec answers now (place + 1) items u p in
    if-both (λ (l : Loop). l.error ≡ none) (stage_includes stage item)
      (after_error (str_eq spec.failure_policy "FailFast") t now item a rest a.error) (rest t)
      (λ b.
        subst (λ f. (after_error f t now item a rest a.error).error ≡ none) (sym p)
          (after_error-none t now item a rest a.error later))
      (λ b. later t)

pub after_loop-MovesTo :
    (task : RestoreTask) (stage : RestorePhase) (t : Tally) (calls : List Call) (now : Time)
    (o : Option Failure)
    → o ≡ none
    → MovesTo task now stage
        (after_loop task stage (record { tally = t; calls = calls; error = o }) now)
unfolding end_stage
after_loop-MovesTo task stage t calls now none e = (refl, (refl, refl), inl refl)
after_loop-MovesTo task stage t calls now (some x) e = absurd (cc)

-- Verification ends where nothing is unreadable and no claim unbound.
abbrev pub IsDone : Verified → Type 0
IsDone (all_bound missing bound) = Unit
IsDone not_bound = ⊥
IsDone (verify_failed missing e) = ⊥

verify_item-IsDone :
    (item : PlanItem) (p : Present) (missing : List ErrorDetail) (bound : ℕ) (now : Time)
    (rest : List ErrorDetail → ℕ → Verified)
    → (p ≡ absent) ⊎ (p ≡ present "Bound")
    → ((m : List ErrorDetail) (b : ℕ) → IsDone (rest m b))
    → IsDone (verify_item item p missing bound now rest)
unfolding error_code is_retryable
verify_item-IsDone item absent missing bound now rest h k = k _ _
verify_item-IsDone item (unreadable e) missing bound now rest (inl h) k = absurd (cc)
verify_item-IsDone item (unreadable e) missing bound now rest (inr h) k = absurd (cc)
verify_item-IsDone item (present phase) missing bound now rest (inl h) k = absurd (cc)
verify_item-IsDone item (present phase) missing bound now rest (inr h) k =
    let is_bound : str_eq phase "Bound" ≡ true =
      eq→str_eq phase "Bound" (phase_of_present phase h) in
    if-both IsDone (str_eq item.kind "PersistentVolumeClaim") _ _
      (λ b. if-both IsDone (str_eq phase "Bound") _ _ (λ c. k _ _) (λ c. absurd (both is_bound c)))
      (λ b. k _ _)
  where
    both : {b : Bool} → b ≡ true → b ≡ false → ⊥
    both e f = cc

    phase_of_present : (s : String) → present s ≡ present "Bound" → s ≡ "Bound"
    phase_of_present s e = cc

pub verify_items-IsDone :
    (objects : ℕ → Present) (now : Time)
    → ((place : ℕ) → (objects place ≡ absent) ⊎ (objects place ≡ present "Bound"))
    → (place : ℕ) (items : List PlanItem) (missing : List ErrorDetail) (bound : ℕ)
    → IsDone (verify_items objects now place items missing bound)
unfolding verify_items
verify_items-IsDone objects now h place [] missing bound = tt
verify_items-IsDone objects now h place (item ∷ items) missing bound =
    verify_item-IsDone item (objects place) missing bound now
      (verify_items objects now (place + 1) items) (h place)
      (verify_items-IsDone objects now h (place + 1) items)

abbrev pub Ends : RestoreStep → Type 0
Ends (moved after reply calls) = IsEnd after.status.phase
Ends (erred after errors e calls) = ⊥

pub after_verify-Ends :
    (noted : Io BackupRecord) (task : RestoreTask) (v : Verified) (now : Time)
    → IsDone v
    → Ends (after_verify noted task v now)
unfolding complete note_verified count_restore
after_verify-Ends noted task (all_bound missing bound) now h =
    complete-IsEnd (note_verified task missing bound) "" "" now
after_verify-Ends noted task not_bound now h = absurd h
after_verify-Ends noted task (verify_failed missing e) now h = absurd h
