-- ===== src/RestoreLaws/Stages.antt =====
-- The four stages of applyStage share the plan out (stageIncludes in
-- internal/controller/restore_controller.go, BuildPlan in internal/restore/plan.go).
use backup_restore.Prelude.{
  ℕ, ◌+◌, ◌≡◌, refl, sym, ◌∙◌, ap, inl, inr, String, Bool, true, false, List, [], ◌∷◌, All,
  All-append, Bool-cases, is_empty, str_eq, str_eq→eq, lookup, contains, if◌then◌else◌,
}
use backup_restore.Prelude.Sort.{sort_by-All}
use backup_restore.Api.{RestorePhase, RestoreTaskSpec}
use backup_restore.Webhook.Check.{valid}
use backup_restore.Webhook.Restore.{validate_mapping}
use backup_restore.Webhook.Mapping.{IsNamed, validate_mapping_iff}
use backup_restore.Restore.{
  IndexEntry, PlanItem, build_plan, all_items, plan_items, plan_item, is_left_out, mapped_name,
  name_or, synthetic_items, namespace_names, namespace_targets, item_before,
}
use backup_restore.RestoreRun.{stage_includes}

abbrev is_in : RestorePhase → PlanItem → ℕ
is_in stage item = if stage_includes stage item then 1 else 0

-- How many of the four stages take an object.
abbrev pub stages_of : PlanItem → ℕ
stages_of item =
    is_in RestorePhase.restoring_namespaces item
    + is_in RestorePhase.restoring_cluster_resources item
    + is_in RestorePhase.restoring_pvc item
    + is_in RestorePhase.restoring_namespaced_resources item

abbrev is_namespace : String → Bool
is_namespace kind = str_eq kind "Namespace"

abbrev is_claim : String → Bool
is_claim kind = str_eq kind "PersistentVolumeClaim"

-- As the API server has it: a namespace lies in no namespace, and a claim in one.
abbrev pub IsScoped : String → String → Type 0
IsScoped kind namespace =
    (is_namespace kind ≡ true → is_empty namespace ≡ true)
    × (is_claim kind ≡ true → is_empty namespace ≡ false)

one_stage : (item : PlanItem) → IsScoped item.kind item.target_namespace → stages_of item ≡ 1
unfolding stage_includes
one_stage item (n, c) = elim (Bool-cases (is_namespace item.kind)) [
  | inl b ↦ let claim = not_both item.kind b in rw (b, n b, claim) refl
  | inr b ↦ elim (Bool-cases (is_claim item.kind)) [
    | inl d ↦ rw (b, d, c d) refl
    | inr d ↦ elim (Bool-cases (is_empty item.target_namespace)) [
      | inl e ↦ rw (b, d, e) refl
      | inr e ↦ rw (b, d, e) refl
    ]
  ]
]
  where
    not_both : (kind : String) → is_namespace kind ≡ true → is_claim kind ≡ false
    not_both kind b = rw (str_eq→eq kind "Namespace" b) refl

-- A mapping of named namespaces keeps what is empty, and only that.
lookup-IsNamed :
    (m : List (String × String)) (name : String)
    → All IsNamed m
    → is_empty (name_or name (lookup name m)) ≡ is_empty name
unfolding lookup
lookup-IsNamed [] name h = refl
lookup-IsNamed ((source, target) ∷ m) name ((s, t), h) = elim (Bool-cases (str_eq source name)) [
  | inl b ↦ rw b (t ∙ sym s ∙ ap is_empty (str_eq→eq source name b))
  | inr b ↦ rw b (lookup-IsNamed m name h)
]

module _ (spec : RestoreTaskSpec) (named : All IsNamed spec.namespace_mapping) where
  plan_item-IsScoped :
      (entry : IndexEntry)
      → IsScoped entry.kind entry.namespace
      → IsScoped (plan_item spec entry).kind (plan_item spec entry).target_namespace
  unfolding plan_item mapped_name
  plan_item-IsScoped entry (n, c) =
      let same = lookup-IsNamed spec.namespace_mapping entry.namespace named in
      (λ b. same ∙ n b, λ b. same ∙ c b)

  plan_items-once :
      (entries : List IndexEntry)
      → All (λ entry. IsScoped entry.kind entry.namespace) entries
      → All (λ item. stages_of item ≡ 1) (plan_items spec entries)
  unfolding plan_items
  plan_items-once [] h = tt
  plan_items-once (entry ∷ entries) (e, h) = elim (Bool-cases (is_left_out spec entry)) [
    | inl b ↦ rw b (plan_items-once entries h)
    | inr b ↦
        rw b
          (one_stage (plan_item spec entry) (plan_item-IsScoped entry e), plan_items-once entries h)
  ]

synthetic_items-once :
    (existing : List String) (targets : List (String × String))
    → All (λ item. stages_of item ≡ 1) (synthetic_items existing targets)
unfolding synthetic_items stage_includes
synthetic_items-once existing [] = tt
synthetic_items-once existing ((source, target) ∷ targets) =
    elim (Bool-cases (contains existing target)) [
      | inl b ↦ rw b (synthetic_items-once existing targets)
      | inr b ↦ rw b (refl, synthetic_items-once existing targets)
    ]

-- Where the mapping is one that passes the check, and the namespaces of the index lie in no
-- namespace and its claims in one, every object of the plan is taken by exactly one of the four
-- stages that apply it: none is forgotten, and none is applied twice.
pub build_plan-once :
    (visit : List (String × String) → List (String × String)) (entries : List IndexEntry)
    (spec : RestoreTaskSpec)
    → validate_mapping spec.namespace_mapping ≡ valid
    → All (λ entry. IsScoped entry.kind entry.namespace) entries
    → All (λ item. stages_of item ≡ 1) (build_plan visit entries spec)
unfolding build_plan all_items
build_plan-once visit entries spec v h =
    let items = plan_items spec entries in
    let targets = visit (namespace_targets spec.namespace_mapping [] entries) in
    let named = ((validate_mapping_iff spec.namespace_mapping).0 v).0 in
    sort_by-All item_before (λ item. stages_of item ≡ 1) _
      (All-append (λ item. stages_of item ≡ 1) items
        (synthetic_items (namespace_names items) targets) (plan_items-once spec named entries h)
        (synthetic_items-once (namespace_names items) targets))
