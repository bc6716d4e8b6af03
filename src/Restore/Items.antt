-- ===== src/Restore/Items.antt =====
-- The order of a restore plan, and what it leaves out (internal/restore/plan.go).
use backup_restore.Prelude.{
  ℕ, ◌≤◌, ◌≡◌, ◌⊎◌, inl, inr, refl, String, true, false, List, [], ◌∷◌, ◌++◌, arith, All,
  All-append, Bool-cases, is_empty, str_eq, contains,
}
use backup_restore.Prelude.Sort.{sort_by-All, IsAscending, sort_by-IsAscending}
use backup_restore.Api.{RestoreTaskSpec}
use backup_restore.Webhook.Selection.{is_nil}
use backup_restore.Restore.{
  IndexEntry, PlanItem, build_plan, all_items, plan_items, plan_item, is_left_out, matches_set,
  synthetic_items, namespace_names, namespace_targets, item_before, restore_order,
}

abbrev pub order_of : PlanItem → ℕ
order_of item = item.order

order_le : (a b : PlanItem) → item_before a b ≡ true → order_of a ≤ order_of b
unfolding item_before
order_le a b h = ground arith

order_ge : (a b : PlanItem) → item_before a b ≡ false → order_of b ≤ order_of a
unfolding item_before
order_ge a b h = ground arith

-- The place of its kind: namespaces come first.
abbrev pub IsPlaced : PlanItem → Type 0
IsPlaced item = item.order ≡ restore_order item.kind

-- A namespace that was added, or an item of the index that the selection asks for: its resource
-- is included and not excluded, a claim only if volumes are restored with their data, and an
-- object of the cluster only if these are included.
abbrev pub IsWanted : RestoreTaskSpec → PlanItem → Type 0
IsWanted spec item =
    (item.validation_result ≡ "Synthetic")
    ⊎ ((matches_set spec.resource_selection.exclude item.source_gvr ≡ false)
        × ((is_nil spec.resource_selection.include ≡ true)
            ⊎ (matches_set spec.resource_selection.include item.source_gvr ≡ true))
        × ((str_eq item.kind "PersistentVolumeClaim" ≡ false)
            ⊎ ((spec.restore_pvc ≡ true) × (spec.metadata_only ≡ false)))
        × ((is_empty item.source_namespace ≡ false)
            ⊎ (str_eq item.kind "Namespace" ≡ true)
            ⊎ (spec.resource_selection.include_cluster_resources ≡ true)))

abbrev IsGood : RestoreTaskSpec → PlanItem → Type 0
IsGood spec item = IsPlaced item × IsWanted spec item

plan_item-IsGood :
    (spec : RestoreTaskSpec) (entry : IndexEntry)
    → is_left_out spec entry ≡ false
    → IsGood spec (plan_item spec entry)
unfolding is_left_out plan_item
plan_item-IsGood spec entry h = (refl, inr (ground arith, ground arith, ground arith, ground arith))

plan_items-IsGood :
    (spec : RestoreTaskSpec) (entries : List IndexEntry)
    → All (IsGood spec) (plan_items spec entries)
unfolding plan_items
plan_items-IsGood spec [] = tt
plan_items-IsGood spec (entry ∷ entries) = elim (Bool-cases (is_left_out spec entry)) [
  | inl b ↦ rw b (plan_items-IsGood spec entries)
  | inr b ↦ rw b (plan_item-IsGood spec entry b, plan_items-IsGood spec entries)
]

synthetic_items-IsGood :
    (spec : RestoreTaskSpec) (existing : List String) (targets : List (String × String))
    → All (IsGood spec) (synthetic_items existing targets)
unfolding synthetic_items
synthetic_items-IsGood spec existing [] = tt
synthetic_items-IsGood spec existing ((source, target) ∷ targets) =
    elim (Bool-cases (contains existing target)) [
      | inl b ↦ rw b (synthetic_items-IsGood spec existing targets)
      | inr b ↦ rw b ((refl, inl refl), synthetic_items-IsGood spec existing targets)
    ]

-- The items of a plan ascend in the order of their kinds, which puts namespaces first; and each is
-- a namespace that was added or is wanted by the selection of the task.
pub build_plan-IsAscending :
    (visit : List (String × String) → List (String × String)) (entries : List IndexEntry)
    (spec : RestoreTaskSpec)
    → IsAscending order_of (build_plan visit entries spec)
      × All (λ item. IsPlaced item × IsWanted spec item) (build_plan visit entries spec)
unfolding build_plan all_items
build_plan-IsAscending visit entries spec =
    let items = plan_items spec entries in
    let targets = visit (namespace_targets spec.namespace_mapping [] entries) in
    (
      sort_by-IsAscending order_of item_before order_le order_ge
          (items ++ synthetic_items (namespace_names items) targets),
      sort_by-All item_before (IsGood spec) _ (
          All-append (IsGood spec) items (synthetic_items (namespace_names items) targets)
            (plan_items-IsGood spec entries)
            (synthetic_items-IsGood spec (namespace_names items) targets)),
    )
