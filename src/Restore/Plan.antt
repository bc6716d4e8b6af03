-- ===== src/Restore/Plan.antt =====
-- BuildPlan of internal/restore/plan.go. The time and the hash of a plan are left out. The order in
-- which Go visits a map is a parameter.
use text.Mathlib.Text.{is_lt}
use Prim.Native.String.{compare}
use backup_restore.Prelude.{
  ℕ, String, Bool, ◌||◌, ◌&&◌, not, List, [], ◌∷◌, ◌++◌, map, Option, none, some, ◌==◌, ltb,
  is_empty, str_eq, contains, lookup, insert, if◌then◌else◌,
}
use backup_restore.Prelude.Sort.{sort_by}
use backup_restore.Paths.{join_slash}
use backup_restore.Api.{RestoreTaskSpec}
use backup_restore.Webhook.Selection.{is_nil}
use backup_restore.Restore.Conflict.{before_dot}

-- internal/sanitizer: what an object refers to.
pub record Dependency : Type 0 where
  pub api_version : String
  pub kind : String
  pub namespace : String
  pub name : String

-- internal/collector/types.go.
pub record IndexEntry : Type 0 where
  pub gvr : String
  pub api_version : String
  pub kind : String
  pub namespace : String
  pub name : String
  pub source_uid : String
  pub file : String
  pub dependencies : List Dependency

pub record PlanItem : Type 0 where
  pub order : ℕ
  pub source_gvr : String
  pub source_namespace : String
  pub target_namespace : String
  pub source_name : String
  pub target_name : String
  pub kind : String
  pub api_version : String
  pub file : String
  pub action : String
  pub conflict : String
  pub transformations : List String
  pub dependencies : List String
  pub validation_result : String

abbrev order_table : List (String × ℕ)
order_table =
    ("Namespace", 10)
    ∷ ("CustomResourceDefinition", 20)
    ∷ ("StorageClass", 30)
    ∷ ("VolumeSnapshotClass", 30)
    ∷ ("PriorityClass", 30)
    ∷ ("ClusterRole", 30)
    ∷ ("ClusterRoleBinding", 30)
    ∷ ("ServiceAccount", 40)
    ∷ ("Secret", 50)
    ∷ ("ConfigMap", 60)
    ∷ ("Role", 70)
    ∷ ("RoleBinding", 80)
    ∷ ("PersistentVolumeClaim", 90)
    ∷ ("Service", 100)
    ∷ ("Deployment", 110)
    ∷ ("StatefulSet", 120)
    ∷ ("DaemonSet", 130)
    ∷ ("Job", 140)
    ∷ ("CronJob", 150)
    ∷ ("Ingress", 160)
    ∷ ("NetworkPolicy", 170)
    ∷ ("PodDisruptionBudget", 180)
    ∷ ("HorizontalPodAutoscaler", 190)
    ∷ []

abbrev order_or : Option ℕ → ℕ
order_or none = 200
order_or (some n) = n

unfoldable pub restore_order : String → ℕ
unfolding lookup
restore_order kind = order_or (lookup kind order_table)

-- matchesSet, on the list that toSet is given.
unfoldable pub matches_set : List String → String → Bool
unfolding before_dot
matches_set values gvr =
    contains values "*" || contains values gvr || contains values (before_dot gvr)

abbrev pub name_or : String → Option String → String
name_or name none = name
name_or name (some mapped) = mapped

-- A name, or what the mapping makes of it.
unfoldable pub mapped_name : List (String × String) → String → String
mapped_name mapping name = name_or name (lookup name mapping)

-- The `continue`s of the loop over the entries.
unfoldable pub is_left_out : RestoreTaskSpec → IndexEntry → Bool
unfolding matches_set
is_left_out spec entry =
    (str_eq entry.kind "PersistentVolumeClaim" && (not spec.restore_pvc || spec.metadata_only))
    || (not (is_nil spec.resource_selection.include)
        && not (matches_set spec.resource_selection.include entry.gvr))
    || matches_set spec.resource_selection.exclude entry.gvr
    || (is_empty entry.namespace
        && not (str_eq entry.kind "Namespace")
        && not spec.resource_selection.include_cluster_resources)

abbrev pub dependency_text : Dependency → String
dependency_text d = join_slash (d.kind ∷ d.namespace ∷ d.name ∷ [])

unfoldable pub plan_item : RestoreTaskSpec → IndexEntry → PlanItem
unfolding mapped_name restore_order
plan_item spec entry = record {
  order = restore_order entry.kind;
  source_gvr = entry.gvr;
  source_namespace = entry.namespace;
  target_namespace = mapped_name spec.namespace_mapping entry.namespace;
  source_name = entry.name;
  target_name =
      if str_eq entry.kind "Namespace"
      then mapped_name spec.namespace_mapping entry.name
      else entry.name;
  kind = entry.kind;
  api_version = entry.api_version;
  file = entry.file;
  action = "CreateOrResolve";
  conflict = "";
  transformations = [];
  dependencies = map dependency_text entry.dependencies;
  validation_result = "Pending";
}

unfoldable pub plan_items : RestoreTaskSpec → List IndexEntry → List PlanItem
unfolding is_left_out plan_item
plan_items spec [] = []
plan_items spec (entry ∷ entries) =
    let rest = plan_items spec entries in
    if is_left_out spec entry then rest else plan_item spec entry ∷ rest

-- namespaceTargets: each namespace of an entry with its target, the entries left out included. An
-- entry of a known namespace writes the value that is there.
unfoldable pub namespace_targets :
    List (String × String) → List (String × String) → List IndexEntry → List (String × String)
unfolding mapped_name
namespace_targets mapping seen [] = seen
namespace_targets mapping seen (entry ∷ entries) =
    let kept = namespace_targets mapping seen entries in
    let more =
      namespace_targets mapping (insert entry.namespace (mapped_name mapping entry.namespace) seen)
        entries in
    elim (lookup entry.namespace seen) [
      | some _ ↦ kept
      | none ↦ if is_empty entry.namespace then kept else more
    ]

-- existingNamespaces.
unfoldable pub namespace_names : List PlanItem → List String
namespace_names [] = []
namespace_names (item ∷ items) =
    let rest = namespace_names items in
    if str_eq item.kind "Namespace" then item.target_name ∷ rest else rest

unfoldable pub synthetic_item : String → String → PlanItem
unfolding restore_order
synthetic_item source target = record {
  order = restore_order "Namespace";
  source_gvr = "namespaces";
  source_namespace = "";
  target_namespace = "";
  source_name = source;
  target_name = target;
  kind = "Namespace";
  api_version = "v1";
  file = "";
  action = "CreateOrResolve";
  conflict = "";
  transformations = [];
  dependencies = [];
  validation_result = "Synthetic";
}

-- The namespaces that no entry of the index gives.
unfoldable pub synthetic_items : List String → List (String × String) → List PlanItem
unfolding synthetic_item
synthetic_items existing [] = []
synthetic_items existing ((source, target) ∷ targets) =
    let rest = synthetic_items existing targets in
    if contains existing target then rest else synthetic_item source target ∷ rest

abbrev pub item_key : PlanItem → String
item_key item = join_slash (item.source_gvr ∷ item.target_namespace ∷ item.target_name ∷ [])

-- The order that sort.SliceStable is given.
unfoldable pub item_before : PlanItem → PlanItem → Bool
item_before a b =
    if not (a.order == b.order)
    then ltb a.order b.order
    else is_lt (compare (item_key a) (item_key b))

unfoldable pub all_items :
    (List (String × String) → List (String × String))
    → List IndexEntry
    → RestoreTaskSpec
    → List PlanItem
unfolding plan_items namespace_targets namespace_names synthetic_items
all_items visit entries spec =
    let items = plan_items spec entries in
    items
    ++ synthetic_items (namespace_names items)
        (visit (namespace_targets spec.namespace_mapping [] entries))

-- The items of BuildPlan.
unfoldable pub build_plan :
    (List (String × String) → List (String × String))
    → List IndexEntry
    → RestoreTaskSpec
    → List PlanItem
unfolding all_items item_before
build_plan visit entries spec = sort_by item_before (all_items visit entries spec)
