-- ===== src/Restore/Namespaces.antt =====
-- Every namespace that a restore plan writes to is in the plan (internal/restore/plan.go).
use backup_restore.Prelude.{
  ℕ, suc, ◌≡◌, ◌⊎◌, inl, inr, refl, sym, subst, ap, ◌∙◌, String, Bool, true, false, ◌||◌, List, [],
  ◌∷◌, ◌++◌, arith, All, All-append, All-map, Bool-cases, Option-cases, none, some, is_empty,
  str_eq, contains, str_eq→eq, eq→str_eq, str_eq_refl, lookup, insert, if◌then◌else◌,
}
use backup_restore.Prelude.Sort.{sort_by, insert_sorted, sort_by-All}
use backup_restore.Api.{RestoreTaskSpec}
use backup_restore.Restore.{
  IndexEntry, PlanItem, build_plan, all_items, plan_items, plan_item, is_left_out, mapped_name,
  synthetic_items, synthetic_item, namespace_names, namespace_targets, item_before,
}

-- The plan has a namespace of this name.
abbrev pub Gives : List PlanItem → String → Type 0
Gives items name = contains (namespace_names items) name ≡ true

namespace_names-append :
    (xs ys : List PlanItem) (name : String)
    → contains (namespace_names (xs ++ ys)) name
      ≡ (contains (namespace_names xs) name || contains (namespace_names ys) name)
unfolding namespace_names contains
namespace_names-append [] ys name = refl
namespace_names-append (x ∷ xs) ys name = ground (arith, namespace_names-append xs ys name)

namespace_names-insert_sorted :
    (x : PlanItem) (xs : List PlanItem) (name : String)
    → contains (namespace_names (insert_sorted item_before x xs)) name
      ≡ contains (namespace_names (x ∷ xs)) name
unfolding namespace_names contains insert_sorted
namespace_names-insert_sorted x [] name = refl
namespace_names-insert_sorted x (y ∷ ys) name = elim (Bool-cases (item_before y x)) [
  | inl b ↦ rw b (ground (arith, namespace_names-insert_sorted x ys name))
  | inr b ↦ rw b refl
]

namespace_names-sort_by :
    (xs : List PlanItem) (name : String)
    → contains (namespace_names (sort_by item_before xs)) name ≡ contains (namespace_names xs) name
unfolding sort_by namespace_names contains
namespace_names-sort_by [] name = refl
namespace_names-sort_by (x ∷ xs) name = ground (
  arith,
  namespace_names-insert_sorted x (sort_by item_before xs) name,
  namespace_names-sort_by xs name,
)

-- An entry of the map of namespaces.
abbrev HasPair : String → String → List (String × String) → Type 0
HasPair source target [] = ⊥
HasPair source target ((s, t) ∷ m) = ((s ≡ source) × (t ≡ target)) ⊎ HasPair source target m

synthetic_items-Gives :
    (existing : List String) (targets : List (String × String)) (source target : String)
    → HasPair source target targets
    → (contains existing target
        || contains (namespace_names (synthetic_items existing targets)) target)
      ≡ true
unfolding synthetic_items namespace_names contains
synthetic_items-Gives existing [] source target h = absurd h
synthetic_items-Gives existing ((s, t) ∷ m) source target (inl (e, e')) =
    ground (arith, str_eq_refl target, eq→str_eq t target e')
synthetic_items-Gives existing ((s, t) ∷ m) source target (inr h) =
    ground (arith, synthetic_items-Gives existing m source target h)

lookup-HasPair :
    (source target : String) (m : List (String × String))
    → lookup source m ≡ some target
    → HasPair source target m
unfolding lookup
lookup-HasPair source target [] h = cc
lookup-HasPair source target ((s, t) ∷ m) h = elim (Bool-cases (str_eq s source)) [
  | inl b ↦ inl (str_eq→eq s source b, ground arith)
  | inr b ↦ inr (lookup-HasPair source target m (ground arith))
]

module _ (mapping : List (String × String)) where
  abbrev IsMapped : String × String → Type 0
  IsMapped (source, target) = target ≡ mapped_name mapping source

  mapped_of_HasPair :
      (source target : String) (m : List (String × String))
      → All IsMapped m
      → HasPair source target m
      → target ≡ mapped_name mapping source
  mapped_of_HasPair source target [] h k = absurd k
  mapped_of_HasPair source target ((s, t) ∷ m) (h, hs) (inl (e, e')) = cc
  mapped_of_HasPair source target ((s, t) ∷ m) (h, hs) (inr k) =
      mapped_of_HasPair source target m hs k

  -- The namespace of the entry has its target in the map, if it has one.
  abbrev IsNoted : List (String × String) → IndexEntry → Type 0
  IsNoted m entry =
      (is_empty entry.namespace ≡ true)
      ⊎ HasPair entry.namespace (mapped_name mapping entry.namespace) m

  namespace_targets_seen :
      (seen : List (String × String)) (entry : IndexEntry) (entries : List IndexEntry)
      (target : String)
      → lookup entry.namespace seen ≡ some target
      → namespace_targets mapping seen (entry ∷ entries) ≡ namespace_targets mapping seen entries
  unfolding namespace_targets
  namespace_targets_seen seen entry entries target e = ground arith

  namespace_targets_empty :
      (seen : List (String × String)) (entry : IndexEntry) (entries : List IndexEntry)
      → lookup entry.namespace seen ≡ none
      → is_empty entry.namespace ≡ true
      → namespace_targets mapping seen (entry ∷ entries) ≡ namespace_targets mapping seen entries
  unfolding namespace_targets
  namespace_targets_empty seen entry entries e b = ground arith

  namespace_targets_new :
      (seen : List (String × String)) (entry : IndexEntry) (entries : List IndexEntry)
      → lookup entry.namespace seen ≡ none
      → is_empty entry.namespace ≡ false
      → namespace_targets mapping seen (entry ∷ entries)
        ≡ namespace_targets mapping
            (insert entry.namespace (mapped_name mapping entry.namespace) seen)
            entries
  unfolding namespace_targets
  namespace_targets_new seen entry entries e b = ground arith

  Noted : List (String × String) → List IndexEntry → List (String × String) → Type 0
  Noted seen entries m =
      ((s t : String) → HasPair s t seen → HasPair s t m) × All (IsNoted m) entries

  namespace_targets-Noted :
      (seen : List (String × String)) (entries : List IndexEntry)
      → All IsMapped seen
      → Noted seen entries (namespace_targets mapping seen entries)
  unfolding Noted namespace_targets insert
  namespace_targets-Noted seen [] ok = ((λ s t h. h), tt)
  namespace_targets-Noted seen (entry ∷ entries) ok =
      elim (Option-cases (lookup entry.namespace seen)) [
        | inr (target, found) ↦
            let (keeps, noted) = namespace_targets-Noted seen entries ok in
            let pair = lookup-HasPair entry.namespace target seen found in
            subst (Noted seen (entry ∷ entries))
              (sym (namespace_targets_seen seen entry entries target found))
              (
                keeps,
                (
                  inr (
                      keeps entry.namespace (mapped_name mapping entry.namespace) (
                        subst (λ t. HasPair entry.namespace t seen)
                          (mapped_of_HasPair entry.namespace target seen ok pair) pair)),
                  noted,
                ),
              )
        | inl free ↦ elim (Bool-cases (is_empty entry.namespace)) [
          | inl b ↦
              let (keeps, noted) = namespace_targets-Noted seen entries ok in
              subst (Noted seen (entry ∷ entries))
                (sym (namespace_targets_empty seen entry entries free b)) (keeps, (inl b, noted))
          | inr b ↦
              let target = mapped_name mapping entry.namespace in
              let (keeps, noted) =
                namespace_targets-Noted ((entry.namespace, target) ∷ seen) entries (refl, ok) in
              subst (Noted seen (entry ∷ entries))
                (sym (namespace_targets_new seen entry entries free b))
                (
                  (λ s t h. keeps s t (inr h)),
                  (inr (keeps entry.namespace target (inl (refl, refl))), noted),
                )
        ]
      ]

-- A visit of a map goes to every entry.
abbrev pub VisitsAll : (List (String × String) → List (String × String)) → Type 0
VisitsAll visit =
    (m : List (String × String)) (source target : String)
    → HasPair source target m
    → HasPair source target (visit m)

abbrev IsServed : List (String × String) → PlanItem → Type 0
IsServed m item =
    (is_empty item.source_namespace ≡ true) ⊎ HasPair item.source_namespace item.target_namespace m

plan_items-IsServed :
    (spec : RestoreTaskSpec) (m : List (String × String)) (entries : List IndexEntry)
    → All (IsNoted spec.namespace_mapping m) entries
    → All (IsServed m) (plan_items spec entries)
unfolding plan_items plan_item
plan_items-IsServed spec m [] h = tt
plan_items-IsServed spec m (entry ∷ entries) (h, hs) = elim (Bool-cases (is_left_out spec entry)) [
  | inl b ↦ rw b (plan_items-IsServed spec m entries hs)
  | inr b ↦ rw b (h, plan_items-IsServed spec m entries hs)
]

synthetic_items-unplaced :
    (existing : List String) (targets : List (String × String))
    → All (λ item. is_empty item.source_namespace ≡ true) (synthetic_items existing targets)
unfolding synthetic_items synthetic_item
synthetic_items-unplaced existing [] = tt
synthetic_items-unplaced existing ((source, target) ∷ targets) =
    elim (Bool-cases (contains existing target)) [
      | inl b ↦ rw b (synthetic_items-unplaced existing targets)
      | inr b ↦ rw b (refl, synthetic_items-unplaced existing targets)
    ]

-- A target of the map is in the plan.
served :
    (items : List PlanItem) (visited targets : List (String × String))
    → ((s t : String) → HasPair s t targets → HasPair s t visited)
    → (item : PlanItem) → IsServed targets item
    → (is_empty item.source_namespace ≡ true)
      ⊎ Gives
          (sort_by item_before (items ++ synthetic_items (namespace_names items) visited))
          item.target_namespace
served items visited targets visits item (inl h) = inl h
served items visited targets visits item (inr h) =
    let synthetic = synthetic_items (namespace_names items) visited in
    inr (
      namespace_names-sort_by (items ++ synthetic) item.target_namespace
      ∙ namespace_names-append items synthetic item.target_namespace
      ∙ synthetic_items-Gives (namespace_names items) visited item.source_namespace
          item.target_namespace (visits item.source_namespace item.target_namespace h))

-- In a plan, the target namespace of every item that comes from a namespace is itself an item of
-- the plan, also when the index or the selection has no object for it.
pub build_plan-Gives :
    (visit : List (String × String) → List (String × String)) (entries : List IndexEntry)
    (spec : RestoreTaskSpec)
    → VisitsAll visit
    → All
        (λ item.
          (is_empty item.source_namespace ≡ true)
          ⊎ Gives (build_plan visit entries spec) item.target_namespace)
        (build_plan visit entries spec)
unfolding build_plan all_items Noted
build_plan-Gives visit entries spec visits =
    let items = plan_items spec entries in
    let targets = namespace_targets spec.namespace_mapping [] entries in
    let synthetic = synthetic_items (namespace_names items) (visit targets) in
    let Q : PlanItem → Type 0 = λ item.
      (is_empty item.source_namespace ≡ true)
      ⊎ Gives (sort_by item_before (items ++ synthetic)) item.target_namespace in
    sort_by-All item_before Q (items ++ synthetic) (
      All-append Q items synthetic
        (All-map (IsServed targets) Q (served items (visit targets) targets (visits targets)) items
          (plan_items-IsServed spec targets entries
            (namespace_targets-Noted spec.namespace_mapping [] entries tt).1))
        (All-map (λ item. is_empty item.source_namespace ≡ true) Q (λ item h. inl h) synthetic
          (synthetic_items-unplaced (namespace_names items) (visit targets))))

-- The added namespaces of one name.
abbrev count_named : String → List PlanItem → ℕ
count_named name [] = 0
count_named name (item ∷ items) =
    if str_eq item.target_name name then suc (count_named name items) else count_named name items

abbrev count_target : String → List (String × String) → ℕ
count_target name [] = 0
count_target name ((source, target) ∷ m) =
    if str_eq target name then suc (count_target name m) else count_target name m

-- A namespace that no object of the index gives is added once for every source namespace that is
-- restored into it, and so more than once where several are.
synthetic_items-repeats :
    (existing : List String) (targets : List (String × String)) (name : String)
    → contains existing name ≡ false
    → count_named name (synthetic_items existing targets) ≡ count_target name targets
unfolding synthetic_items synthetic_item
synthetic_items-repeats existing [] name h = refl
synthetic_items-repeats existing ((source, target) ∷ targets) name h =
    elim (Bool-cases (contains existing target)) [
      | inl b ↦ rw b (rw (other b) (synthetic_items-repeats existing targets name h))
      | inr b ↦ rw b (if_suc (str_eq target name) (synthetic_items-repeats existing targets name h))
    ]
  where
    other : contains existing target ≡ true → str_eq target name ≡ false
    other b = elim (Bool-cases (str_eq target name)) [
      | inr e ↦ e
      | inl e ↦
          absurd
            (true-ne-false (sym b ∙ ap (λ t. contains existing t) (str_eq→eq target name e) ∙ h))
    ]
      where
        true-ne-false : true ≡ false → ⊥
        true-ne-false h = cc

    if_suc : (b : Bool) {m n : ℕ} → m ≡ n → (if b then suc m else m) ≡ (if b then suc n else n)
    if_suc true e = ap suc e
    if_suc false e = e
