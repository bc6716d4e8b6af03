-- ===== src/RestoreLaws/Tally.antt =====
-- The counters of a restore (applyStage in internal/controller/restore_controller.go).
use backup_restore.Prelude.{
  ℕ, ◌+◌, ◌≡◌, refl, ap, sym, ◌∙◌, ◌⊎◌, inl, inr, String, Bool, true, false, ◌||◌, List, [], ◌∷◌,
  Option, none, some, arith, Bool-cases, str_append, str_eq, if◌then◌else◌,
}
use backup_restore.Prelude.Int.{ℤ, pos, ◌+ℤ◌, int_laws}
use backup_restore.Api.{RestorePhase, RestoreConflictPolicy, RestoreTaskSpec, RestoreProgress, Time}
use backup_restore.Errors.{Failure, Io, done, failed}
use backup_restore.Restore.{
  PlanItem, rename_unsupported, resolve, resolve_policy_of, policy_for, rename_supported,
}
use backup_restore.RestoreRun.{
  Answers, Applied, ApplyResult, Found, found, not_found, get_failed, Name, free, no_name,
  available_name, may_recreate, recreate, after_gone, overwrite, rename, create, act, resolved,
  with_existing, then_apply, is_synthetic, apply, Tally, Loop, note_error, note_action, after_apply,
  after_error, apply_items, stage_includes,
}

-- The actions that applyStage counts.
abbrev pub is_counted : String → Bool
is_counted action =
    str_eq action "Create"
    || str_eq action "Overwrite"
    || str_eq action "Recreate"
    || str_eq action "Skip"
    || str_eq action "Rename"

-- An object has an error or an action that is counted.
abbrev Counts : Applied → Type 0
Counts r = ((e : Failure) × (r.error ≡ some e)) ⊎ (is_counted r.result.action ≡ true)

module _ (a : Answers) (policy : RestoreConflictPolicy) (item : PlanItem) where
  after_gone-Counts : (gone : Io (Unit {0})) → Counts (after_gone a item gone)
  after_gone-Counts (done _) = inr refl
  after_gone-Counts (failed e) = inl (e, refl)

  recreate-Counts : (deleted : Found) → Counts (recreate a item deleted)
  unfolding recreate
  recreate-Counts found = after_gone-Counts a.gone
  recreate-Counts not_found = after_gone-Counts a.gone
  recreate-Counts (get_failed e) = inl (e, refl)

  overwrite-Counts : (updated : Io (Unit {0})) → Counts (overwrite a policy item updated)
  unfolding overwrite
  overwrite-Counts (done _) = inr refl
  overwrite-Counts (failed e) = elim (Bool-cases (may_recreate policy item)) [
    | inl m ↦ rw m (recreate-Counts a.deleted)
    | inr m ↦ rw m (inl (e, refl))
  ]

  rename-Counts : (name : Name) → Counts (rename a item name)
  unfolding rename
  rename-Counts (free name) = inr refl
  rename-Counts (no_name e) = inl (e, refl)

  act_policy-Counts : (p : String) → Counts (resolved a policy item (resolve_policy_of p item.kind))
  unfolding resolve_policy_of act
  act_policy-Counts p = elim (Bool-cases (str_eq p "Skip")) [
    | inl b ↦ rw b (inr refl)
    | inr b ↦ elim (Bool-cases (str_eq p "Fail")) [
      | inl c ↦ rw (b, c) (inl (_, refl))
      | inr c ↦ elim (Bool-cases (str_eq p "Overwrite")) [
        | inl d ↦ rw (b, c, d) (overwrite-Counts a.updated)
        | inr d ↦ elim (Bool-cases (str_eq p "Rename")) [
          | inl f ↦ rw (b, c, d, f) (renamed_or_not (rename_supported item.kind) refl)
          | inr f ↦ rw (b, c, d, f) (inl (_, refl))
        ]
      ]
    ]
  ]
    where
      renamed_or_not :
          (supported : Bool)
          → rename_supported item.kind ≡ supported
          → Counts (
              resolved a policy item (
                if rename_supported item.kind
                then ("Rename", none)
                else ("Fail", some rename_unsupported)))
      renamed_or_not true e =
          rw e (rename-Counts (available_name a.existing (str_append item.target_name "-restored")))
      renamed_or_not false e = rw e (inl (_, refl))

  with_existing-Counts : (f : Found) → Counts (with_existing a policy item f)
  unfolding with_existing resolve act create
  with_existing-Counts found = act_policy-Counts (policy_for policy item.source_gvr)
  with_existing-Counts not_found = inr refl
  with_existing-Counts (get_failed e) = inl (e, refl)

  then_apply-Counts :
      (r : Io (Unit {0})) (next : Applied) → Counts next → Counts (then_apply r next)
  then_apply-Counts (done _) next h = h
  then_apply-Counts (failed e) next h = inl (e, refl)

  apply-Counts : Counts (apply a policy item)
  unfolding apply
  apply-Counts =
      let first : Io (Unit {0}) = if is_synthetic item then done tt else a.loaded in
      let last = with_existing a policy item (a.existing item.target_name) in
      let mapped_last = then_apply a.mapped last in
      then_apply-Counts first (then_apply a.transformed mapped_last) (
        then_apply-Counts a.transformed mapped_last
          (then_apply-Counts a.mapped last (with_existing-Counts (a.existing item.target_name))))

-- Every object that was processed has been counted by what became of it.
abbrev pub IsBalanced : RestoreProgress → Type 0
IsBalanced p = p.processed ≡ p.created +ℤ p.updated +ℤ p.skipped +ℤ p.renamed +ℤ p.failed

sum_parts :
    (p c u s r f : ℤ)
    → p ≡ c +ℤ u +ℤ s +ℤ r +ℤ f
    → (p +ℤ pos 1 ≡ (c +ℤ pos 1) +ℤ u +ℤ s +ℤ r +ℤ f)
      × (p +ℤ pos 1 ≡ c +ℤ (u +ℤ pos 1) +ℤ s +ℤ r +ℤ f)
      × (p +ℤ pos 1 ≡ c +ℤ u +ℤ (s +ℤ pos 1) +ℤ r +ℤ f)
      × (p +ℤ pos 1 ≡ c +ℤ u +ℤ s +ℤ (r +ℤ pos 1) +ℤ f)
      × (p +ℤ pos 1 ≡ c +ℤ u +ℤ s +ℤ r +ℤ (f +ℤ pos 1))
sum_parts p c u s r f h = (
  more (omega int_laws),
  more (omega int_laws),
  more (omega int_laws),
  more (omega int_laws),
  more (omega int_laws),
)
  where
    more : {y : ℤ} → (c +ℤ u +ℤ s +ℤ r +ℤ f) +ℤ pos 1 ≡ y → p +ℤ pos 1 ≡ y
    more e = ap (λ t. t +ℤ pos 1) h ∙ e

-- One more object is counted, and the balance is kept.
abbrev Steps : RestoreProgress → RestoreProgress → Type 0
Steps before after = IsBalanced after × (after.processed ≡ before.processed +ℤ pos 1)

note_error-Steps :
    (t : Tally) (now : Time) → IsBalanced t.progress → Steps t.progress (note_error t now).progress
unfolding note_error
note_error-Steps t now h = (
  (sum_parts _ t.progress.created t.progress.updated t.progress.skipped t.progress.renamed
      t.progress.failed h).4,
  refl,
)

note_action-Steps :
    (t : Tally) (item : PlanItem) (result : ApplyResult)
    → IsBalanced t.progress
    → is_counted result.action ≡ true
    → Steps t.progress (note_action t item result).progress
unfolding note_action
note_action-Steps t item result h c =
    let parts =
      sum_parts _ t.progress.created t.progress.updated t.progress.skipped t.progress.renamed
        t.progress.failed h in
    elim (Bool-cases (str_eq result.action "Create")) [
      | inl b ↦ rw b (parts.0, refl)
      | inr b ↦ elim (Bool-cases (str_eq result.action "Overwrite")) [
        | inl d ↦ rw (b, d) (parts.1, refl)
        | inr d ↦ elim (Bool-cases (str_eq result.action "Recreate")) [
          | inl e ↦ rw (b, d, e) (parts.1, refl)
          | inr e ↦ elim (Bool-cases (str_eq result.action "Skip")) [
            | inl f ↦ rw (b, d, e, f) (parts.2, refl)
            | inr f ↦ elim (Bool-cases (str_eq result.action "Rename")) [
              | inl g ↦ rw (b, d, e, f, g) (parts.3, refl)
              | inr g ↦ absurd (ground arith)
            ]
          ]
        ]
      ]
    ]

-- How many objects a stage has.
unfoldable pub count_stage : RestorePhase → List PlanItem → ℕ
count_stage stage [] = 0
count_stage stage (item ∷ items) =
    let rest = count_stage stage items in if stage_includes stage item then rest + 1 else rest

-- The balance after a loop that counts so many objects, if no error ends it.
abbrev pub IsAccounted : ℤ → ℕ → Loop → Type 0
IsAccounted before n l =
    IsBalanced l.tally.progress × (l.error ≡ none → l.tally.progress.processed ≡ before +ℤ pos n)

one_before : (x y : ℤ) (n : ℕ) → y ≡ x +ℤ pos 1 → y +ℤ pos n ≡ x +ℤ pos (n + 1)
one_before x y n e = ap (λ t. t +ℤ pos n) e ∙ omega int_laws

no_error : (x : Failure) → none ≡ some x → ⊥
no_error x e = cc

after_apply-IsAccounted :
    (fail_fast : Bool) (t : Tally) (now : Time) (item : PlanItem) (r : Applied) (n : ℕ)
    (rest : Tally → Loop)
    → Counts r
    → IsBalanced t.progress
    → ((u : Tally) → IsBalanced u.progress → IsAccounted u.progress.processed n (rest u))
    → IsAccounted t.progress.processed (n + 1) (after_apply fail_fast t now item r rest)
after_apply-IsAccounted fail_fast t now item r n rest c h more = go r.error refl
  where
    from_rest :
        (u : Tally)
        → Steps t.progress u.progress
        → IsAccounted t.progress.processed (n + 1) (rest u)
    from_rest u (balanced, step) =
        let (b, p) = more u balanced in
        (b, λ fine. p fine ∙ one_before t.progress.processed u.progress.processed n step)

    counted :
        r.error ≡ none
        → Counts r
        → IsAccounted t.progress.processed (n + 1) (rest (note_action t item r.result))
    counted e (inl (x, f)) = absurd (no_error x (sym e ∙ f))
    counted e (inr k) = from_rest _ (note_action-Steps t item r.result h k)

    not_counted :
        (fail_fast : Bool) (x : Failure)
        → IsAccounted t.progress.processed
            (n + 1)
            (after_error fail_fast t now item r rest (some x))
    not_counted true x = ((note_error-Steps t now h).0, λ e. absurd (cc))
    not_counted false x = from_rest _ (note_error-Steps t now h)

    go :
        (o : Option Failure)
        → r.error ≡ o
        → IsAccounted t.progress.processed (n + 1) (after_error fail_fast t now item r rest o)
    go none e = counted e c
    go (some x) e = not_counted fail_fast x

count_stage_step :
    (stage : RestorePhase) (item : PlanItem) (items : List PlanItem) (x : ℤ) (l : Loop)
    → (stage_includes stage item ≡ true → IsAccounted x (count_stage stage items + 1) l)
    → (stage_includes stage item ≡ false → IsAccounted x (count_stage stage items) l)
    → IsAccounted x (count_stage stage (item ∷ items)) l
unfolding count_stage
count_stage_step stage item items x l yes_in not_in =
    elim (Bool-cases (stage_includes stage item)) [
      | inl b ↦ rw b (yes_in b)
      | inr b ↦ rw b (not_in b)
    ]

plus_none : (x : ℤ) → x ≡ x +ℤ pos 0
plus_none x = omega int_laws

-- The loop over the plan keeps the balance of the counters, whatever becomes of its objects: those
-- processed are those created, updated, skipped, renamed and failed. If no error ends it early,
-- every object of the stage has been processed once.
pub apply_items-IsAccounted :
    (stage : RestorePhase) (spec : RestoreTaskSpec) (answers : ℕ → Answers) (now : Time) (place : ℕ)
    (items : List PlanItem) (t : Tally)
    → IsBalanced t.progress
    → IsAccounted t.progress.processed
        (count_stage stage items)
        (apply_items stage spec answers now place items t)
unfolding apply_items count_stage
apply_items-IsAccounted stage spec answers now place [] t h =
    (h, λ e. plus_none t.progress.processed)
apply_items-IsAccounted stage spec answers now place (item ∷ items) t h =
    count_stage_step stage item items t.progress.processed
      (apply_items stage spec answers now place (item ∷ items) t)
      (λ b. rw b (
        after_apply-IsAccounted (str_eq spec.failure_policy "FailFast") t now item
          (apply (answers place) spec.conflict_policy item) (count_stage stage items)
          (apply_items stage spec answers now (place + 1) items)
          (apply-Counts (answers place) spec.conflict_policy item) h
          (apply_items-IsAccounted stage spec answers now (place + 1) items)))
      (λ b. rw b (apply_items-IsAccounted stage spec answers now (place + 1) items t h))
