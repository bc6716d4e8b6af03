-- ===== src/RestoreLaws/Permitted.antt =====
-- Which changes of the cluster Apply may make (internal/restore/restorer.go).
use backup_restore.Prelude.{
  ◌≡◌, refl, ◌⊎◌, inl, inr, true, List, [], ◌∷◌, All, Bool-cases, if◌then◌else◌,
}
use backup_restore.Api.{RestoreConflictPolicy}
use backup_restore.Errors.{Failure, Io, done, failed}
use backup_restore.Restore.{PlanItem, resolve, resolve_policy_of, policy_for}
use backup_restore.RestoreRun.{
  recreate_supported, note_restore, Answers, Call, create_object, update_object, delete_object,
  Applied, Found, found, not_found, get_failed, Name, free, no_name, may_recreate, recreate,
  after_gone, overwrite, act, with_existing, is_synthetic, apply,
}

-- The object is in the cluster, and the policy for its resource is Overwrite.
abbrev pub IsReplaceable : Answers → RestoreConflictPolicy → PlanItem → Type 0
IsReplaceable a policy item =
    (a.existing item.target_name ≡ found) × (policy_for policy item.source_gvr ≡ "Overwrite")

-- Its update failed, and it may be deleted for a new one.
abbrev pub MayGo : Answers → RestoreConflictPolicy → PlanItem → Type 0
MayGo a policy item =
    IsReplaceable a policy item
    × ((policy.allow_recreate ≡ true)
        × (policy.high_risk_confirmed ≡ true)
        × (recreate_supported item.kind ≡ true))
    × ((e : Failure) × (a.updated ≡ failed e))

-- What is asked of a call. A name that is created was free, or its object has been replaced.
abbrev pub IsPermitted : Answers → RestoreConflictPolicy → PlanItem → Call → Type 0
IsPermitted a policy item (create_object name) =
    (a.existing name ≡ not_found) ⊎ ((name ≡ item.target_name) × MayGo a policy item)
IsPermitted a policy item (update_object name) =
    (name ≡ item.target_name) × IsReplaceable a policy item
IsPermitted a policy item (note_restore r) = ⊥
IsPermitted a policy item (delete_object name) = (name ≡ item.target_name) × MayGo a policy item

module _ (a : Answers) (policy : RestoreConflictPolicy) (item : PlanItem) where
  abbrev AllPermitted : Applied → Type 0
  AllPermitted r = All (IsPermitted a policy item) r.calls

  -- A name that is chosen is free.
  abbrev IsFree : Name → Type 0
  IsFree (free name) = a.existing name ≡ not_found
  IsFree (no_name e) = Unit

-- The API server answers all that comes before the update.
pub record IsReached (a : Answers) (item : PlanItem) : Type 0 where
  pub loads : a.loaded ≡ done tt
  pub transforms : a.transformed ≡ done tt
  pub maps : a.mapped ≡ done tt
  pub exists : a.existing item.target_name ≡ found

after_gone_deletes :
    (a : Answers) (item : PlanItem) (gone : Io (Unit {0}))
    → (later : List Call) × ((after_gone a item gone).calls
        ≡ update_object item.target_name ∷ delete_object item.target_name ∷ later)
after_gone_deletes a item (done _) = (create_object item.target_name ∷ [], refl)
after_gone_deletes a item (failed e) = ([], refl)

recreate_deletes :
    (a : Answers) (item : PlanItem) (deleted : Found)
    → (later : List Call) × ((recreate a item deleted).calls
        ≡ update_object item.target_name ∷ delete_object item.target_name ∷ later)
unfolding recreate
recreate_deletes a item found = after_gone_deletes a item a.gone
recreate_deletes a item not_found = after_gone_deletes a item a.gone
recreate_deletes a item (get_failed e) = ([], refl)

loads_first :
    (a : Answers) (item : PlanItem)
    → a.loaded ≡ done tt
    → (if is_synthetic item then done tt else a.loaded) ≡ done tt
loads_first a item e = elim (Bool-cases (is_synthetic item)) [ inl b ↦ rw b refl | inr b ↦ rw b e ]

-- Where an object may be recreated, any error of its update makes Apply delete it, one that could
-- be retried as well as one that tells of an immutable field.
pub apply-deletes :
    (a : Answers) (policy : RestoreConflictPolicy) (item : PlanItem) (e : Failure)
    → IsReached a item
    → policy_for policy item.source_gvr ≡ "Overwrite"
    → may_recreate policy item ≡ true
    → a.updated ≡ failed e
    → (later : List Call) × ((apply a policy item).calls
        ≡ update_object item.target_name ∷ delete_object item.target_name ∷ later)
unfolding apply with_existing resolve resolve_policy_of act overwrite
apply-deletes a policy item e r p m u =
    let (later, same) = recreate_deletes a item a.deleted in
    (later, simp (loads_first a item r.loads, r.transforms, r.maps, r.exists, p, u, m) same)
