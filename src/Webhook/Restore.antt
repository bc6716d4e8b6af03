-- ===== src/Webhook/Restore.antt =====
-- The validation of a RestoreTask (api/v1alpha1/webhook_validation.go).
use backup_restore.Prelude.{
  String, Bool, false, ◌||◌, ◌&&◌, not, List, [], ◌∷◌, Option, none, some, is_empty, str_eq, lookup,
  insert, decide_eq, String-discrete, ℕ_discrete,
}
use backup_restore.Api.{RestoreTaskSpec}
use backup_restore.Webhook.Check.{
  Check, valid, reject_if, ◌>>◌, validate_identity, restore_refs_required, mapping_name_empty,
  mapping_not_injective, metadata_only_with_pvc, recreate_unconfirmed, spec_immutable,
  cancel_not_revocable,
}

abbrev pub taken_by_other : Option String → String → Bool
taken_by_other none source = false
taken_by_other (some previous) source = not (str_eq previous source)

-- The loop over the namespace mapping, in the order in which Go visits the map; `seen` has the
-- source of each target so far.
unfoldable pub validate_mapping_from : List (String × String) → List (String × String) → Check
validate_mapping_from seen [] = valid
validate_mapping_from seen ((source, target) ∷ mapping) =
    let rest = validate_mapping_from (insert target source seen) mapping in
    reject_if (is_empty source || is_empty target) mapping_name_empty
    >> reject_if (taken_by_other (lookup target seen) source) mapping_not_injective
    >> rest

unfoldable pub validate_mapping : List (String × String) → Check
unfolding validate_mapping_from
validate_mapping mapping = validate_mapping_from [] mapping

unfoldable pub validate_restore : RestoreTaskSpec → Check
unfolding validate_mapping validate_identity
validate_restore spec = do
  validate_identity spec.identity
  reject_if (is_empty spec.backup_record_ref.name || is_empty spec.target_cluster_ref)
      restore_refs_required
  validate_mapping spec.namespace_mapping
  reject_if (spec.metadata_only && spec.restore_pvc) metadata_only_with_pvc
  reject_if (spec.conflict_policy.allow_recreate && not spec.conflict_policy.high_risk_confirmed)
      recreate_unconfirmed

pub RestoreTaskSpec-discrete : Discrete RestoreTaskSpec
RestoreTaskSpec-discrete = hlevel (String-discrete, ℕ_discrete)

abbrev pub restore_without_cancel : RestoreTaskSpec → RestoreTaskSpec
restore_without_cancel spec = record spec { cancel_requested = false; cancel_reason = "" }

unfoldable pub validate_restore_update : RestoreTaskSpec → RestoreTaskSpec → Check
unfolding validate_restore
validate_restore_update previous spec = do
  reject_if
      (not (
        decide_eq (
          RestoreTaskSpec-discrete (restore_without_cancel previous)
            (restore_without_cancel spec))))
      spec_immutable
  reject_if (previous.cancel_requested && not spec.cancel_requested) cancel_not_revocable
  validate_restore spec
