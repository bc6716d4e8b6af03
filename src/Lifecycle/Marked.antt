-- ===== src/Lifecycle/Marked.antt =====
-- What a retention run deletes (RetentionReconciler of
-- internal/controller/lifecycle_controllers.go).
use backup_restore.Prelude.{ℕ, ◌+◌, ◌≤◌, ◌≡◌, String, true, List, All, length, min}
use backup_restore.Prelude.Int.{pos_part}
use backup_restore.Api.{BackupRecord, BackupPolicy, RetentionSpec, Time}
use backup_restore.Errors.{done}
use backup_restore.Webhook.Check.{valid}
use backup_restore.Webhook.Record.{validate_record_delete}
use backup_restore.Retention.{eligible, IsSort}
use backup_restore.Retention.Kept.{IsEligible}
use backup_restore.Lifecycle.Retain.{RetainWorld, RetainOutcome, is_of, records_of, mark_deleted}

-- A record of the policy that may be deleted.
abbrev pub IsCandidate : String → BackupRecord → Type 0
IsCandidate uid c = (is_of uid c.spec.policy_ref ≡ true) × IsEligible c

-- The record was read under the name of a candidate, and marked; the validation of a deletion
-- accepts its annotations.
abbrev pub IsAsked : RetainWorld → RetentionSpec → String → BackupRecord → Type 0
IsAsked w policy uid r =
    ((c : BackupRecord) × (now : BackupRecord) × IsCandidate uid c
      × (w.current c.meta.name ≡ done now)
      × (r ≡ mark_deleted policy now))
    × (validate_record_delete r.meta.annotations ≡ valid)

module _ (w : RetainWorld) (policy : RetentionSpec) (uid : String) where
  -- At most n records are asked for.
  abbrev Asks : ℕ → RetainOutcome → Type 0
  Asks n o = All (IsAsked w policy uid) o.deletes × (length o.deletes ≤ n)

module _ (w : RetainWorld) (policy : BackupPolicy) (now : Time) (records : List BackupRecord)
    (is_sort : IsSort w.sort) where
  abbrev able : ℕ
  able = length (eligible (records_of policy.meta.uid records))

  abbrev IsOrderly : RetainOutcome → Type 0
  IsOrderly o =
      All (IsAsked w policy.spec.retention policy.meta.uid) o.deletes
      × (length o.deletes + min (pos_part policy.spec.retention.min_copies) able ≤ able)
