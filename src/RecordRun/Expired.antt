-- ===== src/RecordRun/Expired.antt =====
-- What a reconcile does to a BackupRecord that is not being deleted
-- (internal/controller/record_controller.go).
use backup_restore.Prelude.{
  is_empty, inr, inl, Bool-cases, lookup, ℕ, insert, ◌≢◌, ◌≡◌, refl, ◌∙◌, ap, true, false, ◌&&◌,
  not, [], ◌∷◌, ◌++◌, Option, none, some, str_eq, get_text, arith, if-both,
}
use backup_restore.Api.{BackupRecord, Time}
use backup_restore.Errors.{Io, done, failed}
use backup_restore.Checksum.{
  codes, sum_or_nothing, Entries, parse_manifest, find_sum, equal_fold, Bytes,
}
use backup_restore.Backup.{stop, contains_string}
use backup_restore.Webhook.Check.{valid}
use backup_restore.Webhook.Record.{is_delete_mode, validate_record_delete}
use backup_restore.Webhook.Repository.{is_set}
use backup_restore.Webhook.Task.{is_one_time}
use backup_restore.RecordRun.Verify.{
  path_of, replied, broken, after_repository, archive_name, after_marker, mark_unavailable,
  after_manifest, after_manifest_file, not_read, trim_space, missing, after_missing, missing_of,
  Missing, files_match, begin_verify, mark_broken, settle_record, RecordWorld, RecordReply,
  is_protected, verify_record,
}
use backup_restore.RecordRun.Finalize.{RecordOutcome, plainly, record_finalizer, finalize}
use backup_restore.RecordRun.Reconcile.{
  ensure_finalizer, delete_expired, mark_expired, of_pair, is_past, expire_or_verify,
  reconcile_record,
}
use backup_restore.RecordRun.Removed.{
  finalize-IsInOrder, Holds-IsInOrder, required, IsInOrder, has_finalizer,
}

-- A call on a record that is not being deleted keeps what the record is.
module _ (w : RecordWorld) (stored r : BackupRecord) (same : r.meta ≡ stored.meta)
    (now : Time) where
  abbrev Keeps : BackupRecord × RecordReply → Type 0
  Keeps p = p.0.meta ≡ stored.meta

  broken-Keeps : Keeps (broken r)
  unfolding mark_broken
  broken-Keeps = same

  after_missing-Keeps : (files : ℕ) (m : Missing) → Keeps (after_missing stored r files now m)
  unfolding settle_record
  after_missing-Keeps files (missing names) = same
  after_missing-Keeps files (not_read e) = refl

  after_manifest-Keeps : (o : Option Entries) → Keeps (after_manifest w stored r now o)
  unfolding equal_fold find_sum files_match missing_of settle_record mark_broken
  after_manifest-Keeps none = same
  after_manifest-Keeps (some entries) =
      if-both Keeps
        (not (equal_fold (sum_or_nothing (find_sum archive_name entries)) (codes r.spec.checksum)))
        (broken r) _ (λ _. same)
        (λ _.
          if-both Keeps (not (files_match w r (w.visit entries))) (broken r) _ (λ _. same)
            (λ _. after_missing-Keeps _ (missing_of w.snapshot r.spec.snapshots)))

  after_file-Keeps : (io : Io Bytes) → Keeps (after_manifest_file w stored r now io)
  unfolding equal_fold find_sum files_match missing_of settle_record mark_broken parse_manifest
  after_file-Keeps (failed e) = same
  after_file-Keeps (done text) = after_manifest-Keeps (parse_manifest text)

  after_marker-Keeps : (io : Io Bytes) → Keeps (after_marker w stored r now io)
  unfolding equal_fold find_sum files_match missing_of settle_record mark_broken parse_manifest
      trim_space
  after_marker-Keeps (failed e) = same
  after_marker-Keeps (done text) =
      if-both Keeps (not (equal_fold (trim_space text) (codes r.spec.checksum))) (broken r) _
        (λ _. same) (λ _. after_file-Keeps (w.file (path_of r (codes "sha256sum.txt"))))

  after_repository-Keeps : (io : Io (Unit {0})) → Keeps (after_repository w stored r now io)
  unfolding equal_fold find_sum files_match missing_of settle_record mark_broken parse_manifest
      trim_space mark_unavailable
  after_repository-Keeps (failed e) = same
  after_repository-Keeps (done _) = after_marker-Keeps (w.file (path_of r (codes ".done")))

pub verify_record-meta :
    (w : RecordWorld) (r : BackupRecord) (now : Time) → (verify_record w r now).0.meta ≡ r.meta
unfolding verify_record begin_verify
verify_record-meta w r now = after_repository-Keeps w r (begin_verify r) refl now w.repository

-- Of a record that is not being deleted: nothing is deleted, and the finalizer stays. If the record
-- is now to be deleted, it was past its time, of a one-time backup and not protected, and its
-- annotations are those that the admission of its deletion asks for.
abbrev pub MayExpire : BackupRecord → Time → RecordOutcome → Type 0
MayExpire r now o =
    (o.deletions ≡ [])
    × (has_finalizer r ≡ true → has_finalizer o.stored ≡ true)
    × (o.stored.meta.deletion_timestamp ≢ none
        → (is_past r.spec.expires_at now ≡ true)
          × (is_one_time r.spec.source_type ≡ true)
          × (is_protected r ≡ false)
          × (validate_record_delete o.stored.meta.annotations ≡ valid))

delete_expired-valid :
    (r : BackupRecord) (now : Time)
    → validate_record_delete (delete_expired r now).meta.annotations ≡ valid
unfolding delete_expired validate_record_delete insert get_text lookup is_delete_mode
delete_expired-valid r now = elim (Bool-cases r.spec.backup_spec.retention.delete_snapshots) [
  | inl b ↦ rw b refl
  | inr b ↦ rw b refl
]

expire_or_verify-MayExpire :
    (w : RecordWorld) (r : BackupRecord) (now : Time)
    → r.meta.deletion_timestamp ≡ none
    → MayExpire r now (expire_or_verify w r now)
unfolding expire_or_verify delete_expired mark_expired is_past verify_record validate_record_delete
expire_or_verify-MayExpire w r now fresh =
    let P = MayExpire r now in
    let m = verify_record-meta w r now in
    if-both P (is_past r.spec.expires_at now) _ (of_pair (verify_record w r now))
      (λ past.
        if-both P (is_one_time r.spec.source_type && not (is_protected r))
          (plainly (delete_expired r now) (replied stop)) (plainly (mark_expired r) _)
          (λ b. (refl, λ h. h, λ n. (past, ground arith, ground arith, delete_expired-valid r now)))
          (λ b. (refl, λ h. h, λ n. absurd (n fresh))))
      (λ b. (
        refl,
        λ h. ap (λ x. contains_string x.finalizers record_finalizer) m ∙ h,
        λ n. absurd (n (ap (λ x. x.deletion_timestamp) m ∙ fresh)),
      ))

ensure_finalizer-MayExpire :
    (w : RecordWorld) (r : BackupRecord) (now : Time)
    → r.meta.deletion_timestamp ≡ none
    → MayExpire r now (expire_or_verify w (ensure_finalizer r) now)
unfolding ensure_finalizer
ensure_finalizer-MayExpire w r now fresh =
    let named = record r {
      meta = record (r.meta) { finalizers = r.meta.finalizers ++ record_finalizer ∷ [] };
    } in
    if-both (λ x. MayExpire r now (expire_or_verify w x now)) (has_finalizer r) r named
      (λ b. expire_or_verify-MayExpire w r now fresh)
      (λ b. let (d, k, e) = expire_or_verify-MayExpire w named now fresh in (d, λ h. cc, e))

is_set-none : {A : Type 0} (o : Option A) → is_set o ≡ false → o ≡ none
is_set-none none h = refl
is_set-none (some x) h = absurd (cc)

fresh_unset : {A : Type 0} (o : Option A) → o ≡ none → is_set o ≡ true → ⊥
fresh_unset none e h = cc
fresh_unset (some x) e h = cc

-- A reconcile of a record that has the finalizer makes deletions that begin the list the deletion
-- mode asks for: .done, sha256sum.txt, the archive, the three indexes and the directory of the
-- package, unless there is no mode or it is RecordOnly, then the snapshots of the record if it is
-- RepositoryDataAndSnapshots; and only if every one of the list has succeeded is the finalizer gone.
pub reconcile_record-IsInOrder :
    (w : RecordWorld) (r : BackupRecord) (now : Time)
    → has_finalizer r ≡ true
    → IsInOrder w (required r) (reconcile_record w r now)
unfolding reconcile_record
reconcile_record-IsInOrder w r now kept =
    let P = IsInOrder w (required r) in
    if-both P
      (not (is_empty w.cluster_ref) && not (str_eq r.spec.identity.cluster_ref w.cluster_ref))
      (plainly r (replied stop)) _
      (λ a. Holds-IsInOrder w (required r) (plainly r (replied stop)) (refl, kept))
      (λ a.
        if-both P (is_set r.meta.deletion_timestamp) (finalize w r now)
          (expire_or_verify w (ensure_finalizer r) now) (λ b. finalize-IsInOrder w r now kept)
          (λ b.
            let (d, k, e) = ensure_finalizer-MayExpire w r now (is_set-none _ b) in
            Holds-IsInOrder w (required r) (expire_or_verify w (ensure_finalizer r) now)
              (d, k kept)))

-- A reconcile of a record that is not being deleted deletes nothing, and marks the record for
-- deletion only if it is past its time, of a one-time backup and not protected; its annotations are
-- then accepted by the validation of a deletion.
pub reconcile_record-MayExpire :
    (w : RecordWorld) (r : BackupRecord) (now : Time)
    → r.meta.deletion_timestamp ≡ none
    → MayExpire r now (reconcile_record w r now)
unfolding reconcile_record
reconcile_record-MayExpire w r now fresh =
    let P = MayExpire r now in
    if-both P
      (not (is_empty w.cluster_ref) && not (str_eq r.spec.identity.cluster_ref w.cluster_ref))
      (plainly r (replied stop)) _ (λ a. (refl, λ h. h, λ n. absurd (n fresh)))
      (λ a.
        if-both P (is_set r.meta.deletion_timestamp) (finalize w r now)
          (expire_or_verify w (ensure_finalizer r) now) (λ b. absurd (fresh_unset _ fresh b))
          (λ b. ensure_finalizer-MayExpire w r now fresh))
