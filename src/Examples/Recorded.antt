-- ===== src/Examples/Recorded.antt =====
-- The theorems on the reconciler of a BackupRecord at work.
use backup_restore.Prelude.{
  ◌∙◌, Bool-cases, if◌then◌else◌, ◌*◌, ◌≡◌, refl, [], ◌∷◌, ◌++◌, true, false, inl, inr, some,
  String, sym,
}
use backup_restore.Prelude.Int.{pos}
use backup_restore.Api.{BackupRecord}
use backup_restore.Errors.{other_error, Io, done, failed}
use backup_restore.Webhook.Defaults.{hour}
use backup_restore.Backup.{requeue_after, contains_string}
use backup_restore.Checksum.{
  same_bytes→eq, parse_manifest, equal_fold, Bytes, Entries, codes, same_bytes, find_sum,
}
use backup_restore.RestoreRun.{not_found}
use backup_restore.Webhook.Record.{annotation_delete_mode}
use backup_restore.RecordRun.{
  begin_verify, settle_record, missing_of, files_match, trim_space, RecordWorld, replied,
  verify_record, reconcile_record, record_finalizer,
}
use backup_restore.RecordRun.Intact.{Lists, IsIntact, verify_record-IsIntact}
use backup_restore.RecordRun.Removed.{IsInOrder, required, has_finalizer}
use backup_restore.RecordRun.Expired.{
  MayExpire, reconcile_record-IsInOrder, reconcile_record-MayExpire,
}
use backup_restore.Examples.Samples.{record_spec, record_status, meta_of}

-- Every file of the repository has the checksum of the record for its bytes, which is the sum of
-- everything, but for the manifest.
abbrev sum_text : String
sum_text = "0000000000000000000000000000000000000000000000000000000000000000"

abbrev stored_file : Bytes → Io Bytes
unfolding same_bytes
stored_file path =
    if same_bytes path (codes "prod/b1/sha256sum.txt")
    then done (codes sum_text ++ codes "  resources.tar.gz" ++ 10 ∷ [])
    else done (codes sum_text)

abbrev world : RecordWorld
world = record {
  cluster_ref = "prod";
  repository = done tt;
  file = stored_file;
  sum = λ bytes. codes sum_text;
  visit = λ entries. entries;
  snapshot = λ s. not_found;
  delete_file = λ path. done tt;
  delete_snapshot = λ s. failed other_error;
}

found_in_list :
    (entries : Entries) (name sum : Bytes)
    → find_sum name entries ≡ some sum
    → Lists (name, sum) entries
unfolding find_sum
found_in_list [] name sum h = absurd (cc)
found_in_list ((n, s) ∷ entries) name sum h = elim (Bool-cases (same_bytes n name)) [
  | inl b ↦
      let h' : some s ≡ some sum = sym (rw b refl) ∙ h in inl (cc (same_bytes→eq n name b, h'))
  | inr b ↦
      let h' : find_sum name entries ≡ some sum = sym (rw b refl) ∙ h in
      inr (found_in_list entries name sum h')
]

abbrev sealed : BackupRecord
sealed = record {
  meta = record (meta_of "record-1" (pos 0)) { finalizers = record_finalizer ∷ [] };
  spec = record record_spec { checksum = sum_text };
  status = record_status false;
}

sealed-replied : (verify_record world sealed (pos 1)).1 ≡ replied (requeue_after (pos (6 * hour)))
unfolding verify_record trim_space equal_fold parse_manifest find_sum files_match missing_of
    settle_record begin_verify
sealed-replied = refl

sealed-restorable : (verify_record world sealed (pos 1)).0.status.restorable ≡ true
unfolding verify_record trim_space equal_fold parse_manifest find_sum files_match missing_of
    settle_record begin_verify
sealed-restorable = refl

verify_record-IsIntact_example : IsIntact world sealed
verify_record-IsIntact_example =
    verify_record-IsIntact world sealed (pos 1) (requeue_after (pos (6 * hour)))
      (λ entries name sum h. found_in_list entries name sum h) sealed-replied sealed-restorable

-- A record that is deleted with its data.
abbrev deleted : BackupRecord
deleted = record sealed {
  meta = record (sealed.meta) {
    deletion_timestamp = some (pos 1);
    annotations = (annotation_delete_mode, "RepositoryData") ∷ [];
  };
}

deleted-has_finalizer : has_finalizer deleted ≡ true
unfolding contains_string
deleted-has_finalizer = refl

reconcile_record-IsInOrder_example :
    IsInOrder world (required deleted) (reconcile_record world deleted (pos 2))
reconcile_record-IsInOrder_example =
    reconcile_record-IsInOrder world deleted (pos 2) deleted-has_finalizer

-- A record that is past its time.
abbrev expired : BackupRecord
expired = record sealed { spec = record (sealed.spec) { expires_at = some (pos 5) } }

reconcile_record-MayExpire_example :
    MayExpire expired (pos 9) (reconcile_record world expired (pos 9))
reconcile_record-MayExpire_example = reconcile_record-MayExpire world expired (pos 9) refl
