-- ===== src/RecordRun/Removed.antt =====
-- What a reconcile of a BackupRecord deletes (internal/controller/record_controller.go).
use backup_restore.Prelude.{
  inr, str_eq→eq, inl, ◌||◌, Bool-cases, is_empty, subst, ◌≡◌, refl, ap, String, Bool, true, false,
  ◌&&◌, not, List, [], ◌∷◌, ◌++◌, map, str_eq, get_text, All, if◌then◌else◌,
}
use backup_restore.Api.{BackupRecord, SnapshotResult, Time}
use backup_restore.Errors.{Io, done, failed}
use backup_restore.Checksum.{codes, Bytes}
use backup_restore.Backup.{contains_string}
use backup_restore.Webhook.Record.{is_delete_mode}
use backup_restore.RecordRun.Verify.{RecordWorld, RecordReply, is_protected}
use backup_restore.RecordRun.Finalize.{
  Deletion, file_deletion, snapshot_deletion, RecordOutcome, plainly, record_finalizer,
  annotation_force_delete, deletion_paths, then_delete, delete_files, delete_snapshots, release,
  note_deleting, delete_mode_of, with_repository, delete_assets, finalize,
}

-- What has to be deleted before the record goes, in this order: in the modes that are not for the
-- record alone, the files of the package from the completion marker on, and the directory.
abbrev pub asked_mode : BackupRecord → String
asked_mode r = get_text "protection.platform.io/delete-mode" r.meta.annotations

abbrev pub in_package : BackupRecord → String → Deletion
in_package r name = file_deletion (codes r.spec.backup_path ++ b'/' ∷ codes name)

abbrev pub required_files : BackupRecord → List Deletion
required_files r =
    if is_empty (asked_mode r) || str_eq (asked_mode r) "RecordOnly"
    then []
    else in_package r ".done"
      ∷ in_package r "sha256sum.txt"
      ∷ in_package r "resources.tar.gz"
      ∷ in_package r "metadata.json"
      ∷ in_package r "index.json"
      ∷ in_package r "snapshots.json"
      ∷ file_deletion (codes r.spec.backup_path)
      ∷ []

abbrev pub required_snapshots : BackupRecord → List Deletion
required_snapshots r =
    if str_eq (asked_mode r) "RepositoryDataAndSnapshots"
    then map snapshot_deletion r.spec.snapshots
    else []

abbrev pub required : BackupRecord → List Deletion
required r = required_files r ++ required_snapshots r

abbrev pub Succeeds : RecordWorld → Deletion → Type 0
Succeeds w (file_deletion path) = w.delete_file path ≡ done tt
Succeeds w (snapshot_deletion s) = w.delete_snapshot s ≡ done tt

abbrev pub has_finalizer : BackupRecord → Bool
has_finalizer r = contains_string r.meta.finalizers record_finalizer

-- The deletions begin a list, and the record keeps its finalizer unless all of the list is done.
abbrev pub IsInOrder : RecordWorld → List Deletion → RecordOutcome → Type 0
IsInOrder w wanted o =
    (rest : List Deletion) × (o.deletions ++ rest ≡ wanted)
    × (has_finalizer o.stored ≡ false → (rest ≡ []) × All (Succeeds w) wanted)

-- Nothing is deleted and the finalizer stays.
abbrev pub Holds : RecordOutcome → Type 0
Holds o = (o.deletions ≡ []) × (has_finalizer o.stored ≡ true)

pub Holds-IsInOrder :
    (w : RecordWorld) (wanted : List Deletion) (o : RecordOutcome) → Holds o → IsInOrder w wanted o
Holds-IsInOrder w wanted o (e, f) = (wanted, ap (λ l. l ++ wanted) e, λ h. cc)

module _ (w : RecordWorld) (r : BackupRecord) (kept : has_finalizer r ≡ true) where
  then_delete-IsInOrder :
      (d : Deletion) (io : Io (Unit {0})) (wanted : List Deletion) (rest : RecordOutcome)
      → (io ≡ done tt → Succeeds w d)
      → IsInOrder w wanted rest
      → IsInOrder w (d ∷ wanted) (then_delete d io rest r)
  then_delete-IsInOrder d (done _) wanted rest s (l, e, f) =
      (l, ap (λ t. d ∷ t) e, λ h. ((f h).0, (s refl, (f h).1)))
  then_delete-IsInOrder d (failed _) wanted rest s i = (wanted, refl, λ h. cc)

  delete_snapshots-IsInOrder :
      (snapshots : List SnapshotResult) (rest : RecordOutcome)
      → IsInOrder w [] rest
      → IsInOrder w
          (map snapshot_deletion snapshots)
          (delete_snapshots w.delete_snapshot snapshots r rest)
  unfolding delete_snapshots
  delete_snapshots-IsInOrder [] rest i = i
  delete_snapshots-IsInOrder (s ∷ snapshots) rest i =
      then_delete-IsInOrder (snapshot_deletion s) (w.delete_snapshot s) _ _ (λ e. e)
        (delete_snapshots-IsInOrder snapshots rest i)

  delete_files-IsInOrder :
      (paths : List Bytes) (wanted : List Deletion) (rest : RecordOutcome)
      → IsInOrder w wanted rest
      → IsInOrder w (map file_deletion paths ++ wanted) (delete_files w.delete_file paths r rest)
  unfolding delete_files
  delete_files-IsInOrder [] wanted rest i = i
  delete_files-IsInOrder (path ∷ paths) wanted rest i =
      then_delete-IsInOrder (file_deletion path) (w.delete_file path) _ _ (λ e. e)
        (delete_files-IsInOrder paths wanted rest i)

  with_repository-IsInOrder :
      (io : Io (Unit {0})) (wanted : List Deletion) (rest : RecordOutcome)
      → IsInOrder w wanted rest
      → IsInOrder w (map file_deletion (deletion_paths r) ++ wanted) (with_repository w r io rest)
  unfolding delete_files
  with_repository-IsInOrder (failed e) wanted rest i = (_, refl, λ h. cc)
  with_repository-IsInOrder (done _) wanted rest i =
      delete_files-IsInOrder (deletion_paths r) wanted rest i

  release-IsInOrder : IsInOrder w [] (release r)
  unfolding release
  release-IsInOrder = ([], refl, λ h. (refl, tt))

  snapshots_part-IsInOrder :
      (b : Bool)
      → IsInOrder w (if b then map snapshot_deletion r.spec.snapshots else []) (
          if b
          then delete_snapshots w.delete_snapshot r.spec.snapshots r (release r)
          else release r)
  unfolding delete_snapshots release
  snapshots_part-IsInOrder true =
      delete_snapshots-IsInOrder r.spec.snapshots (release r) release-IsInOrder
  snapshots_part-IsInOrder false = release-IsInOrder

  files_part-IsInOrder :
      (b : Bool) (wanted : List Deletion) (rest : RecordOutcome)
      → IsInOrder w wanted rest
      → IsInOrder w
          ((if b then [] else map file_deletion (deletion_paths r)) ++ wanted)
          (if not b then with_repository w r w.repository rest else rest)
  unfolding delete_files
  files_part-IsInOrder true wanted rest i = i
  files_part-IsInOrder false wanted rest i = with_repository-IsInOrder w.repository wanted rest i

  delete_assets-IsInOrder :
      (mode : String)
      → IsInOrder w
          ((if str_eq mode "RecordOnly" then [] else map file_deletion (deletion_paths r))
            ++ (if str_eq mode "RepositoryDataAndSnapshots"
                then map snapshot_deletion r.spec.snapshots
                else []))
          (delete_assets w r mode)
  unfolding delete_assets
  delete_assets-IsInOrder mode =
      files_part-IsInOrder (str_eq mode "RecordOnly") _ _
        (snapshots_part-IsInOrder (str_eq mode "RepositoryDataAndSnapshots"))

  -- A call that stops early leaves the record as it is.
  stops-IsInOrder :
      (wanted : List Deletion) (reply : RecordReply) (o : RecordOutcome) (b : Bool)
      → IsInOrder w wanted o
      → IsInOrder w wanted (if b then plainly r reply else o)
  stops-IsInOrder wanted reply o true i = (wanted, refl, λ h. cc)
  stops-IsInOrder wanted reply o false i = i

-- The deletions that the code makes in a mode.
abbrev wanted_in : BackupRecord → String → List Deletion
wanted_in r mode =
    (if str_eq mode "RecordOnly" then [] else map file_deletion (deletion_paths r))
    ++ (if str_eq mode "RepositoryDataAndSnapshots"
        then map snapshot_deletion r.spec.snapshots
        else [])

wanted_in-delete_mode_of : (r : BackupRecord) → wanted_in r (delete_mode_of r) ≡ required r
unfolding get_text
wanted_in-delete_mode_of r = elim (Bool-cases (is_empty (asked_mode r))) [
  | inl unset ↦ rw (str_eq→eq (asked_mode r) "" unset) refl
  | inr other ↦ rw other refl
]

pub finalize-IsInOrder :
    (w : RecordWorld) (r : BackupRecord) (now : Time)
    → has_finalizer r ≡ true
    → IsInOrder w (required r) (finalize w r now)
unfolding finalize is_delete_mode get_text note_deleting
finalize-IsInOrder w r now kept =
    let stops = stops-IsInOrder w r kept (required r) in
    let mode = delete_mode_of r in
    let (rest, e, all_done) =
      subst (λ wanted. IsInOrder w wanted (delete_assets w (note_deleting r mode now) mode))
        (wanted_in-delete_mode_of r)
        (delete_assets-IsInOrder w (note_deleting r mode now) kept mode) in
    stops _ _ (not (contains_string r.meta.finalizers record_finalizer)) (
      stops _ _
        (is_protected r
          && not (str_eq (get_text annotation_force_delete r.meta.annotations) "true"))
        (stops _ (delete_assets w (note_deleting r mode now) mode) (not (is_delete_mode mode))
          (rest, e, all_done)))
