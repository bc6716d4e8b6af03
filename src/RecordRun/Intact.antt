-- ===== src/RecordRun/Intact.antt =====
-- A record that is found restorable is intact (verify of internal/controller/record_controller.go).
use backup_restore.Prelude.{
  ℕ, ◌≡◌, refl, subst, ◌⊎◌, inl, inr, Bool, true, false, not, [], ◌∷◌, Option, none, some, arith,
  if-both,
}
use backup_restore.Api.{BackupRecord, Time}
use backup_restore.Errors.{Io, done, failed}
use backup_restore.Checksum.{
  Bytes, Entries, codes, equal_fold, verify_sum, parse_manifest, find_sum, sum_or_nothing,
}
use backup_restore.Backup.{Reply}
use backup_restore.RecordRun.Verify.{
  RecordWorld, RecordReply, replied, path_of, trim_space, mark_broken, broken, mark_unavailable,
  begin_verify, sum_matches, files_match, Missing, missing, not_read, missing_of, settle_record,
  after_missing, archive_name, after_manifest, after_manifest_file, after_marker, after_repository,
  verify_record,
}

abbrev pub Lists : Bytes × Bytes → Entries → Type 0
Lists e [] = ⊥
Lists e (f ∷ entries) = (◌≡◌ {A = Bytes × Bytes} f e) ⊎ Lists e entries

-- Go visits every entry of a map.
abbrev pub VisitsAll : (Entries → Entries) → Type 0
VisitsAll visit =
    (entries : Entries) (name sum : Bytes)
    → find_sum name entries ≡ some sum
    → Lists (name, sum) (visit entries)

-- A file of the record is there and has a sum.
abbrev pub HasSum : RecordWorld → BackupRecord → Bytes → Bytes → Type 0
HasSum w r name sum =
    (bytes : Bytes) × (w.file (path_of r name) ≡ done bytes) × (verify_sum w.sum bytes sum ≡ true)

-- The completion marker has the checksum of the record, the manifest can be read and has it for the
-- archive, and every file of the manifest is there with its sum.
abbrev pub IsIntact : RecordWorld → BackupRecord → Type 0
IsIntact w r =
    ((marker : Bytes) × (w.file (path_of r (codes ".done")) ≡ done marker)
      × (equal_fold (trim_space marker) (codes r.spec.checksum) ≡ true))
    × ((text : Bytes) × (entries : Entries) × (w.file (path_of r (codes "sha256sum.txt"))
          ≡ done text)
        × (parse_manifest text ≡ some entries)
        × (equal_fold (sum_or_nothing (find_sum archive_name entries)) (codes r.spec.checksum)
            ≡ true)
        × ((name sum : Bytes) → find_sum name entries ≡ some sum → HasSum w r name sum))

both : {b : Bool} → b ≡ false → b ≡ true → ⊥
both e f = cc

module _ (w : RecordWorld) (r : BackupRecord) where
  sum_matches-HasSum :
      (name sum : Bytes) (io : Io Bytes)
      → w.file (path_of r name) ≡ io
      → sum_matches w sum io ≡ true
      → HasSum w r name sum
  unfolding verify_sum
  sum_matches-HasSum name sum (failed e) f h = absurd (cc)
  sum_matches-HasSum name sum (done bytes) f h = (bytes, f, h)

  files_match-HasSum :
      (entries : Entries) (name sum : Bytes)
      → files_match w r entries ≡ true
      → Lists (name, sum) entries
      → HasSum w r name sum
  unfolding files_match
  files_match-HasSum [] name sum h l = absurd l
  files_match-HasSum ((n, s) ∷ entries) name sum h (inl e) =
      subst (λ (p : Bytes × Bytes). HasSum w r p.0 p.1) e
        (sum_matches-HasSum n s (w.file (path_of r n)) refl (ground arith))
  files_match-HasSum ((n, s) ∷ entries) name sum h (inr l) =
      files_match-HasSum entries name sum (ground arith) l

  -- What a result means: restorable only if intact.
  abbrev Means : Type 0 → BackupRecord × RecordReply → Type 0
  Means P (later, reply) = (x : Reply) → reply ≡ replied x → later.status.restorable ≡ true → P

  broken-Means : (P : Type 0) → Means P (broken r)
  unfolding mark_broken
  broken-Means P = λ x e h. absurd (cc)

  after_missing-Means :
      (P : Type 0) (stored : BackupRecord) (files : ℕ) (now : Time) (m : Missing)
      → P
      → Means P (after_missing stored r files now m)
  unfolding settle_record
  after_missing-Means P stored files now (missing names) p = λ x e h. p
  after_missing-Means P stored files now (not_read f) p = λ x e h. absurd (cc)

  module _ (visits : VisitsAll w.visit) (stored : BackupRecord) (now : Time) where
    -- What the manifest has.
    abbrev ManifestIsIntact : Option Entries → Type 0
    ManifestIsIntact o =
        (entries : Entries) × (o ≡ some entries)
        × (equal_fold (sum_or_nothing (find_sum archive_name entries)) (codes r.spec.checksum)
            ≡ true)
        × ((name sum : Bytes) → find_sum name entries ≡ some sum → HasSum w r name sum)

    after_manifest-Means :
        (o : Option Entries) → Means (ManifestIsIntact o) (after_manifest w stored r now o)
    unfolding equal_fold find_sum files_match missing_of settle_record mark_broken
    after_manifest-Means none = broken-Means _
    after_manifest-Means (some entries) =
        let anchor =
          equal_fold (sum_or_nothing (find_sum archive_name entries)) (codes r.spec.checksum) in
        let P = Means (ManifestIsIntact (some entries)) in
        if-both P (not anchor) (broken r) _ (λ b. broken-Means _)
          (λ b.
            if-both P (not (files_match w r (w.visit entries))) (broken r) _ (λ c. broken-Means _)
              (λ c. after_missing-Means _ stored _ now (missing_of w.snapshot r.spec.snapshots) (
                entries,
                refl,
                ground arith,
                λ name sum f.
                    files_match-HasSum (w.visit entries) name sum (ground arith)
                      (visits entries name sum f),
              )))

    abbrev FileIsIntact : Io Bytes → Type 0
    FileIsIntact io = (text : Bytes) × (io ≡ done text) × ManifestIsIntact (parse_manifest text)

    after_file-Means :
        (io : Io Bytes) → Means (FileIsIntact io) (after_manifest_file w stored r now io)
    unfolding equal_fold find_sum files_match missing_of settle_record mark_broken parse_manifest
    after_file-Means (failed e) = broken-Means _
    after_file-Means (done text) =
        λ x e h. (text, refl, after_manifest-Means (parse_manifest text) x e h)

    abbrev MarkerIsIntact : Io Bytes → Type 0
    MarkerIsIntact io =
        ((marker : Bytes) × (io ≡ done marker)
          × (equal_fold (trim_space marker) (codes r.spec.checksum) ≡ true))
        × FileIsIntact (w.file (path_of r (codes "sha256sum.txt")))

    after_marker-Means :
        (io : Io Bytes) → Means (MarkerIsIntact io) (after_marker w stored r now io)
    unfolding equal_fold find_sum files_match missing_of settle_record mark_broken parse_manifest
        trim_space
    after_marker-Means (failed e) = broken-Means _
    after_marker-Means (done text) =
        let same = equal_fold (trim_space text) (codes r.spec.checksum) in
        if-both (Means (MarkerIsIntact (done text))) (not same) (broken r) _ (λ b. broken-Means _)
          (λ b x e h. (
            (text, refl, ground arith),
            after_file-Means (w.file (path_of r (codes "sha256sum.txt"))) x e h,
          ))

    after_repository-Means :
        (io : Io (Unit {0}))
        → r.status.restorable ≡ false
        → Means
            (MarkerIsIntact (w.file (path_of r (codes ".done"))))
            (after_repository w stored r now io)
    unfolding equal_fold find_sum files_match missing_of settle_record mark_broken parse_manifest
        trim_space mark_unavailable
    after_repository-Means (failed f) b = λ x e h. absurd (both b h)
    after_repository-Means (done _) b = after_marker-Means (w.file (path_of r (codes ".done")))

-- A call of verify that ends with a result, not with an error for the queue, leaves a record
-- restorable only if it is intact.
pub verify_record-IsIntact :
    (w : RecordWorld) (r : BackupRecord) (now : Time) (reply : Reply)
    → VisitsAll w.visit
    → (verify_record w r now).1 ≡ replied reply
    → (verify_record w r now).0.status.restorable ≡ true
    → IsIntact w r
unfolding verify_record begin_verify
verify_record-IsIntact w r now reply visits e h =
    let ((marker, there, same), (text, has, (entries, parsed, anchored, sums))) =
      after_repository-Means w (begin_verify r) visits r now w.repository refl reply e h in
    ((marker, there, same), (text, entries, has, parsed, anchored, sums))
