-- ===== src/Retention/Kept.antt =====
-- How many records a selection leaves, and which it never takes.
use backup_restore.Prelude.{
  ℕ, zero, suc, ◌+◌, ◌-◌, ◌≤◌, min, ◌≡◌, String, true, false, List, [], ◌∷◌, length, take, arith,
  contains, All, Bool-cases, inl, inr, ◌&&◌, ltb,
}
use backup_restore.Prelude.Int.{pos_part}
use backup_restore.Api.{BackupRecord, RetentionSpec, Time}
use backup_restore.Retention.Defs.{
  protected, is_busy, eligible, IsSort, delete_set, collect, select_sorted, select,
}

length-collect :
    (n keep : ℕ) (del : List String) (done : ℕ) (rs : List BackupRecord)
    → done ≤ n - keep
    → done + length (collect n keep del done rs) ≤ n - keep
unfolding collect
length-collect n keep del done [] h = omega arith
length-collect n keep del done (r ∷ rs) h =
    ground (arith, length-collect n keep del (suc done) rs, length-collect n keep del done rs)

-- At least MinCopies of the eligible records stay, or all of them if there are fewer.
pub select-keeps-min_copies :
    (sort : List BackupRecord → List BackupRecord)
    → IsSort sort
    → (records : List BackupRecord) (policy : RetentionSpec) (now : Time)
    → length (select sort records policy now)
        + min (pos_part policy.min_copies) (length (eligible records))
      ≤ length (eligible records)
unfolding select select_sorted
select-keeps-min_copies sort is_sort records policy now = omega (
  arith,
  is_sort.keeps_length (eligible records),
  length-collect (length (sort (eligible records))) (pos_part policy.min_copies)
      (delete_set policy now (sort (eligible records))) 0 (sort (eligible records)),
)

collect-All :
    (P : BackupRecord → Type 0) (n keep : ℕ) (del : List String) (done : ℕ) (rs : List BackupRecord)
    → All P rs
    → All P (collect n keep del done rs)
unfolding collect
collect-All P n keep del done [] h = tt
collect-All P n keep del done (r ∷ rs) (p, h) =
    elim (Bool-cases (contains del r.meta.name && ltb keep (n - done))) [
      | inl e ↦ rw e (p, collect-All P n keep del (suc done) rs h)
      | inr e ↦ rw e (collect-All P n keep del done rs h)
    ]

-- Neither protected nor being verified or deleted.
abbrev pub IsEligible : BackupRecord → Type 0
IsEligible r = (protected r ≡ false) × (is_busy r.status.phase ≡ false)

eligible-All :
    (P : BackupRecord → Type 0) (rs : List BackupRecord)
    → All P rs
    → All (λ r. P r × IsEligible r) (eligible rs)
unfolding eligible
eligible-All P [] h = tt
eligible-All P (r ∷ rs) (p, h) = ground (arith, eligible-All P rs h)

-- A selected record is one of the records (what holds of all of them holds of it), is not
-- protected by its status or its annotation, and is not being verified or deleted.
pub select-IsEligible :
    (sort : List BackupRecord → List BackupRecord)
    → IsSort sort
    → (P : BackupRecord → Type 0) (records : List BackupRecord) (policy : RetentionSpec)
      (now : Time)
    → All P records
    → All (λ r. P r × IsEligible r) (select sort records policy now)
unfolding select select_sorted
select-IsEligible sort is_sort P records policy now h =
    collect-All (λ r. P r × IsEligible r) _ _ _ 0 (sort (eligible records))
      (is_sort.keeps_all (λ r. P r × IsEligible r) (eligible records) (eligible-All P records h))

-- The first k records are all in the set of names.
abbrev pub IsHit : List String → BackupRecord → Type 0
IsHit del r = contains del r.meta.name ≡ true

pub le-length-collect :
    (n keep : ℕ) (del : List String) (k done : ℕ) (rs : List BackupRecord)
    → k ≤ length rs
    → All (IsHit del) (take k rs)
    → done + k ≤ n - keep
    → k ≤ length (collect n keep del done rs)
unfolding collect
le-length-collect n keep del zero done rs l h b = omega arith
le-length-collect n keep del (suc k) done [] l h b = omega arith
le-length-collect n keep del (suc k) done (r ∷ rs) l (e, h) b =
    ground (arith, le-length-collect n keep del k (suc done) rs (omega arith) h)
