-- ===== src/Examples/Retained.antt =====
-- The theorems of Retention at work, with an insertion sort for sort.Slice.
use backup_restore.Prelude.{
  ◌≡◌, ◌+◌, ◌*◌, ◌≤◌, min, refl, true, false, List, [], ◌∷◌, arith, length, All, get_text, contains,
}
use backup_restore.Prelude.Int.{pos, ◌≤ℤ◌, ◌+ℤ◌}
use backup_restore.Prelude.Sort.{
  insert_sorted, sort_by, length-sort_by, sort_by-All, sort_by-IsSorted,
}
use backup_restore.Api.{BackupRecord, Time}
use backup_restore.Retention.{older, IsSort, eligible, select, day, protected, wrap64}
use backup_restore.Retention.Kept.{select-keeps-min_copies}
use backup_restore.Retention.Bounds.{select-within-max_copies, select-overflow}
use backup_restore.Examples.Samples.{record_at, retention}

abbrev pub older_sort : List BackupRecord → List BackupRecord
older_sort = sort_by older

older-asym : (x y : BackupRecord) → older x y ≡ true → older y x ≡ false
older-asym x y h = ground arith

pub older_sort-IsSort : IsSort older_sort
older_sort-IsSort = record {
  keeps_length = length-sort_by older;
  keeps_all = sort_by-All older;
  sorts = sort_by-IsSorted older older-asym;
}

abbrev three : List BackupRecord
three = record_at "c" 300 false ∷ record_at "a" 100 false ∷ record_at "b" 200 true ∷ []

-- One of the two records that are not protected is too many.
one_selected : length (select older_sort three (retention 1 1 30) (pos 400)) ≡ 1
unfolding select sort_by insert_sorted protected wrap64 get_text contains ◌+ℤ◌
one_selected = refl

select-keeps-min_copies_example :
    length (select older_sort three (retention 1 1 30) (pos 400)) + min 1 (length (eligible three))
    ≤ length (eligible three)
select-keeps-min_copies_example =
    select-keeps-min_copies older_sort older_sort-IsSort three (retention 1 1 30) (pos 400)

select-within-max_copies_example :
    length (eligible three) ≤ length (select older_sort three (retention 1 1 30) (pos 400)) + 1
select-within-max_copies_example =
    select-within-max_copies older_sort older_sort-IsSort three (retention 1 1 30) (pos 400)
      (omega arith) (omega arith)

-- 40 days after the first of January 1970.
abbrev later : Time
later = pos (40 * day)

three_past : All (λ r. r.meta.creation_timestamp ≤ℤ later) (eligible three)
unfolding eligible protected get_text
three_past = (omega arith, (omega arith, tt))

select-overflow_example :
    length (select older_sort three (retention 7 1 106752) later) + min 1 (length (eligible three))
    ≡ length (eligible three)
select-overflow_example =
    select-overflow older_sort older_sort-IsSort three (retention 7 1 106752) later 106752 refl
      (omega arith) (omega arith) three_past
