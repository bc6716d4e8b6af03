-- ===== src/Retention/Bounds.antt =====
-- How many records a selection takes: the surplus over MaxCopies, and all that are too old; and
-- the range of MaxAgeDays in which its age is what it says.
use backup_restore.Prelude.{
  ℕ, zero, suc, ◌+◌, ◌-◌, ◌*◌, ◌≤◌, ◌<◌, min, ◌≡◌, sym, subst, String, true, List, [], ◌∷◌, ◌++◌,
  length, take, arith, contains, contains-append, str_eq_refl, All, Bool-cases, inl, inr, ltb→lt,
  All-map, ltb, leb,
}
use backup_restore.Prelude.Int.{ℤ, pos, pos_part, ltb_ℤ, ◌≤ℤ◌, ◌+ℤ◌, +ℤ_parts, sub_ℕ}
use backup_restore.Api.{BackupRecord, RetentionSpec, Time}
use backup_restore.Retention.Defs.{
  eligible, IsSort, names, aged_names, surplus_names, delete_set, select_sorted, select, minus_days,
  day,
}
use backup_restore.Retention.Kept.{IsHit, le-length-collect, select-keeps-min_copies}

IsHit-left :
    (xs ys : List String) (rs : List BackupRecord) → All (IsHit xs) rs → All (IsHit (xs ++ ys)) rs
IsHit-left xs ys [] h = tt
IsHit-left xs ys (r ∷ rs) (e, h) =
    (ground (arith, contains-append xs ys r.meta.name), IsHit-left xs ys rs h)

IsHit-right :
    (xs ys : List String) (rs : List BackupRecord) → All (IsHit ys) rs → All (IsHit (xs ++ ys)) rs
IsHit-right xs ys [] h = tt
IsHit-right xs ys (r ∷ rs) (e, h) =
    (ground (arith, contains-append xs ys r.meta.name), IsHit-right xs ys rs h)

IsHit-cons :
    (x : String) (xs : List String) (rs : List BackupRecord)
    → All (IsHit xs) rs
    → All (IsHit (x ∷ xs)) rs
IsHit-cons x xs rs h = IsHit-right (x ∷ []) xs rs h

hit_head : (x : String) (xs : List String) → contains (x ∷ xs) x ≡ true
unfolding contains
hit_head x xs = ground (arith, str_eq_refl x)

IsHit-own_names : (rs : List BackupRecord) → All (IsHit (names rs)) rs
IsHit-own_names [] = tt
IsHit-own_names (r ∷ rs) =
    (hit_head r.meta.name (names rs), IsHit-cons r.meta.name (names rs) rs (IsHit-own_names rs))

surplus_names_of_lt :
    (max_copies : ℤ) (rs : List BackupRecord)
    → pos 1 ≤ℤ max_copies
    → pos_part max_copies < length rs
    → surplus_names max_copies rs ≡ names (take (length rs - pos_part max_copies) rs)
unfolding surplus_names
surplus_names_of_lt max_copies rs positive more = ground arith

pos_part_mono : (a b : ℤ) → pos 1 ≤ℤ b → a ≤ℤ b → pos_part a ≤ pos_part b
pos_part_mono a b positive h = ground arith

surplus_taken :
    (policy : RetentionSpec) (now : Time) (rs : List BackupRecord)
    → pos 1 ≤ℤ policy.max_copies
    → policy.min_copies ≤ℤ policy.max_copies
    → pos_part policy.max_copies < length rs
    → length rs - pos_part policy.max_copies ≤ length (select_sorted policy now rs)
unfolding select_sorted delete_set
surplus_taken policy now rs positive ordered more =
    let k = length rs - pos_part policy.max_copies in
    le-length-collect (length rs) (pos_part policy.min_copies) _ k 0 rs (omega arith)
      (IsHit-left (surplus_names policy.max_copies rs) _ (take k rs)
        (rw (surplus_names_of_lt policy.max_copies rs positive more) (IsHit-own_names (take k rs))))
      (omega (arith, pos_part_mono policy.min_copies policy.max_copies positive ordered))

-- MaxCopies is positive and at least MinCopies, as validation requires: then at most MaxCopies of
-- the eligible records stay.
pub select-within-max_copies :
    (sort : List BackupRecord → List BackupRecord)
    → IsSort sort
    → (records : List BackupRecord) (policy : RetentionSpec) (now : Time)
    → pos 1 ≤ℤ policy.max_copies
    → policy.min_copies ≤ℤ policy.max_copies
    → length (eligible records)
      ≤ length (select sort records policy now) + pos_part policy.max_copies
unfolding select
select-within-max_copies sort is_sort records policy now positive ordered =
    let sorted = sort (eligible records) in
    elim (Bool-cases (ltb (pos_part policy.max_copies) (length sorted))) [
      | inl more ↦ omega (
        arith,
        is_sort.keeps_length (eligible records),
        surplus_taken policy now sorted positive ordered (ltb→lt _ _ more),
      )
      | inr few ↦ ground (arith, is_sort.keeps_length (eligible records))
    ]

abbrev pub IsBefore : Time → BackupRecord → Type 0
IsBefore cutoff r = ltb_ℤ r.meta.creation_timestamp cutoff ≡ true

aged_names_of_old :
    (n keep : ℕ) (cutoff : Time) (i : ℕ) (r : BackupRecord) (rs : List BackupRecord)
    → suc keep + i ≤ n
    → IsBefore cutoff r
    → aged_names n keep cutoff i (r ∷ rs) ≡ r.meta.name ∷ aged_names n keep cutoff (suc i) rs
unfolding aged_names
aged_names_of_old n keep cutoff i r rs b e = ground arith

aged_hits :
    (n keep : ℕ) (cutoff : Time) (k i : ℕ) (rs : List BackupRecord)
    → k + keep + i ≤ n
    → All (IsBefore cutoff) rs
    → All (IsHit (aged_names n keep cutoff i rs)) (take k rs)
aged_hits n keep cutoff zero i rs b h = tt
aged_hits n keep cutoff (suc k) i [] b h = tt
aged_hits n keep cutoff (suc k) i (r ∷ rs) b (e, h) =
    subst (λ del. All (IsHit del) (r ∷ take k rs))
      (sym (aged_names_of_old n keep cutoff i r rs (omega arith) e))
      (
        hit_head r.meta.name (aged_names n keep cutoff (suc i) rs),
        IsHit-cons r.meta.name _ (take k rs) (aged_hits n keep cutoff k (suc i) rs (omega arith) h),
      )

delete_set_of_days :
    (policy : RetentionSpec) (now : Time) (rs : List BackupRecord)
    → pos 1 ≤ℤ policy.max_age_days
    → delete_set policy now rs
      ≡ surplus_names policy.max_copies rs
        ++ aged_names
            (length rs)
            (pos_part policy.min_copies)
            (now +ℤ minus_days policy.max_age_days)
            0
            rs
unfolding delete_set
delete_set_of_days policy now rs positive = ground arith

select_sorted-aged_out :
    (policy : RetentionSpec) (now : Time) (rs : List BackupRecord)
    → pos 1 ≤ℤ policy.max_age_days
    → All (IsBefore (now +ℤ minus_days policy.max_age_days)) rs
    → length rs - pos_part policy.min_copies ≤ length (select_sorted policy now rs)
unfolding select_sorted
select_sorted-aged_out policy now rs positive old =
    let k = length rs - pos_part policy.min_copies in
    elim (Bool-cases (leb (length rs) (pos_part policy.min_copies))) [
      | inl few ↦ ground arith
      | inr more ↦
          le-length-collect (length rs) (pos_part policy.min_copies) (delete_set policy now rs) k 0
            rs (omega arith)
            (rw (delete_set_of_days policy now rs positive) (
              IsHit-right (surplus_names policy.max_copies rs) _ (take k rs)
                (aged_hits (length rs) (pos_part policy.min_copies) _ k 0 rs (ground arith) old)))
            (omega arith)
    ]

-- When every eligible record was created before the cutoff that is computed from MaxAgeDays, all
-- of them go but MinCopies (or all stay, if there are no more).
select-aged_out :
    (sort : List BackupRecord → List BackupRecord)
    → IsSort sort
    → (records : List BackupRecord) (policy : RetentionSpec) (now : Time)
    → pos 1 ≤ℤ policy.max_age_days
    → All (IsBefore (now +ℤ minus_days policy.max_age_days)) (eligible records)
    → length (select sort records policy now)
        + min (pos_part policy.min_copies) (length (eligible records))
      ≡ length (eligible records)
unfolding select
select-aged_out sort is_sort records policy now positive old = omega (
  arith,
  is_sort.keeps_length (eligible records),
  select-keeps-min_copies sort is_sort records policy now,
  select_sorted-aged_out policy now (sort (eligible records)) positive
      (is_sort.keeps_all (IsBefore (now +ℤ minus_days policy.max_age_days)) (eligible records) old),
)

-- Up to 106751 days the cutoff is where it should be.
minus_days_exact : (d : ℕ) → d ≤ 106751 → minus_days (pos d) ≡ sub_ℕ 0 (d * day)
unfolding minus_days
minus_days_exact d h = ground arith

-- From 106752 days on the product overflows, and the cutoff lies in the future.
pub minus_days_overflow : (d : ℕ) → 106752 ≤ d → d ≤ 213503 → pos 1 ≤ℤ minus_days (pos d)
unfolding minus_days
minus_days_overflow d h k = ground arith

IsBefore-overflow :
    (now : Time) (d : ℕ) (r : BackupRecord)
    → 106752 ≤ d
    → d ≤ 213503
    → r.meta.creation_timestamp ≤ℤ now
    → IsBefore (now +ℤ minus_days (pos d)) r
IsBefore-overflow now d r h k past =
    ground (arith, minus_days_overflow d h k, +ℤ_parts now (minus_days (pos d)))

-- A MaxAgeDays from 106752 to 213503 selects every eligible record but MinCopies of them, also
-- those that were created just now.
pub select-overflow :
    (sort : List BackupRecord → List BackupRecord)
    → IsSort sort
    → (records : List BackupRecord) (policy : RetentionSpec) (now : Time) (d : ℕ)
    → policy.max_age_days ≡ pos d
    → 106752 ≤ d
    → d ≤ 213503
    → All (λ r. r.meta.creation_timestamp ≤ℤ now) (eligible records)
    → length (select sort records policy now)
        + min (pos_part policy.min_copies) (length (eligible records))
      ≡ length (eligible records)
select-overflow sort is_sort records policy now d days h k past =
    select-aged_out sort is_sort records policy now (rw days (omega arith)) (
      rw days (
        All-map (λ r. r.meta.creation_timestamp ≤ℤ now) (IsBefore (now +ℤ minus_days (pos d)))
          (λ r old. IsBefore-overflow now d r h k old) (eligible records) past))
