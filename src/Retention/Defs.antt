-- ===== src/Retention/Defs.antt =====
-- Select and protected of internal/retention/retention.go.
use backup_restore.Prelude.{
  ℕ, suc, ◌-◌, ◌*◌, ◌%◌, ◌^◌, ◌≡◌, String, Bool, true, false, not, ◌||◌, ◌&&◌, List, [], ◌∷◌, ◌++◌,
  map, length, take, leb, ltb, str_eq, get_text, contains, if◌then◌else◌, All,
}
use backup_restore.Prelude.Int.{ℤ, pos, negsuc, pos_part, ltb_ℤ, sub_ℕ, ◌+ℤ◌}
use backup_restore.Prelude.Sort.{IsSorted}
use backup_restore.Api.{BackupRecord, RecordPhase, RetentionSpec, Time, Duration}

abbrev pub annotation_protected : String
annotation_protected = "protection.platform.io/protected"

unfoldable pub protected : BackupRecord → Bool
protected r = r.status.protected || str_eq (get_text annotation_protected r.meta.annotations) "true"

abbrev pub is_busy : RecordPhase → Bool
is_busy RecordPhase.verifying = true
is_busy RecordPhase.deleting = true
is_busy _ = false

unfoldable pub eligible : List BackupRecord → List BackupRecord
eligible [] = []
eligible (r ∷ records) =
    let rest = eligible records in if protected r || is_busy r.status.phase then rest else r ∷ rest

-- Time.Before on the creation times: the order that sort.Slice is given.
abbrev pub older : BackupRecord → BackupRecord → Bool
older a b = ltb_ℤ a.meta.creation_timestamp b.meta.creation_timestamp

-- What sort.Slice promises: the same records (their number, and every property that all of them
-- have), in order. Records of one creation time may come in any order.
pub record IsSort (sort : List BackupRecord → List BackupRecord) : Type 1 where
  pub keeps_length : (rs : List BackupRecord) → length (sort rs) ≡ length rs
  pub keeps_all : (P : BackupRecord → Type 0) (rs : List BackupRecord) → All P rs → All P (sort rs)
  pub sorts : (rs : List BackupRecord) → IsSorted older (sort rs)

abbrev pub names : List BackupRecord → List String
names = map (λ r. r.meta.name)

-- An int64: the residue modulo 2^64 that lies from -2^63 up to 2^63 - 1.
abbrev pub int64_mod : ℕ
int64_mod = 2 ^ 64

abbrev pub signed64 : ℕ → ℤ
signed64 n = if ltb n (2 ^ 63) then pos n else sub_ℕ n int64_mod

unfoldable pub wrap64 : ℤ → ℤ
wrap64 (pos n) = signed64 (n % int64_mod)
wrap64 (negsuc n) = signed64 ((int64_mod - suc n % int64_mod) % int64_mod)

abbrev pub day : ℕ
day = 24 * (3600 * 1000000000)

-- -time.Duration(days) * 24 * time.Hour for a positive number of days.
unfoldable pub minus_days : ℤ → Duration
unfolding wrap64
minus_days days = wrap64 (sub_ℕ 0 (pos_part days * day))

-- The first loop: all but the newest `max_copies`.
unfoldable pub surplus_names : ℤ → List BackupRecord → List String
surplus_names max_copies rs =
    if ltb_ℤ (pos 0) max_copies && ltb (pos_part max_copies) (length rs)
    then names (take (length rs - pos_part max_copies) rs)
    else []

-- The second loop, from position i on, of n records: those created before the cutoff, but never
-- one of the last `keep`.
unfoldable pub aged_names : ℕ → ℕ → Time → ℕ → List BackupRecord → List String
aged_names n keep cutoff i [] = []
aged_names n keep cutoff i (r ∷ rs) =
    let rest = aged_names n keep cutoff (suc i) rs in
    if not (leb (n - i) keep) && ltb_ℤ r.meta.creation_timestamp cutoff
    then r.meta.name ∷ rest
    else rest

unfoldable pub delete_set : RetentionSpec → Time → List BackupRecord → List String
unfolding surplus_names aged_names minus_days
delete_set policy now rs =
    surplus_names policy.max_copies rs
    ++ (if ltb_ℤ (pos 0) policy.max_age_days
        then aged_names (length rs) (pos_part policy.min_copies)
            (now +ℤ minus_days policy.max_age_days) 0 rs
        else [])

-- The last loop, with `done` records selected so far.
unfoldable pub collect : ℕ → ℕ → List String → ℕ → List BackupRecord → List BackupRecord
collect n keep names done [] = []
collect n keep names done (r ∷ rs) =
    let taken = r ∷ collect n keep names (suc done) rs in
    let skipped = collect n keep names done rs in
    if contains names r.meta.name && ltb keep (n - done) then taken else skipped

-- Select, from its sorted list on; `int(MinCopies)` is raised to 0.
unfoldable pub select_sorted : RetentionSpec → Time → List BackupRecord → List BackupRecord
unfolding delete_set collect
select_sorted policy now rs =
    collect (length rs) (pos_part policy.min_copies) (delete_set policy now rs) 0 rs

unfoldable pub select :
    (List BackupRecord → List BackupRecord)
    → List BackupRecord
    → RetentionSpec
    → Time
    → List BackupRecord
unfolding select_sorted eligible
select sort records policy now = select_sorted policy now (sort (eligible records))
