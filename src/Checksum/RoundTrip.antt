-- ===== src/Checksum/RoundTrip.antt =====
-- What Manifest writes, ParseManifest reads (internal/checksum/checksum.go).
use backup_restore.Prelude.{
  ℕ, ◌<◌, ◌≡◌, ◌≢◌, refl, sym, ◌∙◌, ap, subst, inl, inr, true, false, List, [], ◌∷◌, ◌++◌, map,
  Option, none, some, arith, leb, ◌==◌, length, length-append, All, All-append, ◌*◌, Bool-cases,
  if◌then◌else◌,
}
use backup_restore.Checksum.Sums.{to_lower}
use backup_restore.Checksum.Names.{
  has_name, has_name-sort, All-has_name, find_sum-names, find_sum-All, same_bytes→eq,
}
use backup_restore.Checksum.Manifest.{
  Bytes, Entries, find_sum, sum_or_nothing, sort_strings, manifest_line, print_lines, names_of,
  manifest, split_lines, strip_cr, cut_at_spaces, is_hex, all_hex, check_parts, parse_line,
  after_line, parse_lines, parse_manifest,
}

-- A sum of 64 hexadecimal digits, and a name that is not empty, has no line feed, does not end in a
-- carriage return and leaves the line short enough for the scanner.
abbrev pub IsSum : Bytes → Type 0
IsSum sum = (length sum ≡ 64) × (all_hex sum ≡ true)

abbrev pub IsFileName : Bytes → Type 0
IsFileName name =
    (0 < length name) × All (λ c. c ≢ 10) name × (strip_cr name ≡ name) × (length name < 65000)

abbrev pub IsEntry : Bytes × Bytes → Type 0
IsEntry (name, sum) = IsFileName name × IsSum sum

split_lines-line :
    (line rest : Bytes)
    → All (λ c. c ≢ 10) line
    → split_lines (line ++ 10 ∷ rest) ≡ line ∷ split_lines rest
unfolding split_lines
split_lines-line [] rest h = refl
split_lines-line (c ∷ line) rest (n, h) =
    let other : (c == 10) ≡ false = ground (arith, n) in
    rw (other, split_lines-line line rest h) refl

strip_cr-append :
    (xs : Bytes) (c : ℕ) (ys : Bytes) → strip_cr (xs ++ c ∷ ys) ≡ xs ++ strip_cr (c ∷ ys)
unfolding strip_cr
strip_cr-append [] c ys = refl
strip_cr-append (x ∷ []) c ys = refl
strip_cr-append (x ∷ y ∷ xs) c ys = ap (λ t. x ∷ t) (strip_cr-append (y ∷ xs) c ys)

hex-ne : (c : ℕ) → is_hex c ≡ true → (c == 32) ≡ false
hex-ne c h = ground arith

cut_at_spaces-line :
    (sum name : Bytes)
    → all_hex sum ≡ true
    → cut_at_spaces (manifest_line sum name) ≡ some (sum, name)
unfolding cut_at_spaces all_hex
cut_at_spaces-line [] name h = refl
cut_at_spaces-line (c ∷ sum) name h =
    rw (hex-ne c (ground arith), cut_at_spaces-line sum name (ground arith)) refl

hex-not_feed : (sum : Bytes) → all_hex sum ≡ true → All (λ c. c ≢ 10) sum
unfolding all_hex
hex-not_feed [] h = tt
hex-not_feed (c ∷ sum) h = (λ e. absurd (ground arith), hex-not_feed sum (ground arith))

strip_cr-line :
    (sum name : Bytes)
    → 0 < length name
    → strip_cr name ≡ name
    → strip_cr (manifest_line sum name) ≡ manifest_line sum name
unfolding strip_cr
strip_cr-line sum [] p h = absurd (omega arith)
strip_cr-line sum (d ∷ name) p h =
    strip_cr-append sum 32 (32 ∷ d ∷ name) ∙ ap (λ t. sum ++ 32 ∷ 32 ∷ t) h

check_parts-entry :
    (sum name : Bytes)
    → IsSum sum
    → 0 < length name
    → check_parts (some (sum, name)) ≡ some (name, map to_lower sum)
unfolding all_hex
check_parts-entry sum name (l, h) p = ground arith

short_line :
    (sum name : Bytes)
    → length sum ≡ 64
    → length name < 65000
    → leb (64 * 1024) (length (manifest_line sum name)) ≡ false
short_line sum name l h = ground (arith, length-append sum (32 ∷ 32 ∷ name))

parse_line-line :
    (sum name : Bytes)
    → IsSum sum
    → IsFileName name
    → parse_line (manifest_line sum name) ≡ some (name, map to_lower sum)
unfolding parse_line
parse_line-line sum name s n =
    rw
      (
        short_line sum name s.0 n.3,
        strip_cr-line sum name n.0 n.2,
        cut_at_spaces-line sum name (s.1),
      )
      (check_parts-entry sum name s n.0)

-- The entries that the lines of some names give, behind others.
lowered : Entries → List Bytes → Entries → Entries
lowered m [] acc = acc
lowered m (n ∷ names) acc =
    lowered m names ((n, map to_lower (sum_or_nothing (find_sum n m))) ∷ acc)

-- What every name that is printed has.
abbrev IsPrintable : Entries → Bytes → Type 0
IsPrintable m n = IsFileName n × IsSum (sum_or_nothing (find_sum n m))

line_no_feed :
    (sum name : Bytes) → IsSum sum → IsFileName name → All (λ c. c ≢ 10) (manifest_line sum name)
line_no_feed sum name s n =
    All-append (λ c. c ≢ 10) sum (32 ∷ 32 ∷ name) (hex-not_feed sum (s.1))
      (λ e. absurd (omega arith), (λ e. absurd (omega arith), n.1))

parse_lines-print :
    (m : Entries) (names : List Bytes) (acc : Entries)
    → All (IsPrintable m) names
    → parse_lines (split_lines (print_lines m names)) acc ≡ some (lowered m names acc)
unfolding parse_lines print_lines lowered split_lines
parse_lines-print m [] acc h = refl
parse_lines-print m (n ∷ names) acc ((f, s), h) =
    let sum = sum_or_nothing (find_sum n m) in
    let rest = print_lines m names in
    ap (λ ls. parse_lines ls acc)
      (split_lines-line (manifest_line sum n) rest (line_no_feed sum n s f))
    ∙ ap (λ o. after_line o acc (parse_lines (split_lines rest))) (parse_line-line sum n s f)
    ∙ parse_lines-print m names ((n, map to_lower sum) ∷ acc) h

find_sum-lowered :
    (m : Entries) (k : Bytes) (names : List Bytes) (acc : Entries)
    → find_sum k (lowered m names acc) ≡ (
        if has_name k names
        then some (map to_lower (sum_or_nothing (find_sum k m)))
        else find_sum k acc)
unfolding lowered has_name find_sum
find_sum-lowered m k [] acc = refl
find_sum-lowered m k (n ∷ names) acc =
    find_sum-lowered m k names ((n, map to_lower (sum_or_nothing (find_sum n m))) ∷ acc)
    ∙ ground (arith, same_bytes→eq n k)

-- The names of the map, sorted, can all be printed.
sorted-IsPrintable :
    (m : Entries)
    → All IsEntry m
    → (names : List Bytes) → All (λ n. has_name n (names_of m) ≡ true) names
    → All (IsPrintable m) names
sorted-IsPrintable m h [] l = tt
sorted-IsPrintable m h (n ∷ names) (b, l) =
    let (s, found) = (find_sum-names n m).0 b in
    let (file, sum) = find_sum-All IsEntry n m s h found in
    ((file, subst (λ o. IsSum (sum_or_nothing o)) (sym found) sum), sorted-IsPrintable m h names l)

-- What the map has for a name, in lower case.
abbrev pub lower_sum : Option Bytes → Option Bytes
lower_sum none = none
lower_sum (some sum) = some (map to_lower sum)

of_names :
    (m : Entries) (k : Bytes)
    → (if has_name k (names_of m)
        then some (map to_lower (sum_or_nothing (find_sum k m)))
        else none)
      ≡ lower_sum (find_sum k m)
of_names m k = elim (Bool-cases (has_name k (names_of m))) [
  | inl b ↦ let (s, found) = (find_sum-names k m).0 b in rw (b, found) refl
  | inr b ↦ rw (b, (find_sum-names k m).1 b) refl
]

-- A manifest of files with sums of 64 hexadecimal digits and with names that a line can hold is
-- read without an error, and has for every name the sum that the map had, in lower case, and no
-- other names; in whatever order the map is visited.
pub parse_manifest-manifest :
    (m : Entries)
    → All IsEntry m
    → (read : Entries) × (parse_manifest (manifest m) ≡ some read)
      × ((k : Bytes) → find_sum k read ≡ lower_sum (find_sum k m))
unfolding parse_manifest manifest find_sum
parse_manifest-manifest m h =
    let names = sort_strings (names_of m) in
    let listed = All-has_name (names_of m) names (λ k b. sym (has_name-sort k (names_of m)) ∙ b) in
    (
      lowered m names [],
      parse_lines-print m names [] (sorted-IsPrintable m h names listed),
      λ k.
          find_sum-lowered m k names []
          ∙ ap (λ b. if b then some (map to_lower (sum_or_nothing (find_sum k m))) else none)
              (has_name-sort k (names_of m))
          ∙ of_names m k,
    )
