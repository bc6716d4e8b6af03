-- ===== src/Checksum/Manifest.antt =====
-- Manifest and ParseManifest of internal/checksum/checksum.go, on bytes. A map is an association
-- list whose first entry of a key counts.
use backup_restore.Prelude.{
  ℕ, ◌*◌, Bool, true, false, ◌&&◌, ◌||◌, not, List, [], ◌∷◌, ◌++◌, map, Option, none, some, leb,
  ltb, ◌==◌, length, if◌then◌else◌,
}
use mathlib.Core.List.{reverse}
use backup_restore.Checksum.Sums.{to_lower}

abbrev pub Bytes : Type 0
Bytes = List ℕ

-- File names with their sums.
abbrev pub Entries : Type 0
Entries = List (Bytes × Bytes)

unfoldable pub same_bytes : Bytes → Bytes → Bool
same_bytes [] [] = true
same_bytes (a ∷ xs) (b ∷ ys) = a == b && same_bytes xs ys
same_bytes _ _ = false

unfoldable pub find_sum : Bytes → Entries → Option Bytes
unfolding same_bytes
find_sum name [] = none
find_sum name ((other, sum) ∷ entries) =
    if same_bytes other name then some sum else find_sum name entries

abbrev pub sum_or_nothing : Option Bytes → Bytes
sum_or_nothing none = []
sum_or_nothing (some sum) = sum

-- Go's order of strings.
unfoldable pub bytes_before : Bytes → Bytes → Bool
bytes_before [] [] = false
bytes_before [] (b ∷ ys) = true
bytes_before (a ∷ xs) [] = false
bytes_before (a ∷ xs) (b ∷ ys) = ltb a b || (a == b && bytes_before xs ys)

-- sortStrings: the part that is sorted already, from its end to its start, takes the next value.
unfoldable pub sink : Bytes → List Bytes → List Bytes
unfolding bytes_before
sink v [] = v ∷ []
sink v (w ∷ ws) = let further = sink v ws in if bytes_before v w then w ∷ further else v ∷ w ∷ ws

unfoldable pub sort_from : List Bytes → List Bytes → List Bytes
unfolding sink
sort_from sorted [] = reverse sorted
sort_from sorted (v ∷ values) = sort_from (sink v sorted) values

unfoldable pub sort_strings : List Bytes → List Bytes
unfolding sort_from
sort_strings values = sort_from [] values

abbrev pub manifest_line : Bytes → Bytes → Bytes
manifest_line sum name = sum ++ 32 ∷ 32 ∷ name

unfoldable pub print_lines : Entries → List Bytes → Bytes
unfolding find_sum
print_lines entries [] = []
print_lines entries (name ∷ names) =
    manifest_line (sum_or_nothing (find_sum name entries)) name ++ 10 ∷ print_lines entries names

abbrev pub names_of : Entries → List Bytes
names_of [] = []
names_of ((name, sum) ∷ entries) = name ∷ names_of entries

unfoldable pub manifest : Entries → Bytes
unfolding print_lines sort_strings
manifest entries = print_lines entries (sort_strings (names_of entries))

-- bufio.ScanLines, without the carriage returns: a last line needs no line feed.
abbrev pub push_byte : ℕ → List Bytes → List Bytes
push_byte c [] = (c ∷ []) ∷ []
push_byte c (l ∷ ls) = (c ∷ l) ∷ ls

unfoldable pub split_lines : Bytes → List Bytes
split_lines [] = []
split_lines (c ∷ text) =
    let rest = split_lines text in if c == 10 then [] ∷ rest else push_byte c rest

-- A carriage return at the end of a line is dropped.
unfoldable pub strip_cr : Bytes → Bytes
strip_cr [] = []
strip_cr (c ∷ []) = if c == 13 then [] else c ∷ []
strip_cr (c ∷ d ∷ line) = c ∷ strip_cr (d ∷ line)

abbrev pub starts_with_space : Bytes → Bool
starts_with_space [] = false
starts_with_space (c ∷ text) = c == 32

abbrev pub but_first : Bytes → Bytes
but_first [] = []
but_first (c ∷ text) = text

abbrev pub prepend : ℕ → Option (Bytes × Bytes) → Option (Bytes × Bytes)
prepend c none = none
prepend c (some (before, after)) = some (c ∷ before, after)

-- strings.SplitN(line, "  ", 2), where there are two parts.
unfoldable pub cut_at_spaces : Bytes → Option (Bytes × Bytes)
cut_at_spaces [] = none
cut_at_spaces (c ∷ text) =
    let rest = cut_at_spaces text in
    if c == 32 && starts_with_space text then some ([], but_first text) else prepend c rest

abbrev pub is_hex : ℕ → Bool
is_hex c = (leb b'0' c && leb c b'9') || (leb b'a' c && leb c b'f') || (leb b'A' c && leb c b'F')

unfoldable pub all_hex : Bytes → Bool
all_hex [] = true
all_hex (c ∷ text) = is_hex c && all_hex text

abbrev pub check_parts : Option (Bytes × Bytes) → Option (Bytes × Bytes)
unfolding all_hex
check_parts none = none
check_parts (some (sum, name)) =
    if length sum == 64 && not (length name == 0) && all_hex sum
    then some (name, map to_lower sum)
    else none

-- A line, if the scanner takes one of its length.
unfoldable pub parse_line : Bytes → Option (Bytes × Bytes)
unfolding cut_at_spaces strip_cr all_hex
parse_line line =
    if leb (64 * 1024) (length line) then none else check_parts (cut_at_spaces (strip_cr line))

abbrev pub after_line :
    Option (Bytes × Bytes) → Entries → (Entries → Option Entries) → Option Entries
after_line none entries rest = none
after_line (some entry) entries rest = rest (entry ∷ entries)

unfoldable pub parse_lines : List Bytes → Entries → Option Entries
unfolding parse_line
parse_lines [] entries = some entries
parse_lines (line ∷ lines) entries = after_line (parse_line line) entries (parse_lines lines)

-- `none` is an error.
unfoldable pub parse_manifest : Bytes → Option Entries
unfolding parse_lines split_lines
parse_manifest text = parse_lines (split_lines text) []
