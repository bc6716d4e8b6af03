-- ===== src/Local/Defs.antt =====
-- securePath, Put and Get of internal/repository/local/local.go, with the separator of Unix. The
-- files are a function of their paths; a removal of a temporary file succeeds, and the context is
-- not cancelled.
use backup_restore.Prelude.{
  String, Bool, true, false, ◌||◌, List, [], ◌∷◌, Option, none, some, is_empty, str_eq, str_append,
  if◌then◌else◌,
}
use backup_restore.Errors.{Failure, operator_error, other_error, Io, done, failed}
use backup_restore.Paths.{is_abs, clean, split_slash}
use backup_restore.Checksum.{Bytes}

abbrev pub Files : Type 0
Files = String → Option Bytes

unfoldable pub set_file : String → Option Bytes → Files → Files
set_file path content files = λ p. if str_eq path p then content else files p

pub data Lstat : Type 0 where
  missing symlink other_file : Lstat
  lstat_failed : Failure → Lstat

-- What the calls of the operating system end with.
pub record Disk : Type 0 where
  pub root : String
  pub lstat : String → Lstat
  pub directory_made : Io (Unit {0})
  pub uuid : String
  pub opened : Io (Unit {0})
  pub synced : Io (Unit {0})
  pub closed : Io (Unit {0})
  pub first_rename : Io (Unit {0})
  -- A target that is missing already counts as removed.
  pub target_removed : Io (Unit {0})
  pub second_rename : Io (Unit {0})

abbrev pub path_error : Bool → Failure
path_error retryable = operator_error "BR-REPO-PATH-003" retryable

abbrev pub under : String → String → String
under root path = str_append root (str_append "/" path)

-- Whether a text is ".." or begins with "../": its first part is "..".
abbrev pub begins_up : List String → Bool
begins_up [] = false
begins_up (part ∷ parts) = str_eq part ".."

-- The loop over the parts: a symbolic link or an error stops it, a missing part ends it.
abbrev pub after_lstat : Lstat → Option Failure → Option Failure
after_lstat missing rest = none
after_lstat symlink rest = some (path_error false)
after_lstat (lstat_failed e) rest = some (path_error false)
after_lstat other_file rest = rest

unfoldable pub inspect : (String → Lstat) → String → List String → Option Failure
inspect lstat current [] = none
inspect lstat current (part ∷ parts) =
    after_lstat (lstat (under current part)) (inspect lstat (under current part) parts)

abbrev pub inspected : String → Option Failure → Io String
inspected target none = done target
inspected target (some e) = failed e

-- The root is an absolute path in the form that Clean gives, so that Join and Rel only put it in
-- front and take it away again.
unfoldable pub secure_path : Disk → String → Io String
unfolding clean split_slash inspect
secure_path disk path =
    if is_empty path || is_abs path
    then failed (path_error false)
    else if str_eq (clean path) "." || begins_up (split_slash (clean path))
    then failed (path_error false)
    else inspected (under disk.root (clean path))
        (inspect disk.lstat disk.root (split_slash (clean path)))

-- A Put that fails removes its temporary file.
abbrev pub abandon : String → Failure → Files → Files × Option Failure
unfolding set_file
abandon temp e files = (set_file temp none files, some e)

unfoldable pub rename_file : String → String → Files → Files
unfolding set_file
rename_file from to files = set_file from none (set_file to (files from) files)

abbrev pub commit_again : String → String → Io (Unit {0}) → Files → Files × Option Failure
unfolding set_file rename_file
commit_again temp target (failed e) files = abandon temp (path_error true) files
commit_again temp target (done _) files = (rename_file temp target files, none)

abbrev pub remove_target : Disk → String → String → Io (Unit {0}) → Files → Files × Option Failure
unfolding set_file rename_file
remove_target disk temp target (failed e) files = abandon temp (path_error true) files
remove_target disk temp target (done _) files =
    commit_again temp target disk.second_rename (set_file target none files)

unfoldable pub commit : Disk → String → String → Io (Unit {0}) → Files → Files × Option Failure
unfolding set_file rename_file
commit disk temp target (failed e) files = remove_target disk temp target disk.target_removed files
commit disk temp target (done _) files = (rename_file temp target files, none)

-- A step that fails ends the Put.
abbrev pub or_abandon :
    String → Io (Unit {0}) → Files → Files × Option Failure → Files × Option Failure
unfolding set_file
or_abandon temp (failed e) files next = abandon temp (path_error true) files
or_abandon temp (done _) files next = next

-- The temporary file is open: the content is copied, up to an error of the reader.
abbrev pub write_temp : Disk → String → String → Io Bytes → Files → Files × Option Failure
unfolding set_file commit
write_temp disk temp target (failed e) files = abandon temp (path_error true) files
write_temp disk temp target (done content) files =
    let written = set_file temp (some content) files in
    or_abandon temp disk.synced written
      (or_abandon temp disk.closed written (commit disk temp target disk.first_rename written))

abbrev pub temp_of : Disk → String → String
temp_of disk target = str_append target (str_append ".tmp-" disk.uuid)

abbrev pub after_open : Disk → String → Io (Unit {0}) → Io Bytes → Files → Files × Option Failure
unfolding set_file commit
after_open disk target (failed e) content files = (files, some (path_error false))
after_open disk target (done _) content files =
    write_temp disk (temp_of disk target) target content files

abbrev pub after_directory :
    Disk → String → Io (Unit {0}) → Io Bytes → Files → Files × Option Failure
unfolding set_file commit
after_directory disk target (failed e) content files = (files, some (path_error false))
after_directory disk target (done _) content files =
    after_open disk target disk.opened content files

abbrev pub put_target : Disk → Io String → Io Bytes → Files → Files × Option Failure
unfolding set_file commit
put_target disk (failed e) content files = (files, some e)
put_target disk (done target) content files =
    after_directory disk target disk.directory_made content files

unfoldable pub put : Disk → String → Io Bytes → Files → Files × Option Failure
unfolding secure_path set_file commit
put disk path content files = put_target disk (secure_path disk path) content files

abbrev pub read_file : Io String → Files → Io Bytes
read_file (failed e) files = failed e
read_file (done target) files = elim (files target) [
  | none ↦ failed other_error
  | some content ↦ done content
]

unfoldable pub get : Disk → String → Files → Io Bytes
unfolding secure_path
get disk path files = read_file (secure_path disk path) files
