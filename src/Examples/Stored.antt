-- ===== src/Examples/Stored.antt =====
-- The theorem on Put at work: a disk on which an object is replaced and both renames fail.
use backup_restore.Prelude.{[], ◌∷◌, none, some, str_eq, if◌then◌else◌}
use backup_restore.Errors.{done, failed, other_error}
use backup_restore.Local.{Files, Disk, other_file}

abbrev disk : Disk
disk = record {
  root = "/data";
  lstat = λ path. other_file;
  directory_made = done tt;
  uuid = "7";
  opened = done tt;
  synced = done tt;
  closed = done tt;
  first_rename = failed other_error;
  target_removed = done tt;
  second_rename = failed other_error;
}

abbrev one_file : Files
one_file = λ path. if str_eq path "/data/b1/.done" then some (1 ∷ []) else none
