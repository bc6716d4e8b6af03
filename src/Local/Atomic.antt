-- ===== src/Local/Atomic.antt =====
-- What a Put leaves behind (internal/repository/local/local.go).
use Prim.Native.String.{String}
use Prim.Native.String.append
use backup_restore.Prelude.{
  ◌≡◌, ◌≢◌, sym, ◌∙◌, ◌⊎◌, inl, inr, false, Option, none, some, Bool-cases, str_eq, str_append,
  str_eq→eq,
}
use backup_restore.Errors.{Failure, Io, done, failed}
use backup_restore.Checksum.{Bytes}
use backup_restore.Local.Defs.{Files, set_file, Disk, temp_of}

-- The target is gone: both renames failed, and it was removed in between.
abbrev pub IsLost : Disk → Option Bytes → Type 0
IsLost disk content =
    (content ≡ none)
    × ((f : Failure) × (disk.first_rename ≡ failed f))
    × (disk.target_removed ≡ done tt)
    × ((g : Failure) × (disk.second_rename ≡ failed g))

-- Either there is no error and the target has the new content, or there is one and the target has
-- its old content or is lost.
abbrev pub IsPut : Disk → Io Bytes → String → Files → Files × Option Failure → Type 0
IsPut disk content target files (after, e) =
    ((e ≡ none) × ((bytes : Bytes) × (content ≡ done bytes) × (after target ≡ some bytes)))
    ⊎ ((e ≢ none) × ((after target ≡ files target) ⊎ IsLost disk (after target)))

-- Every other file is as before.
abbrev pub KeepsOthers : String → Files → Files × Option Failure → Type 0
KeepsOthers target files (after, e) = (p : String) → str_eq target p ≡ false → after p ≡ files p

append_ne : (s t : String) → t ≢ "" → str_append s t ≢ s
append_ne String.[] t n e = n (sym (append.nil t) ∙ e)
append_ne (String.◌∷◌ c s) t n e = append_ne s t n (tails (sym (append.cons c s t) ∙ e))
  where
    tails : {u v : String} → String.◌∷◌ c u ≡ String.◌∷◌ c v → u ≡ v
    tails h = cc

tag_ne : (uuid : String) → str_append ".tmp-" uuid ≢ ""
tag_ne uuid e = cc (sym (append.cons _ "tmp-" uuid) ∙ e)

temp_apart : (disk : Disk) (target : String) → str_eq (temp_of disk target) target ≡ false
temp_apart disk target = elim (Bool-cases (str_eq (temp_of disk target) target)) [
  | inl b ↦ absurd (
      append_ne target (str_append ".tmp-" disk.uuid) (tag_ne disk.uuid)
        (str_eq→eq (temp_of disk target) target b))
  | inr b ↦ b
]

module _ (disk : Disk) (target temp : String) (files : Files) (fresh : files temp ≡ none)
    (apart : str_eq temp target ≡ false) where
  abbrev IsGood : Io Bytes → Files × Option Failure → Type 0
  IsGood content o = IsPut disk content target files o × KeepsOthers target files o

  module _ (bytes : Bytes) where
    written : Files
    unfolding set_file
    written = set_file temp (some bytes) files

module _ (disk : Disk) (target : String) (content : Io Bytes) (files : Files)
    (fresh : files (temp_of disk target) ≡ none) where
  abbrev Good : Files × Option Failure → Type 0
  Good o = IsGood disk target (temp_of disk target) files fresh (temp_apart disk target) content o
