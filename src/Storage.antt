-- ===== src/Storage.antt =====
-- Files: src/Core/Storage.cpp. The SPIFFS volume is not under src/: it is the content of each
-- physical path, and it answers each call with a success or a failure. `answers n` is the answer to
-- the `n`-th call, and `torn n` what a write that fails leaves in its file. Every state of the volume
-- that a call passes through is kept, newest first: power may fail in any of them. The volume is
-- mounted. Listing, formatting and the sizes of the volume are not modelled.
pub mod Names
pub mod Atomic
pub mod Reading
use night_mare_network.Base.{
  ℕ, zero, suc, ◌+◌, ◌-◌, ◌==◌, leb, ltb, Bool, true, false, not, ◌&&◌, ◌||◌, if◌then◌else◌, Bytes,
  bytes_eq, Option, none, some, List, [], ◌∷◌, ◌++◌, length, drop, take, is_empty,
}

abbrev pub Files : Type 0
Files = Bytes → Option Bytes

pub record Volume : Type 0 where
  pub files : Files
  pub calls : ℕ
  pub passed : List Files

-- The answers of the flash.
pub record Flash : Type 0 where
  pub answers : ℕ → Bool
  pub torn : ℕ → Bytes

abbrev pub put : Files → Bytes → Option Bytes → Files
put f path content other = if bytes_eq path other then content else f other

abbrev pub is_there : Option Bytes → Bool
is_there none = false
is_there (some d) = true

-- "/nm", ".bak", ".tmp", "/../" and "/..".
abbrev pub mount_point : Bytes
mount_point = b'/' ∷ b'n' ∷ b'm' ∷ []

abbrev pub backup_of : Bytes → Bytes
backup_of name = name ++ (b'.' ∷ b'b' ∷ b'a' ∷ b'k' ∷ [])

abbrev pub temporary_of : Bytes → Bytes
temporary_of name = name ++ (b'.' ∷ b't' ∷ b'm' ∷ b'p' ∷ [])

abbrev pub up_inside : Bytes
up_inside = b'/' ∷ b'.' ∷ b'.' ∷ b'/' ∷ []

abbrev pub up_at_end : Bytes
up_at_end = b'/' ∷ b'.' ∷ b'.' ∷ []

unfoldable pub starts_with : Bytes → Bytes → Bool
starts_with [] text = true
starts_with (c ∷ cs) [] = false
starts_with (c ∷ cs) (d ∷ ds) = c == d && starts_with cs ds

-- `path.find(part) != npos`
unfoldable pub contains : Bytes → Bytes → Bool
unfolding starts_with
contains part [] = starts_with part []
contains part (c ∷ cs) = starts_with part (c ∷ cs) || contains part cs

unfoldable pub starts_at_root : Bytes → Bool
starts_at_root [] = false
starts_at_root (c ∷ cs) = c == b'/'

-- `none` is the empty string.
unfoldable pub physical_path : Bytes → Option Bytes
unfolding starts_at_root contains
physical_path path =
    if not (starts_at_root path)
      || contains up_inside path
      || (leb 3 (length path) && bytes_eq (drop (length path - 3) path) up_at_end)
    then none
    else some (mount_point ++ path)

-- A call that changes the volume to `f` if it is answered well.
unfoldable pub attempt : Flash → Volume → Files → Volume × Bool
attempt flash v f =
    if flash.answers v.calls
    then (record { files = f; calls = suc v.calls; passed = f ∷ v.passed }, true)
    else (record v { calls = suc v.calls }, false)

-- `std::rename` fails if its source is not there.
unfoldable pub rename_file : Flash → Volume → Bytes → Bytes → Volume × Bool
unfolding attempt
rename_file flash v from to =
    if is_there (v.files from)
    then attempt flash v (put (put v.files from none) to (v.files from))
    else (record v { calls = suc v.calls }, false)

unfoldable pub remove_file : Flash → Volume → Bytes → Volume × Bool
unfolding attempt
remove_file flash v path =
    if is_there (v.files path)
    then attempt flash v (put v.files path none)
    else (record v { calls = suc v.calls }, false)

-- `fopen`, `fwrite`, `fflush` and `fclose`: the first answer is that of `fopen`, which empties the
-- file, and the second is `complete`.
unfoldable pub write_file : Flash → Volume → Bytes → Bytes → Volume × Bool × Bool
unfolding attempt
write_file flash v path content =
    let (opened, is_open) = attempt flash v (put v.files path (some [])) in
    let done = flash.answers opened.calls in
    let left = put opened.files path (some (if done then content else flash.torn opened.calls)) in
    if is_open
    then (
      record { files = left; calls = suc opened.calls; passed = left ∷ opened.passed },
      true,
      done,
    )
    else (opened, false, false)

unfoldable pub recover_previous : Flash → Volume → Bytes → Volume
recover_previous flash v name =
    if not (is_there (v.files name)) && is_there (v.files (backup_of name))
    then (rename_file flash v (backup_of name) name).0
    else v

-- Of the `if (hadPrevious && …)`: the old backup goes, and the file becomes the backup.
unfoldable pub set_aside : Flash → Volume → Bytes → Volume × Bool
set_aside flash v name =
    let (cleared, gone) = remove_file flash v (backup_of name) in
    let moved = rename_file flash cleared name (backup_of name) in
    if is_there (v.files (backup_of name))
    then (if gone then moved else (cleared, false))
    else rename_file flash v name (backup_of name)

-- The rename of the new file into place, and what follows it.
unfoldable pub move_in : Flash → Volume → Bytes → Bool → Volume × Bool
move_in flash v name had_previous =
    let (moved, done) = rename_file flash v (temporary_of name) name in
    let back = if had_previous then (rename_file flash moved (backup_of name) name).0 else moved in
    if done
    then ((if had_previous then (remove_file flash moved (backup_of name)).0 else moved), true)
    else ((remove_file flash back (temporary_of name)).0, false)

-- The `if (atomic)` block.
unfoldable pub replace_file : Flash → Volume → Bytes → Volume × Bool
replace_file flash v name =
    let (aside, done) = set_aside flash v name in
    if is_there (v.files name)
    then (if done
        then move_in flash aside name true
        else ((remove_file flash aside (temporary_of name)).0, false))
    else move_in flash v name false

unfoldable pub write_at : Flash → Volume → Bytes → Bytes → Bool → Volume × Bool
write_at flash v name content atomic =
    let target = if atomic then temporary_of name else name in
    let (written, is_open, complete) =
      write_file flash (recover_previous flash v name) target content in
    if not is_open
    then (written, false)
    else if not complete
    then ((remove_file flash written target).0, false)
    else if atomic
    then replace_file flash written name
    else (written, true)

unfoldable pub write : Flash → Volume → Bytes → Bytes → Bool → Volume × Bool
write flash v path content atomic = elim (physical_path path) [
  | none ↦ (v, false)
  | some name ↦ write_at flash v name content atomic
]

-- `exists`, and `read` where the file is not too long and reading it does not fail.
unfoldable pub exists : Flash → Volume → Bytes → Volume × Bool
exists flash v path = elim (physical_path path) [
  | none ↦ (v, false)
  | some name ↦ let v' = recover_previous flash v name in (v', is_there (v'.files name))
]

unfoldable pub fits : ℕ → Option Bytes → Option Bytes
fits max_bytes none = none
fits max_bytes (some d) = if ltb max_bytes (length d) then none else some d

unfoldable pub read : Flash → Volume → Bytes → ℕ → Volume × Option Bytes
unfolding fits
read flash v path max_bytes = elim (physical_path path) [
  | none ↦ (v, none)
  | some name ↦ let v' = recover_previous flash v name in (v', fits max_bytes (v'.files name))
]

-- `remove`: the file, then its backup.
unfoldable pub remove : Flash → Volume → Bytes → Volume × Bool
remove flash v path = elim (physical_path path) [
  | none ↦ (v, false)
  | some name ↦
      let (gone, done) = remove_file flash v name in
      if not done
      then (gone, false)
      else if is_there (gone.files (backup_of name))
      then remove_file flash gone (backup_of name)
      else (gone, true)
]

unfoldable pub rename_at : Flash → Volume → Option Bytes → Option Bytes → Volume × Bool
rename_at flash v none to = (v, false)
rename_at flash v (some from) none = (v, false)
rename_at flash v (some from) (some to) = rename_file flash v from to

unfoldable pub rename : Flash → Volume → Bytes → Bytes → Volume × Bool
unfolding rename_at
rename flash v from to = rename_at flash v (physical_path from) (physical_path to)
