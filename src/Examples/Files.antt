-- ===== src/Examples/Files.antt =====
-- An atomic write on concrete values.
use night_mare_network.Base.{
  arith, ◌≡◌, refl, true, false, ◌==◌, not, Bytes, bytes_eq, none, some, [], ◌∷◌, ◌++◌,
}
use night_mare_network.Storage.{
  Volume, Flash, physical_path, starts_with, contains, starts_at_root, write, write_at, write_file,
  recover_previous, rename_file, remove_file, attempt, replace_file, set_aside, move_in, put,
  mount_point,
}
use night_mare_network.Storage.Reading.{Atomically, reads, write-Atomically}

-- "/a".
abbrev path : Bytes
path = b'/' ∷ b'a' ∷ []

abbrev volume : Volume
volume = record {
  files = put (λ p. none) (mount_point ++ path) (some (1 ∷ []));
  calls = 0;
  passed = [];
}

-- The rename of the new file, the fourth call after the look for the backup, is refused.
abbrev flash : Flash
flash = record { answers = λ n. not (n == 3); torn = λ n. [] }

write-Atomically_example :
    Atomically
      (reads 100 path)
      (reads 100 path volume.files)
      (2 ∷ 3 ∷ [])
      (write flash volume path (2 ∷ 3 ∷ []) true)
write-Atomically_example = write-Atomically flash volume path (2 ∷ 3 ∷ []) 100 (omega arith) refl

-- The call fails and the old content is back.
write_refused : (write flash volume path (2 ∷ 3 ∷ []) true).1 ≡ false
unfolding write write_at write_file recover_previous rename_file remove_file attempt replace_file
    set_aside move_in physical_path starts_with contains starts_at_root bytes_eq
write_refused = refl

write_refused-files :
    (write flash volume path (2 ∷ 3 ∷ []) true).0.files (mount_point ++ path) ≡ some (1 ∷ [])
unfolding write write_at write_file recover_previous rename_file remove_file attempt replace_file
    set_aside move_in physical_path starts_with contains starts_at_root bytes_eq
write_refused-files = refl
