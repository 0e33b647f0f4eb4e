-- ===== src/Storage/Atomic.antt =====
-- What an atomic write of src/Core/Storage.cpp leaves of a file and its backup.
use night_mare_network.Base.{
  suc, not, subst, if◌then◌else◌, ◌≡◌, refl, ◌⊎◌, inl, inr, sym, ap, ◌∙◌, Bool, true, false, Bytes,
  bytes_eq, bytes_eq_refl, Option, none, some, List, [], All, arith, Bool-cases, Option-cases,
  if_ind,
}
use night_mare_network.Storage.{
  Files, Volume, Flash, put, is_there, backup_of, temporary_of, attempt, rename_file, remove_file,
  write_file, recover_previous, set_aside, move_in, replace_file, write_at,
}
use night_mare_network.Storage.Names.{Apart, names-Apart}

-- What a reader finds: the file, or else its backup, which `recoverPrevious` puts into place.
abbrev pub first_of : Option Bytes → Option Bytes → Option Bytes
first_of none b = b
first_of (some d) b = some d

abbrev pub visible : Bytes → Files → Option Bytes
visible name f = first_of (f name) (f (backup_of name))

-- Every state of the volume shows `old` or `content`.
unfoldable pub ShowsOneOf : Bytes → Option Bytes → Bytes → List Files → Type 0
ShowsOneOf name old content = All (λ f. (visible name f ≡ old) ⊎ (visible name f ≡ some content))

-- The old content is seen, and nothing but it or the new one was.
pub record IsBefore (name : Bytes) (old : Option Bytes) (content : Bytes) (v : Volume)
    : Type 0 where
  pub now : visible name v.files ≡ old
  pub passed : ShowsOneOf name old content v.passed

pub record IsAfter (name : Bytes) (old : Option Bytes) (content : Bytes) (v : Volume) : Type 0 where
  pub now : v.files name ≡ some content
  pub passed : ShowsOneOf name old content v.passed

-- The answer tells which.
unfoldable pub Outcome : Bytes → Option Bytes → Bytes → Volume × Bool → Type 0
Outcome name old content r =
    ((r.1 ≡ true) × IsAfter name old content r.0) ⊎ ((r.1 ≡ false) × IsBefore name old content r.0)

first_of-none : (x : Option Bytes) → first_of x none ≡ x
first_of-none none = refl
first_of-none (some d) = refl

remove_file-other :
    (flash : Flash) (v : Volume) (path other : Bytes)
    → bytes_eq path other ≡ false
    → (remove_file flash v path).0.files other ≡ v.files other
unfolding remove_file attempt
remove_file-other flash v path other e = ground (arith, e)

rename_file-other :
    (flash : Flash) (v : Volume) (from to other : Bytes)
    → bytes_eq from other ≡ false
    → bytes_eq to other ≡ false
    → (rename_file flash v from to).0.files other ≡ v.files other
unfolding rename_file attempt
rename_file-other flash v from to other e g = ground (arith, e, g)

-- What a rename that succeeds has done at its two ends.
rename_file-true :
    (flash : Flash) (v : Volume) (from to : Bytes)
    → bytes_eq to from ≡ false
    → (rename_file flash v from to).1 ≡ true
    → ((rename_file flash v from to).0.files from ≡ none)
      × ((rename_file flash v from to).0.files to ≡ v.files from)
unfolding rename_file attempt
rename_file-true flash v from to e h = ground (arith, e, bytes_eq_refl from, bytes_eq_refl to)

abbrev Unmoved : Volume → Volume × Bool → Type 0
Unmoved v r = r.1 ≡ false → (r.0.files ≡ v.files) × (r.0.passed ≡ v.passed)

rename_file-false :
    (flash : Flash) (v : Volume) (from to : Bytes) → Unmoved v (rename_file flash v from to)
unfolding rename_file attempt
rename_file-false flash v from to =
    if_ind (Unmoved v) (is_there (v.files from))
      (λ y. if_ind (Unmoved v) (flash.answers v.calls) (λ a e. cc) (λ a e. (refl, refl)))
      (λ n e. (refl, refl))

module _ (flash : Flash) (name : Bytes) (old : Option Bytes) (content : Bytes) where
  abbrev apart : Apart name
  apart = names-Apart name

  abbrev Before : Volume → Type 0
  Before = IsBefore name old content

  abbrev After : Volume → Type 0
  After = IsAfter name old content

  attempt-Before :
      (v : Volume) (f : Files) → Before v → visible name f ≡ old → Before (attempt flash v f).0
  unfolding attempt ShowsOneOf
  attempt-Before v f s p = elim (Bool-cases (flash.answers v.calls)) [
    | inl y ↦ rw y (record { now = p; passed = (inl p, s.passed) })
    | inr n ↦ rw n (record { now = s.now; passed = s.passed })
  ]

  attempt-After :
      (v : Volume) (f : Files) → After v → f name ≡ some content → After (attempt flash v f).0
  unfolding attempt ShowsOneOf
  attempt-After v f s p = elim (Bool-cases (flash.answers v.calls)) [
    | inl y ↦ rw y (record { now = p; passed = (inr (rw p), s.passed) })
    | inr n ↦ rw n (record { now = s.now; passed = s.passed })
  ]

  remove-Before :
      (v : Volume) (path : Bytes)
      → Before v
      → visible name (put v.files path none) ≡ old
      → Before (remove_file flash v path).0
  unfolding remove_file
  remove-Before v path s p = elim (Bool-cases (is_there (v.files path))) [
    | inr n ↦ rw n (record { now = s.now; passed = s.passed })
    | inl y ↦ rw y (attempt-Before v (put v.files path none) s p)
  ]

  rename-Before :
      (v : Volume) (from to : Bytes)
      → Before v
      → visible name (put (put v.files from none) to (v.files from)) ≡ old
      → Before (rename_file flash v from to).0
  unfolding rename_file
  rename-Before v from to s p = elim (Bool-cases (is_there (v.files from))) [
    | inr n ↦ rw n (record { now = s.now; passed = s.passed })
    | inl y ↦ rw y (attempt-Before v (put (put v.files from none) to (v.files from)) s p)
  ]

  -- Removing the temporary file is not seen.
  remove_temporary-Before :
      (v : Volume) → Before v → Before (remove_file flash v (temporary_of name)).0
  remove_temporary-Before v s =
      remove-Before v (temporary_of name) s
        (rw (apart.temporary_name, apart.temporary_backup) s.now)

  -- Nor is moving the backup to where the file is missing.
  restore-Before :
      (v : Volume)
      → v.files name ≡ none
      → Before v
      → Before (rename_file flash v (backup_of name) name).0
  restore-Before v gone s = rename-Before v (backup_of name) name s (
      ground (
        arith,
        apart.backup_name,
        apart.name_backup,
        bytes_eq_refl name,
        bytes_eq_refl (backup_of name),
        s.now,
      ))

  recover-Before : (v : Volume) → Before v → Before (recover_previous flash v name)
  unfolding recover_previous
  recover-Before v s = elim (Option-cases (v.files name)) [
    | inr (d, e) ↦ rw (ap is_there e) s
    | inl gone ↦ rw (ap is_there gone) (
        if_ind Before (is_there (v.files (backup_of name))) (λ y. restore-Before v gone s) (λ n. s))
  ]

  -- Removing the backup is not seen where the file is there.
  clear_backup-Before :
      (v : Volume) (d : Bytes)
      → v.files name ≡ some d
      → Before v
      → Before (remove_file flash v (backup_of name)).0
  clear_backup-Before v d there s = remove-Before v (backup_of name) s (
      rw (apart.backup_name, bytes_eq_refl (backup_of name), first_of-none (v.files name))
        (there ∙ sym (ap (λ x. first_of x (v.files (backup_of name))) there) ∙ s.now))

  -- Nor is moving the file to its backup.
  move_away-Before :
      (v : Volume) (d : Bytes)
      → v.files name ≡ some d
      → Before v
      → Before (rename_file flash v name (backup_of name)).0
  move_away-Before v d there s = rename-Before v name (backup_of name) s (
      rw (bytes_eq_refl name, apart.backup_name, bytes_eq_refl (backup_of name))
        (there ∙ sym (ap (λ x. first_of x (v.files (backup_of name))) there) ∙ s.now))

  -- The new content waits in the temporary file.
  Waiting : Volume → Type 0
  Waiting v = v.files (temporary_of name) ≡ some content

  move_away-missing :
      (v : Volume)
      → (rename_file flash v name (backup_of name)).1 ≡ true
      → (rename_file flash v name (backup_of name)).0.files name ≡ none
  move_away-missing v h = (rename_file-true flash v name (backup_of name) apart.backup_name h).0

  move_away-Waiting :
      (v : Volume) → Waiting v → Waiting (rename_file flash v name (backup_of name)).0
  unfolding Waiting
  move_away-Waiting v w =
      rename_file-other flash v name (backup_of name) (temporary_of name) apart.name_temporary
        apart.backup_temporary
      ∙ w

  abbrev AsideOf : Volume × Bool → Type 0
  AsideOf r = Before r.0 × Waiting r.0 × (r.1 ≡ true → r.0.files name ≡ none)

  set_aside-Before :
      (v : Volume) (d : Bytes)
      → v.files name ≡ some d
      → Before v
      → Waiting v
      → AsideOf (set_aside flash v name)
  unfolding set_aside Waiting
  set_aside-Before v d there s w =
      let c = (remove_file flash v (backup_of name)).0 in
      let cleared = clear_backup-Before v d there s in
      let there' = remove_file-other flash v (backup_of name) name apart.backup_name ∙ there in
      let w' : Waiting c =
        remove_file-other flash v (backup_of name) (temporary_of name) apart.backup_temporary ∙ w in
      if_ind AsideOf (is_there (v.files (backup_of name)))
        (λ y.
          if_ind AsideOf (remove_file flash v (backup_of name)).1
            (λ g.
              (move_away-Before c d there' cleared, move_away-Waiting c w', move_away-missing c))
            (λ n. (cleared, w', λ e. cc)))
        (λ n. (move_away-Before v d there s, move_away-Waiting v w, move_away-missing v))

  -- After the new file has been moved in, only its own contents are seen.
  arrived-After :
      (v : Volume)
      → Before v
      → Waiting v
      → (rename_file flash v (temporary_of name) name).1 ≡ true
      → After (rename_file flash v (temporary_of name) name).0
  unfolding rename_file attempt ShowsOneOf Waiting
  arrived-After v s w h = elim (Bool-cases (flash.answers v.calls)) [
    | inr n ↦ let h' = rw (ap is_there w, n) at h in cc
    | inl y ↦
        let f : Files =
          put (put v.files (temporary_of name) none) name (v.files (temporary_of name)) in
        let came : f name ≡ some content = rw (bytes_eq_refl name) w in
        rw (ap is_there w, y)
          (record {
            now = came;
            passed = (inr (ap (λ x. first_of x (f (backup_of name))) came), s.passed);
          })
  ]

  remove-After :
      (v : Volume) (path : Bytes)
      → bytes_eq path name ≡ false
      → After v
      → After (remove_file flash v path).0
  unfolding remove_file
  remove-After v path e s =
      if_ind (λ (r : Volume × Bool). After r.0) (is_there (v.files path))
        (λ y. attempt-After v (put v.files path none) s (rw e s.now))
        (λ n. record { now = s.now; passed = s.passed })

  abbrev Ends : Volume × Bool → Type 0
  Ends = Outcome name old content

  move_in-Ends :
      (v : Volume) (had_previous : Bool)
      → Before v
      → Waiting v
      → (had_previous ≡ true → v.files name ≡ none)
      → Ends (move_in flash v name had_previous)
  unfolding move_in Outcome
  move_in-Ends v had s w missing =
      let moved = rename_file flash v (temporary_of name) name in
      if_ind Ends moved.1
        (λ y.
          let there = arrived-After v s w y in
          inl (
            refl,
            if_ind After had (λ p. remove-After moved.0 (backup_of name) apart.backup_name there)
                (λ n. there),
          ))
        (λ n.
          let same = rename_file-false flash v (temporary_of name) name n in
          let kept : Before moved.0 = record {
            now = ap (visible name) same.0 ∙ s.now;
            passed = subst (ShowsOneOf name old content) (sym same.1) s.passed;
          } in
          inr (
            refl,
            remove_temporary-Before _ (
                if_ind Before had
                  (λ p. restore-Before moved.0 (ap (λ f. f name) same.0 ∙ missing p) kept)
                  (λ p. kept)),
          ))

  replace_file-Ends : (v : Volume) → Before v → Waiting v → Ends (replace_file flash v name)
  unfolding replace_file Outcome
  replace_file-Ends v s w = elim (Option-cases (v.files name)) [
    | inl gone ↦ rw (ap is_there gone) (move_in-Ends v false s w (λ e. cc))
    | inr (d, there) ↦
        let aside = set_aside-Before v d there s w in
        rw (ap is_there there) (
          if_ind Ends (set_aside flash v name).1
            (λ y. move_in-Ends (set_aside flash v name).0 true aside.0 aside.1 (λ e. aside.2 y))
            (λ n. inr (refl, remove_temporary-Before (set_aside flash v name).0 aside.0)))
  ]

  temporary_unseen :
      (f : Files) (c : Option Bytes) → visible name (put f (temporary_of name) c) ≡ visible name f
  temporary_unseen f c = rw (apart.temporary_name, apart.temporary_backup)

  write_file-Before :
      (v : Volume)
      → Before v
      → let r = write_file flash v (temporary_of name) content in
        Before r.0 × (r.2 ≡ true → Waiting r.0)
  unfolding write_file Waiting ShowsOneOf
  write_file-Before v s = elim (Bool-cases (flash.answers v.calls)) [
    | inr n ↦ rw n (record { now = s.now; passed = s.passed }, λ e. cc)
    | inl y ↦
        let opened : Files = put v.files (temporary_of name) (some []) in
        let first = temporary_unseen v.files (some []) in
        let left = if flash.answers (suc v.calls) then content else flash.torn (suc v.calls) in
        rw y (
          record {
            now = temporary_unseen opened (some left) ∙ first ∙ s.now;
            passed = (
              inl (temporary_unseen opened (some left) ∙ first ∙ s.now),
              (inl (first ∙ s.now), s.passed),
            );
          },
          λ e. rw (bytes_eq_refl (temporary_of name), e) refl,
        )
  ]

  -- An atomic write at a physical path.
  pub write_at-Ends : (v : Volume) → Before v → Ends (write_at flash v name content true)
  unfolding write_at Outcome
  write_at-Ends v s =
      let w = write_file flash (recover_previous flash v name) (temporary_of name) content in
      let written = write_file-Before (recover_previous flash v name) (recover-Before v s) in
      if_ind Ends (not w.1) (λ n. inr (refl, written.0))
        (λ y.
          if_ind Ends (not w.2) (λ n. inr (refl, remove_temporary-Before w.0 written.0))
            (λ c. replace_file-Ends w.0 written.0 (written.1 (ground arith))))
