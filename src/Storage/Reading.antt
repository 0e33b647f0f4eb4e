-- ===== src/Storage/Reading.antt =====
-- What `read` of src/Core/Storage.cpp finds after an atomic write, or after a loss of power in one.
use night_mare_network.Base.{
  ℕ, ◌≤◌, ◌≡◌, refl, ◌⊎◌, inl, inr, sym, ap, ◌∙◌, subst, Bool, true, if◌then◌else◌, Bytes,
  bytes_eq_refl, length, Option, some, List, [], ◌∷◌, All, arith, Option-cases,
}
use night_mare_network.Storage.{
  Files, Volume, Flash, backup_of, attempt, rename_file, recover_previous, write_at, write,
  physical_path, fits, read,
}
use night_mare_network.Storage.Atomic.{first_of, visible, ShowsOneOf, Outcome, write_at-Ends}

-- The volume after the power comes back, and flash that does what it is asked.
abbrev pub powered_on : Files → Volume
powered_on f = record { files = f; calls = 0; passed = [] }

abbrev pub reliable : Flash
reliable = record { answers = λ n. true; torn = λ n. [] }

-- What `read` gives of at most `limit` bytes.
abbrev pub reads : ℕ → Bytes → Files → Option Bytes
reads limit path f = (read reliable (powered_on f) path limit).1

-- `recoverPrevious` brings the backup back where the file is missing.
recover_previous-visible :
    (name : Bytes) (f : Files)
    → (recover_previous reliable (powered_on f) name).files name ≡ visible name f
unfolding recover_previous rename_file attempt
recover_previous-visible name f = elim (Option-cases (f name)) [
  | inr (d, there) ↦ rw there there
  | inl gone ↦ elim (Option-cases (f (backup_of name))) [
    | inr (d, kept) ↦ rw (gone, kept, bytes_eq_refl name) refl
    | inl lost ↦ rw (gone, lost) gone
  ]
]

reads-visible :
    (limit : ℕ) (path name : Bytes) (f : Files)
    → physical_path path ≡ some name
    → reads limit path f ≡ fits limit (visible name f)
unfolding read
reads-visible limit path name f e =
    rw (reads, read, e) (ap (fits limit) (recover_previous-visible name f))

-- A reader that every state of a write lets find the old or the new content, and the state that is
-- left the one that the answer tells.
abbrev pub Atomically : (Files → Option Bytes) → Option Bytes → Bytes → Volume × Bool → Type 0
Atomically reader old content r =
    (reader r.0.files ≡ (if r.1 then some content else old))
    × All (λ f. (reader f ≡ old) ⊎ (reader f ≡ some content)) r.0.passed

module _ (limit : ℕ) (path name content : Bytes) (old : Option Bytes)
    (e : physical_path path ≡ some name) (room : length content ≤ limit) where
  reads-content : (f : Files) → visible name f ≡ some content → reads limit path f ≡ some content
  unfolding fits
  reads-content f h = reads-visible limit path name f e ∙ ap (fits limit) h ∙ ground (arith, room)

  reads-old : (f : Files) → visible name f ≡ old → reads limit path f ≡ fits limit old
  reads-old f h = reads-visible limit path name f e ∙ ap (fits limit) h

  All-reads :
      (fs : List Files)
      → ShowsOneOf name old content fs
      → All (λ f. (reads limit path f ≡ fits limit old) ⊎ (reads limit path f ≡ some content)) fs
  unfolding ShowsOneOf
  All-reads [] h = tt
  All-reads (f ∷ fs) h =
      (elim h.0 [ inl a ↦ inl (reads-old f a) | inr b ↦ inr (reads-content f b) ], All-reads fs h.1)

  Outcome-Atomically :
      (r : Volume × Bool)
      → Outcome name old content r
      → Atomically (reads limit path) (fits limit old) content r
  unfolding Outcome
  Outcome-Atomically r (inl (y, after)) = (
    rw y (reads-content r.0.files (ap (λ x. first_of x (r.0.files (backup_of name))) after.now)),
    All-reads r.0.passed after.passed,
  )
  Outcome-Atomically r (inr (n, before)) =
      (rw n (reads-old r.0.files before.now), All-reads r.0.passed before.passed)

-- An atomic write of what a reader's limit has room for: in every state that the volume passes
-- through, should the power fail in it, `read` gives afterwards, with flash that works, either what
-- it would have given before or the new content. If the call answers true it gives the new content;
-- if it answers false, what it would have given before.
pub write-Atomically :
    (flash : Flash) (v : Volume) (path content : Bytes) (limit : ℕ)
    → length content ≤ limit
    → v.passed ≡ []
    → Atomically
        (reads limit path)
        (reads limit path v.files)
        content
        (write flash v path content true)
unfolding write ShowsOneOf
write-Atomically flash v path content limit room fresh = elim (Option-cases (physical_path path)) [
  | inl e ↦ rw (e, write, fresh) (refl, tt)
  | inr (name, e) ↦
      let old = visible name v.files in
      let none_passed : ShowsOneOf name old content [] = tt in
      rw (e, write, reads-visible limit path name v.files e)
        (Outcome-Atomically limit path name content old e room (write_at flash v name content true)
          (write_at-Ends flash name old content v (record {
            now = refl;
            passed = subst (ShowsOneOf name old content) (sym fresh) none_passed;
          })))
]
