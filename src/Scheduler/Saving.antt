-- ===== src/Scheduler/Saving.antt =====
-- What `writeJobs` and `save` of src/Core/Scheduler.cpp leave of the file.
use night_mare_network.Base.{
  ℕ, suc, ◌≡◌, ◌≢◌, refl, ◌⊎◌, inl, inr, Bool, true, false, not, if_ind, Option, none, some, List,
  arith,
}
use night_mare_network.Scheduler.Jobs.{
  SchedulerJobScope, Scheduler, Entry, WriteAnswer, written, unopened, spoiled, entries_of,
}
use night_mare_network.Scheduler.Calls.{after_write, write_jobs, save}

-- What a write that fails leaves of a file.
abbrev pub left_by : WriteAnswer → Option (List Entry) → Option (List Entry)
left_by written file = file
left_by unopened file = file
left_by (spoiled left) file = left

-- No write was tried and the file is as it was, or one was and the file is what it left.
abbrev pub FileKept : (ℕ → WriteAnswer) → Scheduler → Scheduler → Type 0
FileKept writes s t =
    ((t.attempts ≡ s.attempts) × (t.file ≡ s.file))
    ⊎ ((t.attempts ≡ suc s.attempts) × (t.file ≡ left_by (writes s.attempts) s.file))

-- The jobs and the ids to come are as they were.
pub record Unchanged (writes : ℕ → WriteAnswer) (s t : Scheduler) : Type 0 where
  pub jobs : t.jobs ≡ s.jobs
  pub next_id : t.next_id ≡ s.next_id
  pub file : FileKept writes s t

-- A save from here fails: there is no storage, or the write is not done.
abbrev pub IsUnsaved : (ℕ → WriteAnswer) → Scheduler → Type 0
IsUnsaved writes s = (s.storage_ready ≡ false) ⊎ (writes s.attempts ≢ written)

-- The file is the one that `save` writes.
abbrev pub IsSaved : Scheduler → Type 0
IsSaved s = s.file ≡ some (entries_of none s.jobs)

-- The file after a change: written where the change has to last, otherwise as it was.
abbrev pub FileAfter : Bool → Scheduler → Scheduler → Type 0
FileAfter true s t = IsSaved t
FileAfter false s t = t.file ≡ s.file

module _ (s : Scheduler) (omit : Option SchedulerJobScope) where
  abbrev Holds : Scheduler × Bool → Type 0
  Holds r = r.1 ≡ true → r.0.file ≡ some (entries_of omit s.jobs)

  after_write-Holds : (answer : WriteAnswer) → Holds (after_write s omit answer)
  unfolding after_write
  after_write-Holds written e = refl
  after_write-Holds unopened e = absurd (ground arith)
  after_write-Holds (spoiled left) e = absurd (ground arith)

  abbrev Left : WriteAnswer → Scheduler × Bool → Type 0
  Left answer r =
      r.1 ≡ false
      → ((r.0.attempts ≡ s.attempts) × (r.0.file ≡ s.file))
        ⊎ ((r.0.attempts ≡ suc s.attempts) × (r.0.file ≡ left_by answer s.file))

  after_write-Left : (answer : WriteAnswer) → Left answer (after_write s omit answer)
  unfolding after_write
  after_write-Left written e = absurd (ground arith)
  after_write-Left unopened e = inr (refl, refl)
  after_write-Left (spoiled left) e = inr (refl, refl)

  after_write_failed :
      (answer : WriteAnswer) → (after_write s omit answer).1 ≡ false → answer ≢ written
  unfolding after_write
  after_write_failed written e = absurd (ground arith)
  after_write_failed unopened e = λ f. cc
  after_write_failed (spoiled left) e = λ f. cc

  after_write-jobs :
      (answer : WriteAnswer)
      → ((after_write s omit answer).0.jobs ≡ s.jobs)
        × ((after_write s omit answer).0.next_id ≡ s.next_id)
  unfolding after_write
  after_write-jobs written = (refl, refl)
  after_write-jobs unopened = (refl, refl)
  after_write-jobs (spoiled left) = (refl, refl)

module _ (writes : ℕ → WriteAnswer) (s : Scheduler) (omit : Option SchedulerJobScope) where
  pub write_jobs-file :
      (write_jobs writes s omit).1 ≡ true
      → (write_jobs writes s omit).0.file ≡ some (entries_of omit s.jobs)
  unfolding write_jobs
  write_jobs-file =
      if_ind (Holds s omit) (not s.storage_ready) (λ y e. absurd (ground arith))
        (λ n. after_write-Holds s omit (writes s.attempts))

  pub write_jobs-FileKept :
      (write_jobs writes s omit).1 ≡ false → FileKept writes s (write_jobs writes s omit).0
  unfolding write_jobs
  write_jobs-FileKept =
      if_ind (Left s omit (writes s.attempts)) (not s.storage_ready) (λ y e. inl (refl, refl))
        (λ n. after_write-Left s omit (writes s.attempts))

  pub write_jobs-IsUnsaved : (write_jobs writes s omit).1 ≡ false → IsUnsaved writes s
  unfolding write_jobs
  write_jobs-IsUnsaved =
      if_ind (λ (r : Scheduler × Bool). r.1 ≡ false → IsUnsaved writes s) (not s.storage_ready)
        (λ y e. inl (ground arith)) (λ n e. inr (after_write_failed s omit (writes s.attempts) e))

  -- Writing does not touch the jobs.
  pub write_jobs-jobs :
      ((write_jobs writes s omit).0.jobs ≡ s.jobs)
      × ((write_jobs writes s omit).0.next_id ≡ s.next_id)
  unfolding write_jobs
  write_jobs-jobs =
      if_ind (λ (r : Scheduler × Bool). (r.0.jobs ≡ s.jobs) × (r.0.next_id ≡ s.next_id))
        (not s.storage_ready) (λ y. (refl, refl)) (λ n. after_write-jobs s omit (writes s.attempts))

module _ (writes : ℕ → WriteAnswer) (s : Scheduler) where
  pub save-jobs : ((save writes s).0.jobs ≡ s.jobs) × ((save writes s).0.next_id ≡ s.next_id)
  unfolding save
  save-jobs = write_jobs-jobs writes s none

  pub save-IsSaved : (save writes s).1 ≡ true → IsSaved (save writes s).0
  unfolding save
  save-IsSaved e = rw ((write_jobs-jobs writes s none).0) (write_jobs-file writes s none e)

  pub save-file : (save writes s).1 ≡ false → FileKept writes s (save writes s).0
  unfolding save
  save-file = write_jobs-FileKept writes s none

  pub save-IsUnsaved : (save writes s).1 ≡ false → IsUnsaved writes s
  unfolding save
  save-IsUnsaved = write_jobs-IsUnsaved writes s none
