-- ===== src/Scheduler/Removing.antt =====
-- What the calls of src/Core/Scheduler.cpp that remove jobs answer.
use night_mare_network.Base.{
  ℕ, zero, suc, ◌≡◌, refl, ap, ◌∙◌, inl, inr, Bool, true, false, if_ind, option_ind, Bytes,
  bytes_eq, bytes_eq_sound, none, ◌⊎◌, some, List, [], ◌∷◌, arith, Bool-cases,
}
use night_mare_network.Base.Slots.{modify}
use night_mare_network.Scheduler.Jobs.{
  WriteAnswer, SchedulerJobScope, Job, no_job, Scheduler, Surroundings, scope_eq, get_job, find_job,
  has_label, has_id, any_job, takes_id, persists,
}
use night_mare_network.Scheduler.Loading.{ensure_initialized}
use night_mare_network.Scheduler.Calls.{save, remove_job, remove_found, remove_label, remove_id}
use night_mare_network.Scheduler.Slots.{clash, Fits, IsApart, modify-get_job, scope_eq_sound}
use night_mare_network.Scheduler.Invariant.{IsValid, empty-IsTable, ensure_initialized-IsValid}
use night_mare_network.Scheduler.Saving.{
  IsUnsaved, save-IsUnsaved, FileKept, Unchanged, FileAfter, save-IsSaved, save-file, save-jobs,
}

-- The job that passed the test is gone, and no other passes it; the file is saved if it was there.
pub record Removed (s : Scheduler) (test : Job → Bool) (t : Scheduler) : Type 0 where
  pub slot : ℕ
  pub found : find_job test s.jobs ≡ some slot
  pub jobs : t.jobs ≡ modify s.jobs slot (λ _. no_job)
  pub gone : any_job test t.jobs ≡ false
  pub next_id : t.next_id ≡ s.next_id
  pub saved : FileAfter (persists (get_job s.jobs slot)) s t

-- Why none is removed: no job passes the test, or the one that does persists and its removal is not
-- saved.
abbrev pub RemoveFails : (ℕ → WriteAnswer) → Scheduler → (Job → Bool) → Type 0
RemoveFails writes s test =
    (any_job test s.jobs ≡ false)
    ⊎ ((slot : ℕ) × (find_job test s.jobs ≡ some slot)
        × (persists (get_job s.jobs slot) ≡ true)
        × IsUnsaved writes s)

abbrev pub RemoveOutcome : (ℕ → WriteAnswer) → Scheduler → (Job → Bool) → Scheduler → Bool → Type 0
RemoveOutcome writes s test t true = Removed s test t
RemoveOutcome writes s test t false = Unchanged writes s t × RemoveFails writes s test

-- What an answer promises, and that it leaves valid jobs.
abbrev pub RemoveAnswer : (ℕ → WriteAnswer) → Scheduler → (Job → Bool) → Scheduler × Bool → Type 0
RemoveAnswer writes s test r = RemoveOutcome writes s test r.0 r.1 × IsValid r.0

-- Only active jobs pass, and of jobs that do not clash only one.
pub record Separates (test : Job → Bool) : Type 0 where
  pub active : (j : Job) → test j ≡ true → j.active ≡ true
  pub one : (j k : Job) → test j ≡ true → clash j k ≡ false → test k ≡ false

has_label-one :
    (scope : SchedulerJobScope) (label : Bytes) (j k : Job)
    → has_label scope label j ≡ true
    → clash j k ≡ false
    → has_label scope label k ≡ false
unfolding has_label clash
has_label-one scope label j k e f = elim (Bool-cases (scope_eq j.scope scope)) [
  | inl a ↦ elim (Bool-cases (bytes_eq j.label label)) [
    | inl b ↦
        let not_same : has_label j.scope j.label k ≡ false = ground arith in
        rw (← scope_eq_sound j.scope scope a, ← bytes_eq_sound j.label label b) not_same
    | inr c ↦ absurd (ground arith)
  ]
  | inr b ↦ absurd (ground arith)
]

pub has_label-Separates :
    (scope : SchedulerJobScope) (label : Bytes) → Separates (has_label scope label)
unfolding has_label
has_label-Separates scope label = record {
  active = λ j e. ground arith;
  one = has_label-one scope label;
}

pub has_id-Separates : (scope : SchedulerJobScope) (id : ℕ) → Separates (has_id scope id)
unfolding has_id clash takes_id
has_id-Separates scope id = record { active = λ j e. ground arith; one = λ j k e f. ground arith }

module _ (test : Job → Bool) (separates : Separates test) where
  any_job-Fits_none :
      (j : Job)
      → j.active ≡ true
      → test j ≡ true
      → (js : List Job) → Fits j js
      → any_job test js ≡ false
  unfolding any_job
  any_job-Fits_none j a t [] f = refl
  any_job-Fits_none j a t (k ∷ js) f =
      rw (separates.one j k t (f.0 a)) (any_job-Fits_none j a t js f.1)

  -- The one job that passes is taken out.
  any_job-modify :
      (js : List Job) (n : ℕ)
      → IsApart js
      → find_job test js ≡ some n
      → any_job test (modify js n (λ _. no_job)) ≡ false
  unfolding any_job find_job no_job
  any_job-modify [] n a e = refl
  any_job-modify (j ∷ js) zero a e =
      let here : test j ≡ true = ground arith in
      ground
        (arith, separates.active no_job, any_job-Fits_none j (separates.active j here) here js a.0)
  any_job-modify (j ∷ js) (suc n) a e = ground (arith, any_job-modify js n a.1 (ground arith))

find_job-none :
    (test : Job → Bool) (js : List Job) → find_job test js ≡ none → any_job test js ≡ false
unfolding find_job any_job
find_job-none test [] e = refl
find_job-none test (j ∷ js) e = ground (arith, find_job-none test js)

module _ (writes : ℕ → WriteAnswer) (s : Scheduler) (v : IsValid s) where
  module _ (test : Job → Bool) (separates : Separates test) where
    removed_at :
        (i : ℕ) (t : Scheduler)
        → find_job test s.jobs ≡ some i
        → t.jobs ≡ modify s.jobs i (λ _. no_job)
        → t.next_id ≡ s.next_id
        → FileAfter (persists (get_job s.jobs i)) s t
        → RemoveAnswer writes s test (t, true)
    removed_at i t found jobs next saved = (
      record {
        slot = i;
        found = found;
        jobs = jobs;
        gone = rw jobs (any_job-modify test separates s.jobs i v.apart found);
        next_id = next;
        saved = saved;
      },
      rw (jobs, next) (empty-IsTable s.jobs s.next_id v i),
    )

    unchanged :
        (t : Scheduler)
        → t.jobs ≡ s.jobs
        → t.next_id ≡ s.next_id
        → FileKept writes s t
        → RemoveFails writes s test
        → RemoveAnswer writes s test (t, false)
    unchanged t jobs next file why =
        ((record { jobs = jobs; next_id = next; file = file }, why), rw (jobs, next) v)

    remove_job-RemoveAnswer :
        (i : ℕ) → find_job test s.jobs ≡ some i → RemoveAnswer writes s test (remove_job writes s i)
    unfolding remove_job
    remove_job-RemoveAnswer i found =
        let c = record s { jobs = modify s.jobs i (λ _. no_job) } in
        let kept = save-jobs writes c in
        if_ind (RemoveAnswer writes s test) (persists (get_job s.jobs i))
          (λ y.
            if_ind (RemoveAnswer writes s test) (save writes c).1
              (λ d.
                removed_at i (save writes c).0 found kept.0 kept.1 (rw y (save-IsSaved writes c d)))
              (λ d.
                unchanged _
                  (ap (λ js. modify js i (λ _. get_job s.jobs i)) kept.0
                    ∙ modify-get_job no_job s.jobs i)
                  kept.1 (save-file writes c d) (inr (i, found, y, save-IsUnsaved writes c d))))
          (λ m. removed_at i c found refl refl (rw m refl))

-- A call that looks for a job and removes it.
pub remove_found-RemoveAnswer :
    (writes : ℕ → WriteAnswer) (env : Surroundings) (s : Scheduler) (test : Job → Bool)
    → IsValid s
    → Separates test
    → RemoveAnswer writes (ensure_initialized env s) test (remove_found writes env s test)
unfolding remove_found
remove_found-RemoveAnswer writes env s test v separates =
    let s' = ensure_initialized env s in
    let v' = ensure_initialized-IsValid env s v in
    option_ind (RemoveAnswer writes s' test) (find_job test s'.jobs)
      (λ f.
        unchanged writes s' v' test separates s' refl refl (inl (refl, refl))
          (inl (find_job-none test s'.jobs f)))
      (λ i f. remove_job-RemoveAnswer writes s' v' test separates i f)

-- On a scheduler as the calls leave it, `remove` by a label removes the job of the label, from the file
-- too where it persists, and leaves no job of the label; or it fails: there is no such job, or it
-- persists and its removal is not saved. Then the jobs are as they were, and so is the file, unless a
-- write failed that had opened it: then it has what the write left.
pub remove_label-Answer :
    (writes : ℕ → WriteAnswer) (env : Surroundings) (s : Scheduler) (label : Bytes)
    (scope : SchedulerJobScope)
    → IsValid s
    → RemoveAnswer writes
        (ensure_initialized env s)
        (has_label scope label)
        (remove_label writes env s label scope)
unfolding remove_label
remove_label-Answer writes env s label scope v =
    remove_found-RemoveAnswer writes env s (has_label scope label) v
      (has_label-Separates scope label)

-- `remove` by an id does so for the job of the id.
pub remove_id-Answer :
    (writes : ℕ → WriteAnswer) (env : Surroundings) (s : Scheduler) (id : ℕ)
    (scope : SchedulerJobScope)
    → IsValid s
    → RemoveAnswer writes
        (ensure_initialized env s)
        (has_id scope id)
        (remove_id writes env s id scope)
unfolding remove_id
remove_id-Answer writes env s id scope v =
    remove_found-RemoveAnswer writes env s (has_id scope id) v (has_id-Separates scope id)
