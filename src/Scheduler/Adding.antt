-- ===== src/Scheduler/Adding.antt =====
-- What `add` of src/Core/Scheduler.cpp answers.
use night_mare_network.Base.{
  ℕ, suc, ◌+◌, ◌%◌, ◌^◌, ◌≤◌, ◌≡◌, ◌≢◌, refl, sym, ap, ◌∙◌, ◌⊎◌, inl, inr, true, false, not, ◌&&◌,
  ◌||◌, ◌==◌, ltb, if_ind, option_ind, Bytes, bytes_eq_refl, is_empty, Option, none, some, [],
  arith,
}
use night_mare_network.Base.Slots.{modify}
use night_mare_network.Scheduler.Jobs.{
  WriteAnswer, SchedulerJobScope, managed, wall, monotonic, Job, no_job, Scheduler, Surroundings,
  int32_max, max_interval, is_wall, get_job, find_job, is_free, has_label, any_job,
}
use night_mare_network.Scheduler.Loading.{ensure_initialized}
use night_mare_network.Scheduler.Calls.{
  save, is_refused, add_at, add, request, schedule_at_wall, schedule_after, first_wall_due,
  timeout_label, schedule_every_wall, schedule_every_monotonic, set_timeout,
}
use night_mare_network.Scheduler.Saving.{
  FileKept, Unchanged, FileAfter, save-IsSaved, save-file, save-jobs, save-IsUnsaved, IsUnsaved,
}
use night_mare_network.Scheduler.Slots.{
  Fits, any_job-Fits, find_job-get_job, modify-get_job, get_job-modify, get_job-modify_other,
  find_job-modify, scope_eq_self,
}
use night_mare_network.Scheduler.Invariant.{
  IsActive, IsValid, place-IsTable, find_job-no_job, takes_id-next, ensure_initialized-IsValid,
}

-- `job` has `id` and is found by its label; the other slots are as they were; it is saved if it
-- persists.
pub record Added (s : Scheduler) (job : Job) (t : Scheduler) (id : ℕ) : Type 0 where
  pub id_next : id ≡ s.next_id
  pub next_id : t.next_id ≡ suc id
  pub slot : ℕ
  pub found : find_job (has_label job.scope job.label) t.jobs ≡ some slot
  pub placed : get_job t.jobs slot ≡ record job { active = true; id = id }
  pub was_free : get_job s.jobs slot ≡ no_job
  pub others : (k : ℕ) → k ≢ slot → get_job t.jobs k ≡ get_job s.jobs k
  pub saved : FileAfter (is_wall job.clock && not (is_empty job.command)) s t

-- Why a job is not added: the tests refuse it, no slot is free, or it persists and is not saved.
abbrev pub AddFails : (ℕ → WriteAnswer) → Scheduler → Job → Type 0
AddFails writes s job =
    (is_refused s job ≡ true)
    ⊎ ((find_job is_free s.jobs ≡ none)
        ⊎ ((is_wall job.clock && not (is_empty job.command) ≡ true) × IsUnsaved writes s))

abbrev pub AddOutcome : (ℕ → WriteAnswer) → Scheduler → Job → Scheduler → Option ℕ → Type 0
AddOutcome writes s job t none = Unchanged writes s t × AddFails writes s job
AddOutcome writes s job t (some id) = Added s job t id

-- A job that a public call may ask for.
abbrev pub IsTimed : Job → Type 0
IsTimed job = is_wall job.clock && (job.due == 0 && job.interval == 0) ≡ false

-- What an answer promises, and that it leaves valid jobs.
abbrev pub AddAnswer : (ℕ → WriteAnswer) → Scheduler → Job → Scheduler × Option ℕ → Type 0
AddAnswer writes s job r = AddOutcome writes s job r.0 r.1 × IsValid r.0

abbrev given : Scheduler → Job → Job
given s job = record job { active = true; id = s.next_id }

module _ (writes : ℕ → WriteAnswer) (s : Scheduler) (v : IsValid s) (job : Job)
    (timed : IsTimed job) (n : is_refused s job ≡ false) where
  given-IsActive : IsActive (suc s.next_id) (given s job)
  unfolding is_refused
  given-IsActive = record {
    active = refl;
    id_pos = v.next_pos;
    id_below = omega arith;
    labelled = ground arith;
    label_fits = ground arith;
    command_fits = ground arith;
    one_target = ground arith;
    timed = timed;
  }

  given-Fits : Fits (given s job) s.jobs
  unfolding is_refused
  given-Fits =
      any_job-Fits (given s job) s.jobs (takes_id-next s.next_id s.jobs v.slots) (ground arith)

  label_new : any_job (has_label job.scope job.label) s.jobs ≡ false
  unfolding is_refused
  label_new = ground arith

  next_wraps : ((s.next_id + 1) % 2 ^ 32 ≡ suc s.next_id) × (suc s.next_id ≤ suc int32_max)
  unfolding is_refused
  next_wraps = (omega (arith, v.next_fits), ground arith)

  module _ (i : ℕ) (free : find_job is_free s.jobs ≡ some i) (t : Scheduler) where
    placed-Added :
        t.jobs ≡ modify s.jobs i (λ _. given s job)
        → t.next_id ≡ (s.next_id + 1) % 2 ^ 32
        → FileAfter (is_wall job.clock && not (is_empty job.command)) s t
        → AddAnswer writes s job (t, some s.next_id)
    unfolding has_label
    placed-Added jobs next saved =
        let inside = (find_job-get_job is_free s.jobs i free).1 in
        (
          record {
            id_next = refl;
            next_id = next ∙ next_wraps.0;
            slot = i;
            found = rw jobs (
                find_job-modify (given s job) (has_label job.scope job.label) s.jobs i label_new
                  (rw (scope_eq_self job.scope, bytes_eq_refl job.label) refl) inside);
            placed = rw jobs (get_job-modify (given s job) s.jobs i inside);
            was_free = find_job-no_job s.jobs s.next_id v i free;
            others = λ k h. rw jobs (get_job-modify_other (given s job) s.jobs i k h);
            saved = saved;
          },
          rw (jobs, next, next_wraps.0)
              (place-IsTable s.jobs s.next_id v i (suc s.next_id) (given s job) given-Fits
                (inr given-IsActive) (omega arith) next_wraps.1),
        )

    taken_back-Unchanged :
        t.jobs ≡ modify (modify s.jobs i (λ _. given s job)) i (λ _. no_job)
        → t.next_id ≡ s.next_id
        → FileKept writes s t
        → AddFails writes s job
        → AddAnswer writes s job (t, none)
    taken_back-Unchanged jobs next file why =
        let same =
          jobs
          ∙ ap (λ j. modify (modify s.jobs i (λ _. given s job)) i (λ _. j))
              (sym (find_job-no_job s.jobs s.next_id v i free))
          ∙ modify-get_job (given s job) s.jobs i in
        ((record { jobs = same; next_id = next; file = file }, why), rw (same, next) v)

  add_at-AddAnswer :
      (i : ℕ) → find_job is_free s.jobs ≡ some i → AddAnswer writes s job (add_at writes s i job)
  unfolding add_at
  add_at-AddAnswer i free =
      let p = record s {
        jobs = modify s.jobs i (λ _. given s job);
        next_id = (s.next_id + 1) % 2 ^ 32;
      } in
      let kept = save-jobs writes p in
      if_ind (AddAnswer writes s job) (is_wall job.clock && not (is_empty job.command))
        (λ y.
          if_ind (AddAnswer writes s job) (save writes p).1
            (λ d.
              placed-Added i free (save writes p).0 kept.0 kept.1 (rw y (save-IsSaved writes p d)))
            (λ d.
              taken_back-Unchanged i free _ (ap (λ js. modify js i (λ _. no_job)) kept.0) refl
                (save-file writes p d) (inr (inr (y, save-IsUnsaved writes p d)))))
        (λ m. placed-Added i free p refl refl (rw m refl))

module _ (writes : ℕ → WriteAnswer) (env : Surroundings) where
  -- On a scheduler as the calls leave it, with a job that a public call makes, `add` adds the job with
  -- the next id, saved where it persists, or it fails: the tests refuse the job, no slot is free, or
  -- the job persists and is not saved. Then the jobs and the ids to come are as they were, and so is
  -- the file, unless a write failed that had opened it: then it has what the write left.
  pub add-Answer :
      (s : Scheduler) (job : Job)
      → IsValid s
      → IsTimed job
      → AddAnswer writes (ensure_initialized env s) job (add writes env s job)
  unfolding add
  add-Answer s job v timed =
      let s' = ensure_initialized env s in
      let v' = ensure_initialized-IsValid env s v in
      let refused : AddFails writes s' job → AddAnswer writes s' job (s', none) =
        λ why. ((record { jobs = refl; next_id = refl; file = inl (refl, refl) }, why), v') in
      if_ind (AddAnswer writes s' job) (is_refused s' job) (λ y. refused (inl y))
        (λ n.
          option_ind (AddAnswer writes s' job) (find_job is_free s'.jobs)
            (λ f. refused (inr (inl f))) (λ i f. add_at-AddAnswer writes s' v' job timed n i f))

  abbrev Keeps : Scheduler × Option ℕ → Type 0
  Keeps r = IsValid r.0

  module _ (s : Scheduler) (v : IsValid s) (scope : SchedulerJobScope) (label command : Bytes)
      (callback : Option ℕ) where
    pub schedule_at_wall-IsValid :
        (epoch : ℕ) → IsValid (schedule_at_wall writes env s scope label command callback epoch).0
    unfolding schedule_at_wall
    schedule_at_wall-IsValid epoch =
        if_ind Keeps (epoch == 0) (λ y. v)
          (λ n.
            (add-Answer s (request scope label command callback wall epoch 0) v (ground arith)).1)

    pub schedule_after-IsValid :
        (delay : ℕ) → IsValid (schedule_after writes env s scope label command callback delay).0
    unfolding schedule_after
    schedule_after-IsValid delay =
        if_ind Keeps (ltb max_interval delay) (λ y. v)
          (λ n.
            (add-Answer s
              (request scope label command callback monotonic ((env.millis + delay) % 2 ^ 32) 0) v
              (ground arith)).1)

    pub schedule_every_wall-IsValid :
        (interval : ℕ)
        → IsValid (schedule_every_wall writes env s scope label command callback interval).0
    unfolding schedule_every_wall
    schedule_every_wall-IsValid interval =
        if_ind Keeps (interval == 0 || ltb max_interval interval) (λ y. v)
          (λ n.
            (add-Answer (ensure_initialized env s)
              (request scope label command callback wall (first_wall_due env.wall_now interval)
                interval)
              (ensure_initialized-IsValid env s v) (ground arith)).1)

    pub schedule_every_monotonic-IsValid :
        (interval : ℕ)
        → IsValid (schedule_every_monotonic writes env s scope label command callback interval).0
    unfolding schedule_every_monotonic
    schedule_every_monotonic-IsValid interval =
        if_ind Keeps (interval == 0 || ltb max_interval interval) (λ y. v)
          (λ n.
            (add-Answer s
              (request scope label command callback monotonic ((env.millis + interval) % 2 ^ 32)
                interval)
              v (ground arith)).1)

  pub set_timeout-IsValid :
      (text : ℕ → Bytes) (s : Scheduler) (callback delay : ℕ)
      → IsValid s
      → IsValid (set_timeout writes text env s callback delay).0
  unfolding set_timeout
  set_timeout-IsValid text s callback delay v =
      schedule_after-IsValid (record s { next_timeout_id = (s.next_timeout_id + 1) % 2 ^ 32 }) v
        managed (timeout_label text s.next_timeout_id) [] (some callback) delay
