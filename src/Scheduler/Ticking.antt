-- ===== src/Scheduler/Ticking.antt =====
-- What `tick` of src/Core/Scheduler.cpp keeps and runs, whatever the jobs that it runs do.
use night_mare_network.Base.{
  ℕ, zero, suc, ◌-◌, ◌≡◌, refl, ap, inl, inr, true, false, not, ◌&&◌, ◌||◌, ◌==◌, ltb, if_ind, List,
  [], ◌∷◌, ◌++◌, All, arith,
}
use night_mare_network.Base.Slots.{modify}
use night_mare_network.Scheduler.Jobs.{
  WriteAnswer, Job, no_job, Scheduler, Surroundings, max_jobs, is_wall, get_job, persists,
}
use night_mare_network.Scheduler.Loading.{ensure_initialized}
use night_mare_network.Scheduler.Calls.{save}
use night_mare_network.Scheduler.Tick.{
  Readiness, waits, due_now, armed, wall_readiness, readiness, after_run, fire, tick_slot,
  tick_from, tick,
}
use night_mare_network.Scheduler.Slots.{Replaces, modify-get_job}
use night_mare_network.Scheduler.Invariant.{
  IsActive, IsSlot, IsValid, replace-IsTable, get_job-IsSlot, ensure_initialized-IsValid,
}
use night_mare_network.Scheduler.Saving.{save-jobs}

after_run-Replaces :
    (env : Surroundings) (job : Job) → job.active ≡ true → Replaces (after_run env job) job
unfolding after_run
after_run-Replaces env job a =
    if_ind (λ (k : Job). Replaces k job) (job.interval == 0) (λ y. λ e. absurd (ground arith))
      (λ n.
        if_ind (λ (k : Job). Replaces k job) (is_wall job.clock) (λ w e. (a, refl, refl, refl))
          (λ w e. (a, refl, refl, refl)))

-- A new deadline of a job that repeats.
due-IsActive :
    (next due : ℕ) (job : Job)
    → IsActive next job
    → (job.interval == 0) ≡ false
    → IsActive next (record job { due = due })
due-IsActive next due job a n = record {
  active = a.active;
  id_pos = a.id_pos;
  id_below = a.id_below;
  labelled = a.labelled;
  label_fits = a.label_fits;
  command_fits = a.command_fits;
  one_target = a.one_target;
  timed = ground arith;
}

after_run-IsSlot :
    (env : Surroundings) (next : ℕ) (job : Job)
    → IsActive next job
    → IsSlot next (after_run env job)
unfolding after_run
after_run-IsSlot env next job a =
    if_ind (IsSlot next) (job.interval == 0) (λ y. inl refl)
      (λ n.
        if_ind (IsSlot next) (is_wall job.clock) (λ w. inr (due-IsActive next _ job a n))
          (λ w. inr (due-IsActive next _ job a n)))

-- Only a job that repeats is armed.
armed-repeats :
    (env : Surroundings) (job : Job) (due : ℕ)
    → readiness env job ≡ armed due
    → (job.interval == 0) ≡ false
unfolding readiness wall_readiness
armed-repeats env job due e = ground arith

pub readiness_ind {ℓ} :
    {A : Type 0} (P : A → Type ℓ) (r : Readiness) {x y : A} {f : ℕ → A}
    → P x
    → ((due : ℕ) → r ≡ armed due → P (f due))
    → (r ≡ due_now → P y)
    → P (elim r [ waits ↦ x | armed due ↦ f due | due_now ↦ y ])
readiness_ind P waits p q r = p
readiness_ind P (armed due) p q r = q due refl
readiness_ind P due_now p q r = r refl

-- A job that `tick` may run: it was there when the tick began, and its time has come.
pub record IsDue (env : Surroundings) (last : ℕ) (job : Job) : Type 0 where
  pub active : job.active ≡ true
  pub old : ltb last job.id ≡ false
  pub due : readiness env job ≡ due_now

abbrev pub TickAnswer : Surroundings → ℕ → Scheduler × List Job → Type 0
TickAnswer env last r = IsValid r.0 × All (IsDue env last) r.1

All-append : (P : Job → Type 0) (xs ys : List Job) → All P xs → All P ys → All P (xs ++ ys)
All-append P [] ys a b = b
All-append P (x ∷ xs) ys a b = (a.0, All-append P xs ys a.1 b)

module _ (writes : ℕ → WriteAnswer) (run_job : Scheduler → Job → Scheduler)
    (keeps : (s : Scheduler) (job : Job) → IsValid s → IsValid (run_job s job)) (env : Surroundings)
    (last : ℕ) where
  module _ (s : Scheduler) (v : IsValid s) (i : ℕ) where
    get_job-IsActive : (get_job s.jobs i).active ≡ true → IsActive s.next_id (get_job s.jobs i)
    unfolding no_job
    get_job-IsActive a = elim (get_job-IsSlot s.jobs s.next_id v i) [
      | inl e ↦ absurd (ground (arith, ap Job.active e))
      | inr b ↦ b
    ]

    fire-TickAnswer :
        IsDue env last (get_job s.jobs i)
        → IsActive s.next_id (get_job s.jobs i)
        → TickAnswer env last (fire writes run_job env s i (get_job s.jobs i))
    unfolding fire
    fire-TickAnswer d a =
        let job = get_job s.jobs i in
        let moved = record s { jobs = modify s.jobs i (λ _. after_run env job) } in
        let kept = save-jobs writes moved in
        let table =
          replace-IsTable s.jobs s.next_id v i (after_run env job)
            (after_run-Replaces env job a.active) (after_run-IsSlot env s.next_id job a) in
        if_ind (TickAnswer env last) (persists job && job.interval == 0)
          (λ y.
            if_ind (TickAnswer env last) (save writes moved).1
              (λ f. (keeps (save writes moved).0 job (rw (kept.0, kept.1) table), (d, tt)))
              (λ f. (rw (kept.0, kept.1, modify-get_job (after_run env job) s.jobs i) v, tt)))
          (λ n. (keeps moved job table, (d, tt)))

    tick_slot-TickAnswer : TickAnswer env last (tick_slot writes run_job env last s i)
    unfolding tick_slot
    tick_slot-TickAnswer =
        let job = get_job s.jobs i in
        if_ind (TickAnswer env last) (not job.active || ltb last job.id) (λ y. (v, tt))
          (λ n.
            let a = get_job-IsActive (ground arith) in
            readiness_ind (TickAnswer env last) (readiness env job) (v, tt)
              (λ due e. (
                replace-IsTable s.jobs s.next_id v i (record job { due = due })
                    (λ b. (a.active, refl, refl, refl))
                    (inr (due-IsActive s.next_id due job a (armed-repeats env job due e))),
                tt,
              ))
              (λ e. fire-TickAnswer (record { active = a.active; old = ground arith; due = e }) a))

  tick_from-TickAnswer :
      (left i : ℕ) (s : Scheduler)
      → IsValid s
      → TickAnswer env last (tick_from writes run_job env last left i s)
  unfolding tick_from
  tick_from-TickAnswer zero i s v = (v, tt)
  tick_from-TickAnswer (suc left) i s v =
      let (v', d) = tick_slot-TickAnswer s v i in
      let (v'', ds) =
        tick_from-TickAnswer left (suc i) (tick_slot writes run_job env last s i).0 v' in
      (v'', All-append (IsDue env last) (tick_slot writes run_job env last s i).1 _ d ds)

-- A tick keeps the jobs valid where the jobs that it runs do, and runs only jobs that were there when
-- it began and that are due.
pub tick-Answer :
    (writes : ℕ → WriteAnswer) (run_job : Scheduler → Job → Scheduler) (env : Surroundings)
    (s : Scheduler)
    → ((t : Scheduler) (job : Job) → IsValid t → IsValid (run_job t job))
    → IsValid s
    → TickAnswer env ((ensure_initialized env s).next_id - 1) (tick writes run_job env s)
unfolding tick
tick-Answer writes run_job env s keeps v =
    let s' = ensure_initialized env s in
    let (v'', d) =
      tick_from-TickAnswer writes run_job keeps env (s'.next_id - 1) max_jobs 0
        (record s' { dispatching = true }) (ensure_initialized-IsValid env s v) in
    if_ind (TickAnswer env (s'.next_id - 1)) s.dispatching (λ y. (v, tt)) (λ n. (v'', d))
