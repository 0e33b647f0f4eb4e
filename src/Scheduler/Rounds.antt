-- ===== src/Scheduler/Rounds.antt =====
-- A whole `tick` of src/Core/Scheduler.cpp against its description: which jobs run and what is left
-- of each, where the jobs that run do not call the scheduler and the storage answers.
use night_mare_network.Base.{
  ℕ, ◌+◌, ◌-◌, ◌%◌, ◌^◌, ◌≡◌, refl, ap, ◌∙◌, Bool, true, false, not, ◌&&◌, ◌==◌, leb, ltb,
  if◌then◌else◌, Option, none, some, List, [], ◌∷◌, arith,
}
use night_mare_network.Scheduler.Jobs.{
  WriteAnswer, written, Job, no_job, Scheduler, Surroundings, wall, monotonic, SchedulerClock,
  is_wall, has_come,
}
use night_mare_network.Scheduler.Loading.{ensure_initialized}
use night_mare_network.Scheduler.Tick.{readiness, after_run, tick}
use night_mare_network.Scheduler.Invariant.{IsValid}
use night_mare_network.Scheduler.Turns.{
  quiet, turn_runs, turn_leaves, turns_run, turns_leave, tick-turns,
}

-- A deadline on the wall clock, where it is valid: a job that repeats and has none yet waits for it.
abbrev pub wall_arrived : Option ℕ → Job → Bool
wall_arrived none job = false
wall_arrived (some now) job = not (job.due == 0 && not (job.interval == 0)) && leb job.due now

abbrev pub has_arrived : Surroundings → SchedulerClock → Job → Bool
has_arrived env wall job = wall_arrived env.wall_now job
has_arrived env monotonic job = ltb ((env.millis + 2 ^ 32 - job.due) % 2 ^ 32) (2 ^ 31)

-- A job that was there when the tick began, and whose time has come.
abbrev pub is_due : Surroundings → ℕ → Job → Bool
is_due env last job = job.active && leb job.id last && has_arrived env job.clock job

-- A job that repeats on the wall clock and gets its first deadline.
abbrev pub is_armed : Surroundings → ℕ → Job → Bool
is_armed env last job =
    job.active
    && leb job.id last
    && is_wall job.clock
    && is_valid env.wall_now
    && job.due == 0
    && not (job.interval == 0)
  where
    is_valid : Option ℕ → Bool
    is_valid none = false
    is_valid (some now) = true

abbrev pub wall_time : Option ℕ → ℕ
wall_time none = 0
wall_time (some now) = now

abbrev pub time_on : Surroundings → SchedulerClock → ℕ
time_on env wall = wall_time env.wall_now
time_on env monotonic = env.millis

abbrev pub next_deadline : Surroundings → Job → Job
next_deadline env job = record job { due = (time_on env job.clock + job.interval) % 2 ^ 32 }

-- A job as a tick leaves it.
abbrev pub ticked : Surroundings → ℕ → Job → Job
ticked env last job =
    if is_due env last job
    then (if job.interval == 0 then no_job else next_deadline env job)
    else if is_armed env last job
    then next_deadline env job
    else job

abbrev pub due_jobs : Surroundings → ℕ → List Job → List Job
due_jobs env last [] = []
due_jobs env last (job ∷ jobs) =
    if is_due env last job then job ∷ due_jobs env last jobs else due_jobs env last jobs

abbrev pub ticked_jobs : Surroundings → ℕ → List Job → List Job
ticked_jobs env last [] = []
ticked_jobs env last (job ∷ jobs) = ticked env last job ∷ ticked_jobs env last jobs

turn_runs-is_due :
    (env : Surroundings) (last : ℕ) (job : Job) → turn_runs env last job ≡ is_due env last job
unfolding readiness has_come
turn_runs-is_due env last job = ground arith

turn_leaves-ticked :
    (env : Surroundings) (last : ℕ) (job : Job) → turn_leaves env last job ≡ ticked env last job
unfolding readiness has_come after_run
turn_leaves-ticked env last job = ground arith

turns_run-due_jobs :
    (env : Surroundings) (last : ℕ) (js : List Job) → turns_run env last js ≡ due_jobs env last js
turns_run-due_jobs env last [] = refl
turns_run-due_jobs env last (j ∷ js) =
    rw (turn_runs-is_due env last j, turns_run-due_jobs env last js) refl

turns_leave-ticked_jobs :
    (env : Surroundings) (last : ℕ) (js : List Job)
    → turns_leave env last js ≡ ticked_jobs env last js
turns_leave-ticked_jobs env last [] = refl
turns_leave-ticked_jobs env last (j ∷ js) =
    ap (λ k. k ∷ turns_leave env last js) (turn_leaves-ticked env last j)
    ∙ ap (◌∷◌ (ticked env last j)) (turns_leave-ticked_jobs env last js)

-- With storage that answers and jobs that do not call the scheduler, a tick runs exactly the jobs
-- that are due, in the order of their slots, and leaves each slot as its own description says: a job
-- that is not due as it was or armed, one that ran with its next deadline or gone.
pub tick-due_jobs :
    (writes : ℕ → WriteAnswer) (env : Surroundings) (s : Scheduler)
    → ((n : ℕ) → writes n ≡ written)
    → IsValid s
    → s.dispatching ≡ false
    → (ensure_initialized env s).storage_ready ≡ true
    → ((tick writes quiet env s).0.jobs
        ≡ ticked_jobs env ((ensure_initialized env s).next_id - 1) (ensure_initialized env s).jobs)
      × ((tick writes quiet env s).1
          ≡ due_jobs env ((ensure_initialized env s).next_id - 1) (ensure_initialized env s).jobs)
tick-due_jobs writes env s works v idle ready =
    let s' = ensure_initialized env s in
    let round = tick-turns writes env s works v idle ready in
    (
      round.0 ∙ turns_leave-ticked_jobs env (s'.next_id - 1) s'.jobs,
      round.1 ∙ turns_run-due_jobs env (s'.next_id - 1) s'.jobs,
    )
