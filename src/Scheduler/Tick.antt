-- ===== src/Scheduler/Tick.antt =====
-- The loop that runs the due jobs: `tick` of src/Core/Scheduler.cpp.
use night_mare_network.Base.{
  ℕ, zero, suc, ◌+◌, ◌-◌, ◌%◌, ◌^◌, true, false, not, ◌&&◌, ◌||◌, ◌==◌, ltb, if◌then◌else◌, Option,
  none, some, List, [], ◌∷◌, ◌++◌,
}
use night_mare_network.Base.Slots.{modify}
use night_mare_network.Scheduler.Jobs.{
  WriteAnswer, Job, no_job, Scheduler, max_jobs, Surroundings, has_come, is_wall, persists, get_job,
}
use night_mare_network.Scheduler.Loading.{ensure_initialized}
use night_mare_network.Scheduler.Calls.{save}

-- What `tick` finds of a job: not yet, to be given its first deadline, or due.
pub data Readiness : Type 0 where
  waits due_now : Readiness
  armed : ℕ → Readiness

unfoldable pub wall_readiness : Option ℕ → Job → Readiness
wall_readiness none job = waits
wall_readiness (some now) job =
    if job.due == 0 && not (job.interval == 0)
    then armed ((now + job.interval) % 2 ^ 32)
    else if ltb now job.due
    then waits
    else due_now

unfoldable pub readiness : Surroundings → Job → Readiness
unfolding wall_readiness has_come
readiness env job =
    if is_wall job.clock
    then wall_readiness env.wall_now job
    else if has_come env.millis job.due
    then due_now
    else waits

abbrev pub wall_or_zero : Option ℕ → ℕ
wall_or_zero none = 0
wall_or_zero (some now) = now

-- A job as its run leaves it.
unfoldable pub after_run : Surroundings → Job → Job
unfolding no_job
after_run env job =
    if job.interval == 0
    then no_job
    else if is_wall job.clock
    then record job { due = (wall_or_zero env.wall_now + job.interval) % 2 ^ 32 }
    else record job { due = (env.millis + job.interval) % 2 ^ 32 }

module _ (writes : ℕ → WriteAnswer) (run_job : Scheduler → Job → Scheduler) where
  -- A due job at slot `i`, with the jobs that were run.
  unfoldable pub fire : Surroundings → Scheduler → ℕ → Job → Scheduler × List Job
  unfolding after_run save
  fire env s i job =
      let moved = record s { jobs = modify s.jobs i (λ _. after_run env job) } in
      let (saved, done) = save writes moved in
      if persists job && job.interval == 0
      then (if done
          then (run_job saved job, job ∷ [])
          else (record saved { jobs = modify saved.jobs i (λ _. job) }, []))
      else (run_job moved job, job ∷ [])

  unfoldable pub tick_slot : Surroundings → ℕ → Scheduler → ℕ → Scheduler × List Job
  unfolding fire readiness
  tick_slot env last s i =
      let job = get_job s.jobs i in
      if not job.active || ltb last job.id then (s, []) else elim (readiness env job) [
        | waits ↦ (s, [])
        | armed due ↦ (record s { jobs = modify s.jobs i (λ _. record job { due = due }) }, [])
        | due_now ↦ fire env s i job
      ]

  -- The loop over the slots from `i` on, `left` of them.
  unfoldable pub tick_from : Surroundings → ℕ → ℕ → ℕ → Scheduler → Scheduler × List Job
  tick_from env last zero i s = (s, [])
  tick_from env last (suc left) i s =
      let (s', ran) = tick_slot env last s i in
      let (s'', more) = tick_from env last left (suc i) s' in (s'', ran ++ more)

  unfoldable pub tick : Surroundings → Scheduler → Scheduler × List Job
  tick env s =
      let s' = record (ensure_initialized env s) { dispatching = true } in
      let (s'', ran) = tick_from env (s'.next_id - 1) max_jobs 0 s' in
      if s.dispatching then (s, []) else (record s'' { dispatching = false }, ran)
