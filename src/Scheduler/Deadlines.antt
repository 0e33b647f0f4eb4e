-- ===== src/Scheduler/Deadlines.antt =====
-- When a job on the monotonic clock is due, over the wrap-around of the clock.
use night_mare_network.Base.{
  ℕ, ◌+◌, ◌%◌, ◌^◌, ◌≤◌, ◌<◌, ◌≡◌, refl, sym, ap, subst, ◌∙◌, Bool, true, false, ltb, leb,
  if◌then◌else◌, Bytes, Option, some, arith,
}
use night_mare_network.Scheduler.Jobs.{
  WriteAnswer, SchedulerJobScope, monotonic, Job, Scheduler, Surroundings, max_interval, has_come,
  is_wall, get_job, find_job, has_label,
}
use night_mare_network.Scheduler.Loading.{ensure_initialized}
use night_mare_network.Scheduler.Calls.{request, add, schedule_after}
use night_mare_network.Scheduler.Invariant.{IsValid}
use night_mare_network.Scheduler.Adding.{Added, AddOutcome, add-Answer}
use night_mare_network.Scheduler.Tick.{waits, due_now, readiness}

-- A deadline that is set `delay` ahead has come `passed` later exactly when `delay` is over, for
-- anything under 2^31 milliseconds.
has_come-after :
    (now delay passed : ℕ)
    → now < 2 ^ 32
    → delay < 2 ^ 31
    → passed < 2 ^ 31
    → has_come ((now + passed) % 2 ^ 32) ((now + delay) % 2 ^ 32) ≡ leb delay passed
unfolding has_come
has_come-after now delay passed a b c = ground arith

readiness-has_come :
    (env : Surroundings) (job : Job) (b : Bool)
    → is_wall job.clock ≡ false
    → has_come env.millis job.due ≡ b
    → readiness env job ≡ (if b then due_now else waits)
unfolding readiness
readiness-has_come env job b m e = rw (m, e) refl

module _ (writes : ℕ → WriteAnswer) (env : Surroundings) (s : Scheduler) (scope : SchedulerJobScope)
    (label command : Bytes) (callback : Option ℕ) (delay : ℕ) where
  abbrev job_after : Job
  job_after = request scope label command callback monotonic ((env.millis + delay) % 2 ^ 32) 0

  -- A delay within the bound is the answer of `add`.
  schedule_after-add :
      delay ≤ max_interval
      → schedule_after writes env s scope label command callback delay ≡ add writes env s job_after
  unfolding schedule_after
  schedule_after-add fits =
      let not_over : ltb max_interval delay ≡ false = ground arith in rw not_over refl

  -- A job that `after` accepts stands under its label, and `passed` milliseconds later, on a clock of
  -- 32 bits that may have wrapped around, `tick` finds it due if the delay is over and leaves it
  -- waiting if not, for a delay and a time under 2^31 milliseconds.
  pub schedule_after-readiness :
      IsValid s
      → env.millis < 2 ^ 32
      → delay ≤ max_interval
      → (id : ℕ) → (schedule_after writes env s scope label command callback delay).1 ≡ some id
      → (later : Surroundings) (passed : ℕ) → passed < 2 ^ 31
      → later.millis ≡ (env.millis + passed) % 2 ^ 32
      → (slot : ℕ) × (find_job
            (has_label scope label)
            (schedule_after writes env s scope label command callback delay).0.jobs
          ≡ some slot)
        × (readiness later
              (get_job (schedule_after writes env s scope label command callback delay).0.jobs slot)
            ≡ (if leb delay passed then due_now else waits))
  schedule_after-readiness v now fits id e later passed early at =
      let same = schedule_after-add fits in
      let a : Added (ensure_initialized env s) job_after (add writes env s job_after).0 id =
        subst
          (AddOutcome writes (ensure_initialized env s) job_after (add writes env s job_after).0)
          (ap (λ (r : Scheduler × Option ℕ). r.1) (sym same) ∙ e)
          (add-Answer writes env s job_after v refl).0 in
      rw same (
        a.slot,
        a.found,
        rw a.placed (
            readiness-has_come later (record job_after { active = true; id = id }) _ refl
              (rw at (has_come-after env.millis delay passed now (omega arith) early))),
      )
