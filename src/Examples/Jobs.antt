-- ===== src/Examples/Jobs.antt =====
-- The scheduler on concrete values: two jobs, one of them saved, a tick, a restart.
use night_mare_network.Base.{
  ℕ, ◌-◌, ◌≡◌, refl, true, false, leb, if◌then◌else◌, Bytes, none, some, List, [], ◌∷◌, arith,
}
use night_mare_network.Scheduler.Jobs.{
  WriteAnswer, written, spoiled, managed, user, wall, Job, Scheduler, Surroundings, new_scheduler,
  has_label, find_job, get_job, entries_of, is_free, any_job, has_come, no_job,
}
use night_mare_network.Scheduler.Loading.{ensure_initialized, try_storage, load}
use night_mare_network.Scheduler.Calls.{
  request, add, add_at, is_refused, save, write_jobs, after_write, schedule_at_wall, schedule_after,
  remove_label, clear,
}
use night_mare_network.Scheduler.Tick.{waits, due_now, readiness, tick}
use night_mare_network.Scheduler.Invariant.{
  IsValid, ensure_initialized-IsValid, new_scheduler-IsValid,
}
use night_mare_network.Scheduler.Adding.{AddAnswer, add-Answer}
use night_mare_network.Scheduler.Removing.{RemoveAnswer, remove_label-Answer}
use night_mare_network.Scheduler.Clearing.{ClearAnswer, clear-Answer}
use night_mare_network.Scheduler.Steps.{Call, at_wall, after, step, run, calls_run-IsValid}
use night_mare_network.Scheduler.Deadlines.{schedule_after-readiness}
use night_mare_network.Scheduler.Restarting.{restored, restart-restored}
use night_mare_network.Scheduler.Turns.{quiet}
use night_mare_network.Scheduler.Rounds.{ticked_jobs, due_jobs, tick-due_jobs}

abbrev works : ℕ → WriteAnswer
works n = written

-- Every write fails after the file was opened, and the file is removed.
abbrev spoils : ℕ → WriteAnswer
spoils n = spoiled none

-- 100 ms before the clock wraps around.
abbrev now : Surroundings
now = record {
  millis = 4294967196;
  wall_now = some 1000;
  storage_begins = true;
  task_starts = true;
}

abbrev later : Surroundings
later = record { millis = 400; wall_now = some 1010; storage_begins = true; task_starts = true }

-- "b" and "c".
abbrev backup : Bytes
backup = b'b' ∷ []

abbrev clean : Bytes
clean = b'c' ∷ []

abbrev no_text : ℕ → Bytes
no_text n = []

abbrev calls : List (Surroundings × Call)
calls =
    (now, at_wall user backup backup none 2000) ∷ (now, after managed clean [] (some 7) 500) ∷ []

abbrev filled : Scheduler
filled = run works quiet no_text (new_scheduler none) calls

filled-IsValid : IsValid filled
filled-IsValid = calls_run-IsValid works quiet no_text none calls (λ s job v. v)

calls_run-IsValid_example : IsValid (run works quiet no_text (new_scheduler none) calls)
calls_run-IsValid_example = calls_run-IsValid works quiet no_text none calls (λ s job v. v)

abbrev nightly : Job
nightly = request user clean clean none wall 3000 0

add-Answer_example :
    AddAnswer works (ensure_initialized now filled) nightly (add works now filled nightly)
add-Answer_example = add-Answer works now filled nightly filled-IsValid refl

remove_label-Answer_example :
    RemoveAnswer works
      (ensure_initialized now filled)
      (has_label user backup)
      (remove_label works now filled backup user)
remove_label-Answer_example = remove_label-Answer works now filled backup user filled-IsValid

clear-Answer_example :
    ClearAnswer spoils (ensure_initialized now filled) user (clear spoils now filled user)
clear-Answer_example = clear-Answer spoils now filled user filled-IsValid

restart-restored_example :
    (ensure_initialized now (new_scheduler (some (entries_of none filled.jobs)))).jobs
    ≡ restored filled.jobs
restart-restored_example = restart-restored now filled filled-IsValid refl

abbrev started : Scheduler
started = ensure_initialized now (new_scheduler none)

after_accepted : (schedule_after works now started managed clean [] (some 7) 500).1 ≡ some 1
unfolding schedule_after add add_at is_refused ensure_initialized try_storage load new_scheduler
    has_come find_job is_free no_job any_job has_label save write_jobs after_write
after_accepted = refl

schedule_after-readiness_example :
    (slot : ℕ) × (find_job
        (has_label managed clean)
        (schedule_after works now started managed clean [] (some 7) 500).0.jobs
      ≡ some slot)
    × (readiness later
          (get_job (schedule_after works now started managed clean [] (some 7) 500).0.jobs slot)
        ≡ (if leb 500 500 then due_now else waits))
schedule_after-readiness_example =
    schedule_after-readiness works now started managed clean [] (some 7) 500
      (ensure_initialized-IsValid now (new_scheduler none) (new_scheduler-IsValid none))
      (omega arith) (omega arith) 1 after_accepted later 500 (omega arith) refl

filled_ready : (ensure_initialized later filled).storage_ready ≡ true
unfolding run step schedule_at_wall schedule_after add add_at is_refused ensure_initialized
    try_storage load new_scheduler has_come find_job is_free any_job has_label save write_jobs
    after_write entries_of no_job
filled_ready = refl

filled_idle : filled.dispatching ≡ false
unfolding run step schedule_at_wall schedule_after add add_at is_refused ensure_initialized
    try_storage load new_scheduler has_come find_job is_free any_job has_label save write_jobs
    after_write entries_of no_job
filled_idle = refl

tick-due_jobs_example :
    ((tick works quiet later filled).0.jobs
      ≡ ticked_jobs later
          ((ensure_initialized later filled).next_id - 1)
          (ensure_initialized later filled).jobs)
    × ((tick works quiet later filled).1
        ≡ due_jobs later
            ((ensure_initialized later filled).next_id - 1)
            (ensure_initialized later filled).jobs)
tick-due_jobs_example =
    tick-due_jobs works later filled (λ n. refl) filled-IsValid filled_idle filled_ready
