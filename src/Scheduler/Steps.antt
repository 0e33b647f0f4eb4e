-- ===== src/Scheduler/Steps.antt =====
-- Any sequence of the calls of src/Core/Scheduler.h.
use night_mare_network.Base.{ℕ, ◌≡◌, Bytes, Option, List, [], ◌∷◌, arith}
use night_mare_network.Scheduler.Jobs.{
  WriteAnswer, SchedulerRunMode, SchedulerJobScope, Job, Entry, Scheduler, Surroundings,
  new_scheduler,
}
use night_mare_network.Scheduler.Loading.{ensure_initialized}
use night_mare_network.Scheduler.Calls.{
  begin, begin_again, begin_first, start_task, schedule_at_wall, schedule_after,
  schedule_every_wall, schedule_every_monotonic, set_timeout, remove_label, remove_id, clear,
}
use night_mare_network.Scheduler.Tick.{tick}
use night_mare_network.Scheduler.Invariant.{
  IsValid, new_scheduler-IsValid, ensure_initialized-IsValid,
}
use night_mare_network.Scheduler.Adding.{
  schedule_at_wall-IsValid, schedule_after-IsValid, schedule_every_wall-IsValid,
  schedule_every_monotonic-IsValid, set_timeout-IsValid,
}
use night_mare_network.Scheduler.Removing.{remove_label-Answer, remove_id-Answer}
use night_mare_network.Scheduler.Clearing.{clear-Answer}
use night_mare_network.Scheduler.Ticking.{tick-Answer}

pub data Call : Type 0 where
  begins : SchedulerRunMode → Call
  at_wall after every_wall every_monotonic : SchedulerJobScope → Bytes → Bytes → Option ℕ → ℕ → Call
  timeout : ℕ → ℕ → Call
  removes : Bytes → SchedulerJobScope → Call
  removes_id : ℕ → SchedulerJobScope → Call
  clears : SchedulerJobScope → Call
  ticks : Call

start_task-kept :
    (env : Surroundings) (s : Scheduler)
    → ((start_task env s).0.jobs ≡ s.jobs) × ((start_task env s).0.next_id ≡ s.next_id)
unfolding start_task
start_task-kept env s = ground arith

begin-kept :
    (env : Surroundings) (s : Scheduler) (mode : SchedulerRunMode)
    → ((begin env s mode).0.jobs ≡ (ensure_initialized env s).jobs)
      × ((begin env s mode).0.next_id ≡ (ensure_initialized env s).next_id)
unfolding begin begin_again begin_first
begin-kept env s mode = ground (arith, start_task-kept env (ensure_initialized env s))

module _ (writes : ℕ → WriteAnswer) (run_job : Scheduler → Job → Scheduler) (text : ℕ → Bytes) where
  unfoldable pub step : Scheduler → Surroundings × Call → Scheduler
  step s (env, begins mode) = (begin env s mode).0
  step s (env, at_wall scope label command callback epoch) =
      (schedule_at_wall writes env s scope label command callback epoch).0
  step s (env, after scope label command callback delay) =
      (schedule_after writes env s scope label command callback delay).0
  step s (env, every_wall scope label command callback interval) =
      (schedule_every_wall writes env s scope label command callback interval).0
  step s (env, every_monotonic scope label command callback interval) =
      (schedule_every_monotonic writes env s scope label command callback interval).0
  step s (env, timeout callback delay) = (set_timeout writes text env s callback delay).0
  step s (env, removes label scope) = (remove_label writes env s label scope).0
  step s (env, removes_id id scope) = (remove_id writes env s id scope).0
  step s (env, clears scope) = (clear writes env s scope).0
  step s (env, ticks) = (tick writes run_job env s).0

  unfoldable pub run : Scheduler → List (Surroundings × Call) → Scheduler
  run s [] = s
  run s (c ∷ cs) = run (step s c) cs

  module _ (keeps : (s : Scheduler) (job : Job) → IsValid s → IsValid (run_job s job)) where
    pub step-IsValid : (s : Scheduler) (c : Surroundings × Call) → IsValid s → IsValid (step s c)
    unfolding step
    step-IsValid s (env, begins mode) v =
        let kept = begin-kept env s mode in rw (kept.0, kept.1) (ensure_initialized-IsValid env s v)
    step-IsValid s (env, at_wall scope label command callback epoch) v =
        schedule_at_wall-IsValid writes env s v scope label command callback epoch
    step-IsValid s (env, after scope label command callback delay) v =
        schedule_after-IsValid writes env s v scope label command callback delay
    step-IsValid s (env, every_wall scope label command callback interval) v =
        schedule_every_wall-IsValid writes env s v scope label command callback interval
    step-IsValid s (env, every_monotonic scope label command callback interval) v =
        schedule_every_monotonic-IsValid writes env s v scope label command callback interval
    step-IsValid s (env, timeout callback delay) v =
        set_timeout-IsValid writes env text s callback delay v
    step-IsValid s (env, removes label scope) v = (remove_label-Answer writes env s label scope v).1
    step-IsValid s (env, removes_id id scope) v = (remove_id-Answer writes env s id scope v).1
    step-IsValid s (env, clears scope) v = (clear-Answer writes env s scope v).1
    step-IsValid s (env, ticks) v = (tick-Answer writes run_job env s keeps v).0

    calls-IsValid :
        (cs : List (Surroundings × Call)) (s : Scheduler) → IsValid s → IsValid (run s cs)
    unfolding run
    calls-IsValid [] s v = v
    calls-IsValid (c ∷ cs) s v = calls-IsValid cs (step s c) (step-IsValid s c v)

-- After any sequence of calls on a new scheduler, whatever its file holds and whatever the writes and
-- the clocks answer, there are thirty slots, each empty or a well-formed job of an id below the next,
-- and no two active jobs share an id or the label in a scope; the jobs that run have to keep this.
pub calls_run-IsValid :
    (writes : ℕ → WriteAnswer) (run_job : Scheduler → Job → Scheduler) (text : ℕ → Bytes)
    (file : Option (List Entry)) (cs : List (Surroundings × Call))
    → ((s : Scheduler) (job : Job) → IsValid s → IsValid (run_job s job))
    → IsValid (run writes run_job text (new_scheduler file) cs)
calls_run-IsValid writes run_job text file cs keeps =
    calls-IsValid writes run_job text keeps cs (new_scheduler file) (new_scheduler-IsValid file)
