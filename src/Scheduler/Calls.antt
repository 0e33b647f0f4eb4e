-- ===== src/Scheduler/Calls.antt =====
-- The calls of src/Core/Scheduler.cpp that start the scheduler, add jobs and remove them.
use night_mare_network.Base.{
  ℕ, suc, ◌+◌, ◌%◌, ◌^◌, Bool, true, false, not, ◌&&◌, ◌||◌, ◌==◌, ltb, if◌then◌else◌, Bytes,
  is_empty, Option, none, some, List, [], ◌∷◌, ◌++◌, length,
}
use night_mare_network.Base.Slots.{modify}
use night_mare_network.Scheduler.Jobs.{
  SchedulerClock, wall, monotonic, SchedulerRunMode, task, manual, SchedulerJobScope, managed, Job,
  WriteAnswer, written, unopened, spoiled, no_job, Scheduler, int32_max, max_interval,
  max_label_length, max_message_length, Surroundings, scope_eq, is_wall, is_set, persists,
  entries_of, get_job, find_job, is_free, has_label, has_id, any_job,
}
use night_mare_network.Scheduler.Loading.{ensure_initialized}

-- `priority` and `stackSize` are their defaults.
unfoldable pub start_task : Surroundings → Scheduler → Scheduler × Bool
start_task env s =
    if s.task_runs
    then (s, true)
    else if env.task_starts
    then (record s { task_runs = true }, true)
    else (s, false)

unfoldable pub same_mode : SchedulerRunMode → SchedulerRunMode → Bool
same_mode task task = true
same_mode manual manual = true
same_mode _ _ = false

abbrev pub is_task : SchedulerRunMode → Bool
is_task task = true
is_task manual = false

-- Where a mode is fixed, and where none is.
unfoldable pub begin_again : Surroundings → Scheduler → SchedulerRunMode → Scheduler × Bool
unfolding same_mode start_task
begin_again env s mode =
    if not (same_mode mode s.mode)
    then (s, false)
    else if is_task s.mode
    then start_task env s
    else (s, true)

unfoldable pub begin_first : Surroundings → Scheduler → SchedulerRunMode → Scheduler × Bool
unfolding start_task
begin_first env s mode =
    let (s', started) = start_task env s in
    if is_task mode
    then (if started then (record s' { mode = mode; mode_fixed = true }, true) else (s', false))
    else (record s { mode = mode; mode_fixed = true }, true)

unfoldable pub begin : Surroundings → Scheduler → SchedulerRunMode → Scheduler × Bool
unfolding begin_again begin_first
begin env s mode =
    let s' = ensure_initialized env s in
    if s'.mode_fixed then begin_again env s' mode else begin_first env s' mode

-- A target: a command or a callback, never the empty command with none in the public calls.
abbrev pub request : SchedulerJobScope → Bytes → Bytes → Option ℕ → SchedulerClock → ℕ → ℕ → Job
request scope label command callback clock due interval = record {
  active = false;
  id = 0;
  scope = scope;
  label = label;
  command = command;
  clock = clock;
  due = due;
  interval = interval;
  callback = callback;
}

abbrev pub first_wall_due : Option ℕ → ℕ → ℕ
first_wall_due none interval = 0
first_wall_due (some now) interval = (now + interval) % 2 ^ 32

-- `"Timeout_"` and a number; `text` is `std::to_string`.
abbrev pub timeout_label : (ℕ → Bytes) → ℕ → Bytes
timeout_label text n = (b'T' ∷ b'i' ∷ b'm' ∷ b'e' ∷ b'o' ∷ b'u' ∷ b't' ∷ b'_' ∷ []) ++ text n

unfoldable pub persists_in : SchedulerJobScope → Job → Bool
unfolding persists scope_eq
persists_in scope job = persists job && scope_eq job.scope scope

unfoldable pub clear_scope : SchedulerJobScope → List Job → List Job
unfolding scope_eq no_job
clear_scope scope [] = []
clear_scope scope (job ∷ jobs) =
    (if job.active && scope_eq job.scope scope then no_job else job) ∷ clear_scope scope jobs

-- The tests of `add` before a slot is looked for.
unfoldable pub is_refused : Scheduler → Job → Bool
is_refused s job =
    (not (is_empty job.command) && is_set job.callback)
    || (is_empty job.command && not (is_set job.callback))
    || is_empty job.label
    || ltb max_label_length (length job.label)
    || ltb max_message_length (length job.command)
    || (is_wall job.clock && not (is_empty job.command) && not s.storage_ready)
    || s.next_id == 0
    || ltb int32_max s.next_id
    || any_job (has_label job.scope job.label) s.jobs

unfoldable pub after_write : Scheduler → Option SchedulerJobScope → WriteAnswer → Scheduler × Bool
after_write s omit written =
    (record s { file = some (entries_of omit s.jobs); attempts = suc s.attempts }, true)
after_write s omit unopened = (record s { attempts = suc s.attempts }, false)
after_write s omit (spoiled left) = (record s { file = left; attempts = suc s.attempts }, false)

module _ (writes : ℕ → WriteAnswer) where
  unfoldable pub write_jobs : Scheduler → Option SchedulerJobScope → Scheduler × Bool
  unfolding after_write
  write_jobs s omit =
      if not s.storage_ready then (s, false) else after_write s omit (writes s.attempts)

  unfoldable pub save : Scheduler → Scheduler × Bool
  unfolding write_jobs
  save s = write_jobs s none

  -- The job in the free slot at `i`; a job that persists and is not saved is taken back.
  unfoldable pub add_at : Scheduler → ℕ → Job → Scheduler × Option ℕ
  unfolding save
  add_at s i job =
      let id = s.next_id in
      let placed = record s {
        jobs = modify s.jobs i (λ _. record job { active = true; id = id });
        next_id = (id + 1) % 2 ^ 32;
      } in
      let (saved, done) = save placed in
      if is_wall job.clock && not (is_empty job.command)
      then (if done
          then (saved, some id)
          else (record saved { jobs = modify saved.jobs i (λ _. no_job); next_id = id }, none))
      else (placed, some id)

  -- `job` has the arguments of the call; `none` is -1.
  unfoldable pub add : Surroundings → Scheduler → Job → Scheduler × Option ℕ
  unfolding is_refused add_at
  add env s job =
      let s' = ensure_initialized env s in
      if is_refused s' job
      then (s', none)
      else elim (find_job is_free s'.jobs) [ none ↦ (s', none) | some i ↦ add_at s' i job ]

  unfoldable pub schedule_at_wall :
      Surroundings
      → Scheduler
      → SchedulerJobScope
      → Bytes
      → Bytes
      → Option ℕ
      → ℕ
      → Scheduler × Option ℕ
  unfolding add
  schedule_at_wall env s scope label command callback epoch =
      if epoch == 0
      then (s, none)
      else add env s (request scope label command callback wall epoch 0)

  unfoldable pub schedule_after :
      Surroundings
      → Scheduler
      → SchedulerJobScope
      → Bytes
      → Bytes
      → Option ℕ
      → ℕ
      → Scheduler × Option ℕ
  unfolding add
  schedule_after env s scope label command callback delay =
      if ltb max_interval delay
      then (s, none)
      else add env s
          (request scope label command callback monotonic ((env.millis + delay) % 2 ^ 32) 0)

  unfoldable pub schedule_every_wall :
      Surroundings
      → Scheduler
      → SchedulerJobScope
      → Bytes
      → Bytes
      → Option ℕ
      → ℕ
      → Scheduler × Option ℕ
  unfolding add
  schedule_every_wall env s scope label command callback interval =
      if interval == 0 || ltb max_interval interval
      then (s, none)
      else add env (ensure_initialized env s) (
          request scope label command callback wall (first_wall_due env.wall_now interval) interval)

  unfoldable pub schedule_every_monotonic :
      Surroundings
      → Scheduler
      → SchedulerJobScope
      → Bytes
      → Bytes
      → Option ℕ
      → ℕ
      → Scheduler × Option ℕ
  unfolding add
  schedule_every_monotonic env s scope label command callback interval =
      if interval == 0 || ltb max_interval interval
      then (s, none)
      else add env s (
          request scope label command callback monotonic ((env.millis + interval) % 2 ^ 32)
            interval)

  -- `setTimeout`.
  unfoldable pub set_timeout : (ℕ → Bytes) → Surroundings → Scheduler → ℕ → ℕ → Scheduler × Option ℕ
  unfolding schedule_after
  set_timeout text env s callback delay =
      schedule_after env (record s { next_timeout_id = (s.next_timeout_id + 1) % 2 ^ 32 }) managed
        (timeout_label text s.next_timeout_id) [] (some callback) delay

  unfoldable pub remove_job : Scheduler → ℕ → Scheduler × Bool
  unfolding save
  remove_job s i =
      let previous = get_job s.jobs i in
      let cleared = record s { jobs = modify s.jobs i (λ _. no_job) } in
      let (saved, done) = save cleared in
      if persists previous
      then (if done
          then (saved, true)
          else (record saved { jobs = modify saved.jobs i (λ _. previous) }, false))
      else (cleared, true)

  unfoldable pub remove_found : Surroundings → Scheduler → (Job → Bool) → Scheduler × Bool
  unfolding remove_job
  remove_found env s test =
      let s' = ensure_initialized env s in
      elim (find_job test s'.jobs) [ none ↦ (s', false) | some i ↦ remove_job s' i ]

  unfoldable pub remove_label :
      Surroundings → Scheduler → Bytes → SchedulerJobScope → Scheduler × Bool
  unfolding remove_found
  remove_label env s label scope = remove_found env s (has_label scope label)

  unfoldable pub remove_id : Surroundings → Scheduler → ℕ → SchedulerJobScope → Scheduler × Bool
  unfolding remove_found
  remove_id env s id scope = remove_found env s (has_id scope id)

  unfoldable pub clear : Surroundings → Scheduler → SchedulerJobScope → Scheduler × Bool
  unfolding write_jobs
  clear env s scope =
      let s' = ensure_initialized env s in
      let (tried, done) = write_jobs s' (some scope) in
      if any_job (persists_in scope) s'.jobs
      then (if done
          then (record tried { jobs = clear_scope scope tried.jobs }, true)
          else (tried, false))
      else (record s' { jobs = clear_scope scope s'.jobs }, true)
