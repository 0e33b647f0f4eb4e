-- ===== src/Scheduler/Jobs.antt =====
-- The jobs and the state of the scheduler: src/Core/Scheduler.h and the helpers of Scheduler.cpp.
use night_mare_network.Base.{
  ℕ, zero, suc, ◌+◌, ◌-◌, ◌%◌, ◌^◌, Bool, true, false, not, ◌&&◌, ◌||◌, ◌==◌, ltb, if◌then◌else◌,
  Bytes, bytes_eq, Option, none, some, List, [], ◌∷◌, replicate,
}

pub data SchedulerClock : Type 0 where
  wall monotonic : SchedulerClock

pub data SchedulerRunMode : Type 0 where
  task manual : SchedulerRunMode

pub data SchedulerJobScope : Type 0 where
  managed user : SchedulerJobScope

pub record Job : Type 0 where
  pub active : Bool
  pub id : ℕ  -- uint32
  pub scope : SchedulerJobScope
  pub label : Bytes
  pub command : Bytes
  pub clock : SchedulerClock
  pub due : ℕ  -- uint32
  pub interval : ℕ  -- uint32
  pub callback : Option ℕ

-- `Job{}`
unfoldable pub no_job : Job
no_job = record {
  active = false;
  id = 0;
  scope = managed;
  label = [];
  command = [];
  clock = monotonic;
  due = 0;
  interval = 0;
  callback = none;
}

-- An item of the array in the file, with the defaults of the fields that are not there.
pub record Entry : Type 0 where
  pub id : ℕ
  pub scope_text : Bytes
  pub label : Bytes
  pub command : Bytes
  pub due : ℕ
  pub interval : ℕ

-- What `Storage::write` answers where it is not asked for an atomic write. The file is replaced; or it
-- cannot be opened and stays as it is; or it is opened, which empties it, and the write fails: then it
-- is removed, and `left` is what `load` reads of what is left, `none` where the removal works or what
-- is left cannot be read.
pub data WriteAnswer : Type 0 where
  written unopened : WriteAnswer
  spoiled : Option (List Entry) → WriteAnswer

pub record Scheduler : Type 0 where
  pub jobs : List Job
  pub next_id : ℕ  -- uint32
  pub next_timeout_id : ℕ  -- uint32
  pub initialized : Bool
  pub mode_fixed : Bool
  pub mode : SchedulerRunMode
  pub storage_ready : Bool
  pub dispatching : Bool
  pub next_storage_retry : ℕ  -- uint32
  pub task_runs : Bool
  pub file : Option (List Entry)
  pub attempts : ℕ

abbrev pub max_jobs : ℕ
max_jobs = 30

abbrev pub int32_max : ℕ
int32_max = 2147483647

-- 0x7fffffff
abbrev pub max_interval : ℕ
max_interval = 2147483647

abbrev pub storage_retry_ms : ℕ
storage_retry_ms = 5000

abbrev pub max_label_length : ℕ
max_label_length = 64

abbrev pub max_message_length : ℕ
max_message_length = 512

unfoldable pub new_scheduler : Option (List Entry) → Scheduler
new_scheduler file = record {
  jobs = replicate max_jobs no_job;
  next_id = 1;
  next_timeout_id = 0;
  initialized = false;
  mode_fixed = false;
  mode = task;
  storage_ready = false;
  dispatching = false;
  next_storage_retry = 0;
  task_runs = false;
  file = file;
  attempts = 0;
}

-- What a call reads: the two clocks, the wall clock only where it is valid, and whether the storage
-- and the task can be started.
pub record Surroundings : Type 0 where
  pub millis : ℕ  -- uint32
  pub wall_now : Option ℕ  -- uint32
  pub storage_begins : Bool
  pub task_starts : Bool

-- `static_cast<int32_t>(now - then) >= 0`
unfoldable pub has_come : ℕ → ℕ → Bool
has_come now then_ms = ltb ((now + 2 ^ 32 - then_ms) % 2 ^ 32) (2 ^ 31)

unfoldable pub scope_eq : SchedulerJobScope → SchedulerJobScope → Bool
scope_eq managed managed = true
scope_eq managed user = false
scope_eq user managed = false
scope_eq user user = true

-- "user" and "managed"
unfoldable pub scope_name : SchedulerJobScope → Bytes
scope_name user = b'u' ∷ b's' ∷ b'e' ∷ b'r' ∷ []
scope_name managed = b'm' ∷ b'a' ∷ b'n' ∷ b'a' ∷ b'g' ∷ b'e' ∷ b'd' ∷ []

unfoldable pub parse_scope : Bytes → Option SchedulerJobScope
parse_scope text =
    if bytes_eq text (scope_name user)
    then some user
    else if bytes_eq text (scope_name managed)
    then some managed
    else none

abbrev pub is_wall : SchedulerClock → Bool
is_wall wall = true
is_wall monotonic = false

abbrev pub is_set : Option ℕ → Bool
is_set none = false
is_set (some f) = true

unfoldable pub persists : Job → Bool
persists job = job.active && is_wall job.clock && not (is_set job.callback)

unfoldable pub entry_of : Job → Entry
entry_of job = record {
  id = job.id;
  scope_text = scope_name job.scope;
  label = job.label;
  command = job.command;
  due = job.due;
  interval = job.interval;
}

unfoldable pub is_omitted : Option SchedulerJobScope → Job → Bool
unfolding scope_eq
is_omitted none job = false
is_omitted (some scope) job = scope_eq job.scope scope

unfoldable pub entries_of : Option SchedulerJobScope → List Job → List Entry
unfolding persists entry_of is_omitted
entries_of omit [] = []
entries_of omit (job ∷ jobs) =
    if not (persists job) || is_omitted omit job
    then entries_of omit jobs
    else entry_of job ∷ entries_of omit jobs

unfoldable pub get_job : List Job → ℕ → Job
unfolding no_job
get_job [] i = no_job
get_job (job ∷ jobs) zero = job
get_job (job ∷ jobs) (suc i) = get_job jobs i

-- The index of the first slot that passes a test.
unfoldable pub find_job : (Job → Bool) → List Job → Option ℕ
find_job test [] = none
find_job test (job ∷ jobs) =
    if test job then some 0 else elim (find_job test jobs) [ none ↦ none | some i ↦ some (suc i) ]

unfoldable pub is_free : Job → Bool
is_free job = not job.active

unfoldable pub has_label : SchedulerJobScope → Bytes → Job → Bool
unfolding scope_eq
has_label scope label job = job.active && scope_eq job.scope scope && bytes_eq job.label label

unfoldable pub has_id : SchedulerJobScope → ℕ → Job → Bool
unfolding scope_eq
has_id scope id job = job.active && scope_eq job.scope scope && job.id == id

unfoldable pub takes_id : ℕ → Job → Bool
takes_id id job = job.active && job.id == id

unfoldable pub any_job : (Job → Bool) → List Job → Bool
any_job test [] = false
any_job test (job ∷ jobs) = test job || any_job test jobs
