-- ===== src/Scheduler/Loading.antt =====
-- How the scheduler starts: `load`, `tryStorage` and `ensureInitialized` of src/Core/Scheduler.cpp.
use night_mare_network.Base.{
  ℕ, ◌+◌, ◌%◌, ◌^◌, Bool, true, not, ◌&&◌, ◌||◌, ◌==◌, ltb, leb, if◌then◌else◌, is_empty, none,
  some, List, [], ◌∷◌, length,
}
use night_mare_network.Base.Slots.{modify}
use night_mare_network.Scheduler.Jobs.{
  wall, SchedulerJobScope, Job, Entry, Scheduler, int32_max, storage_retry_ms, max_label_length,
  max_message_length, Surroundings, has_come, parse_scope, find_job, is_free, has_label, any_job,
  takes_id,
}

-- What `load` does not read.
unfoldable pub is_malformed : Entry → Bool
is_malformed e =
    is_empty e.label
    || ltb max_label_length (length e.label)
    || is_empty e.command
    || ltb max_message_length (length e.command)
    || (e.due == 0 && e.interval == 0)

unfoldable pub loaded_job : Entry → SchedulerJobScope → ℕ → Job → Job
loaded_job e scope id job = record job {
  active = true;
  id = id;
  scope = scope;
  label = e.label;
  command = e.command;
  clock = wall;
  due = e.due;
  interval = e.interval;
}

unfoldable pub loaded_id : Scheduler → Entry → ℕ
unfolding any_job takes_id
loaded_id s e =
    if e.id == 0 || ltb int32_max e.id || any_job (takes_id e.id) s.jobs then s.next_id else e.id

-- An entry that is well formed, in its scope.
unfoldable pub load_scoped : Scheduler → Entry → SchedulerJobScope → Scheduler
load_scoped s e scope =
    let id = loaded_id s e in
    if any_job (has_label scope e.label) s.jobs || (id == 0 || ltb int32_max id)
    then s
    else elim (find_job is_free s.jobs) [
      | none ↦ s
      | some i ↦ record s {
        jobs = modify s.jobs i (loaded_job e scope id);
        next_id = if leb s.next_id id then id + 1 else s.next_id;
      }
    ]

unfoldable pub load_entry : Scheduler → Entry → Scheduler
load_entry s e = elim (parse_scope e.scope_text) [
  | none ↦ s
  | some scope ↦ if is_malformed e then s else load_scoped s e scope
]

unfoldable pub load_entries : Scheduler → List Entry → Scheduler
load_entries s [] = s
load_entries s (e ∷ es) = load_entries (load_entry s e) es

-- `none` is a file that is missing or that is not read.
unfoldable pub load : Scheduler → Scheduler
load s = elim s.file [ none ↦ s | some es ↦ load_entries s es ]

unfoldable pub try_storage : Surroundings → Scheduler → Scheduler
try_storage env s =
    let s' = record s {
      storage_ready = env.storage_begins;
      next_storage_retry = (env.millis + storage_retry_ms) % 2 ^ 32;
    } in
    if env.storage_begins then load s' else s'

unfoldable pub ensure_initialized : Surroundings → Scheduler → Scheduler
unfolding has_come
ensure_initialized env s =
    if s.initialized
    then (if not s.storage_ready && has_come env.millis s.next_storage_retry
        then try_storage env s
        else s)
    else try_storage env (record s { initialized = true })
