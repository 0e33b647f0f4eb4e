-- ===== src/Scheduler/Invariant.antt =====
-- What holds of the scheduler's jobs between two calls, and what loading the file keeps of it.
use night_mare_network.Base.{
  ℕ, zero, suc, ◌+◌, ◌≤◌, ◌<◌, ◌≡◌, refl, ◌∙◌, ◌⊎◌, inl, inr, true, false, ◌&&◌, ◌||◌, ◌==◌, ltb,
  leb, if◌then◌else◌, if_ind, option_ind, is_empty, Option, some, List, [], ◌∷◌, length, All, arith,
  replicate,
}
use night_mare_network.Base.Slots.{modify, length-modify}
use night_mare_network.Scheduler.Jobs.{
  SchedulerJobScope, Job, no_job, Entry, Scheduler, Surroundings, new_scheduler, max_jobs,
  int32_max, max_label_length, max_message_length, is_wall, is_set, get_job, find_job, is_free,
  has_label, any_job, takes_id, parse_scope,
}
use night_mare_network.Scheduler.Loading.{
  is_malformed, loaded_job, loaded_id, load_scoped, load_entry, load_entries, load, try_storage,
  ensure_initialized,
}
use night_mare_network.Scheduler.Slots.{
  Fits, IsApart, Replaces, no_job-Fits, modify_new-IsApart, modify_same-IsApart, any_job-Fits,
  All-modify, find_job-get_job, get_job-All, modify-const,
}

-- An active job: its id was given out, its label and command fit, it has exactly one of a command
-- and a callback, and on the wall clock a deadline or an interval.
pub record IsActive (next : ℕ) (j : Job) : Type 0 where
  pub active : j.active ≡ true
  pub id_pos : 0 < j.id
  pub id_below : j.id < next
  pub labelled : is_empty j.label ≡ false
  pub label_fits : length j.label ≤ max_label_length
  pub command_fits : length j.command ≤ max_message_length
  pub one_target : is_empty j.command ≡ is_set j.callback
  pub timed : is_wall j.clock && (j.due == 0 && j.interval == 0) ≡ false

abbrev pub IsSlot : ℕ → Job → Type 0
IsSlot next j = (j ≡ no_job) ⊎ IsActive next j

-- Thirty slots, each empty or a well-formed job, no two jobs of one id or of one label in a scope.
pub record IsTable (jobs : List Job) (next : ℕ) : Type 0 where
  pub room : length jobs ≡ max_jobs
  pub slots : All (IsSlot next) jobs
  pub apart : IsApart jobs
  pub next_pos : 0 < next
  pub next_fits : next ≤ suc int32_max

abbrev pub IsValid : Scheduler → Type 0
IsValid s = IsTable s.jobs s.next_id

IsSlot-later : (m n : ℕ) → m ≤ n → (j : Job) → IsSlot m j → IsSlot n j
IsSlot-later m n le j (inl e) = inl e
IsSlot-later m n le j (inr a) = inr (record {
  active = a.active;
  id_pos = a.id_pos;
  id_below = omega (arith, a.id_below);
  labelled = a.labelled;
  label_fits = a.label_fits;
  command_fits = a.command_fits;
  one_target = a.one_target;
  timed = a.timed;
})

All-later : (m n : ℕ) → m ≤ n → (js : List Job) → All (IsSlot m) js → All (IsSlot n) js
All-later m n le [] a = tt
All-later m n le (j ∷ js) a = (IsSlot-later m n le j a.0, All-later m n le js a.1)

module _ (js : List Job) (next : ℕ) (v : IsTable js next) where
  -- A write of a job that clashes with none.
  pub place-IsTable :
      (n last : ℕ) (new : Job)
      → Fits new js
      → IsSlot last new
      → next ≤ last
      → last ≤ suc int32_max
      → IsTable (modify js n (λ _. new)) last
  place-IsTable n last new f a le fits = record {
    room = length-modify js n (λ _. new) ∙ v.room;
    slots = All-modify (IsSlot last) new js n (All-later next last le js v.slots) a;
    apart = modify_new-IsApart new js n v.apart f;
    next_pos = omega (arith, v.next_pos);
    next_fits = fits;
  }

  -- A slot is emptied.
  pub empty-IsTable : (n : ℕ) → IsTable (modify js n (λ _. no_job)) next
  empty-IsTable n =
      place-IsTable n next no_job (no_job-Fits js) (inl refl) (omega arith) v.next_fits

  -- A job changes and keeps its identity.
  pub replace-IsTable :
      (n : ℕ) (new : Job)
      → Replaces new (get_job js n)
      → IsSlot next new
      → IsTable (modify js n (λ _. new)) next
  replace-IsTable n new r a = record {
    room = length-modify js n (λ _. new) ∙ v.room;
    slots = All-modify (IsSlot next) new js n v.slots a;
    apart = modify_same-IsApart new js n r v.apart;
    next_pos = v.next_pos;
    next_fits = v.next_fits;
  }

  pub get_job-IsSlot : (n : ℕ) → IsSlot next (get_job js n)
  get_job-IsSlot n = get_job-All (IsSlot next) js n (inl refl) v.slots

  -- A free slot holds nothing.
  pub find_job-no_job : (n : ℕ) → find_job is_free js ≡ some n → get_job js n ≡ no_job
  unfolding is_free
  find_job-no_job n e = elim (get_job-IsSlot n) [
    | inl f ↦ f
    | inr a ↦ absurd (ground (arith, a.active, (find_job-get_job is_free js n e).0))
  ]

replicate-IsApart : (n : ℕ) → IsApart (replicate n no_job)
replicate-IsApart zero = tt
replicate-IsApart (suc n) = (no_job-Fits (replicate n no_job), replicate-IsApart n)

replicate-IsSlot : (n : ℕ) → All (IsSlot 1) (replicate n no_job)
replicate-IsSlot zero = tt
replicate-IsSlot (suc n) = (inl refl, replicate-IsSlot n)

pub new_scheduler-IsValid : (file : Option (List Entry)) → IsValid (new_scheduler file)
unfolding new_scheduler
new_scheduler-IsValid file = record {
  room = refl;
  slots = replicate-IsSlot max_jobs;
  apart = replicate-IsApart max_jobs;
  next_pos = omega arith;
  next_fits = omega arith;
}

-- No job of the table takes the id that is given out next.
pub takes_id-next :
    (next : ℕ) (js : List Job) → All (IsSlot next) js → any_job (takes_id next) js ≡ false
unfolding any_job takes_id no_job
takes_id-next next [] a = refl
takes_id-next next (j ∷ js) (inl e, a) = rw e (takes_id-next next js a)
takes_id-next next (j ∷ js) (inr b, a) = ground (arith, b.id_below, takes_id-next next js a)

abbrev next_after : ℕ → ℕ → ℕ
next_after next id = if leb next id then id + 1 else next

module _ (s : Scheduler) (v : IsValid s) (e : Entry) where
  loaded_id-new : any_job (takes_id (loaded_id s e)) s.jobs ≡ false
  unfolding loaded_id
  loaded_id-new =
      if_ind (λ (id : ℕ). any_job (takes_id id) s.jobs ≡ false)
        (e.id == 0 || ltb int32_max e.id || any_job (takes_id e.id) s.jobs)
        (λ y. takes_id-next s.next_id s.jobs v.slots) (λ n. ground arith)

  loaded_job-IsActive :
      (scope : SchedulerJobScope) (id : ℕ)
      → is_malformed e ≡ false
      → 0 < id
      → IsActive (next_after s.next_id id) (loaded_job e scope id no_job)
  unfolding is_malformed loaded_job no_job
  loaded_job-IsActive scope id h pos = record {
    active = refl;
    id_pos = pos;
    id_below = ground arith;
    labelled = ground arith;
    label_fits = ground arith;
    command_fits = ground arith;
    one_target = ground arith;
    timed = ground arith;
  }

  loaded_job-Fits :
      (scope : SchedulerJobScope)
      → any_job (has_label scope e.label) s.jobs ≡ false
      → Fits (loaded_job e scope (loaded_id s e) no_job) s.jobs
  unfolding loaded_job
  loaded_job-Fits scope f =
      any_job-Fits (loaded_job e scope (loaded_id s e) no_job) s.jobs loaded_id-new f

  load_scoped-IsValid :
      (scope : SchedulerJobScope) → is_malformed e ≡ false → IsValid (load_scoped s e scope)
  unfolding load_scoped
  load_scoped-IsValid scope h =
      let id = loaded_id s e in
      if_ind IsValid (any_job (has_label scope e.label) s.jobs || (id == 0 || ltb int32_max id))
        (λ y. v)
        (λ n.
          option_ind IsValid (find_job is_free s.jobs) (λ f. v)
            (λ i f.
              rw
                (
                  modify-const (loaded_job e scope id) s.jobs i,
                  find_job-no_job s.jobs s.next_id v i f,
                )
                (place-IsTable s.jobs s.next_id v i (next_after s.next_id id)
                  (loaded_job e scope id no_job) (loaded_job-Fits scope (ground arith))
                  (inr (loaded_job-IsActive scope id h (ground arith))) (ground arith)
                  (ground (arith, v.next_fits)))))

load_entry-IsValid : (s : Scheduler) (e : Entry) → IsValid s → IsValid (load_entry s e)
unfolding load_entry
load_entry-IsValid s e v =
    option_ind IsValid (parse_scope e.scope_text) (λ f. v)
      (λ scope f. if_ind IsValid (is_malformed e) (λ y. v) (λ n. load_scoped-IsValid s v e scope n))

load_entries-IsValid : (es : List Entry) (s : Scheduler) → IsValid s → IsValid (load_entries s es)
unfolding load_entries
load_entries-IsValid [] s v = v
load_entries-IsValid (e ∷ es) s v =
    load_entries-IsValid es (load_entry s e) (load_entry-IsValid s e v)

load-IsValid : (s : Scheduler) → IsValid s → IsValid (load s)
unfolding load
load-IsValid s v = option_ind IsValid s.file (λ f. v) (λ es f. load_entries-IsValid es s v)

try_storage-IsValid : (env : Surroundings) (s : Scheduler) → IsValid s → IsValid (try_storage env s)
unfolding try_storage
try_storage-IsValid env s v = if_ind IsValid env.storage_begins (λ y. load-IsValid _ v) (λ n. v)

pub ensure_initialized-IsValid :
    (env : Surroundings) (s : Scheduler) → IsValid s → IsValid (ensure_initialized env s)
unfolding ensure_initialized
ensure_initialized-IsValid env s v =
    if_ind IsValid s.initialized (λ y. if_ind IsValid _ (λ z. try_storage-IsValid env s v) (λ n. v))
      (λ n. try_storage-IsValid env _ v)
