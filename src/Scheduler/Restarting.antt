-- ===== src/Scheduler/Restarting.antt =====
-- The file that `save` of src/Core/Scheduler.cpp writes, read back by `load` after a restart.
use night_mare_network.Base.{
  ℕ, zero, suc, ◌-◌, ◌≤◌, ◌≡◌, refl, sym, ap, ◌∙◌, Bool, true, false, ◌||◌, ◌==◌, ltb,
  if◌then◌else◌, bytes_eq, Option, none, some, List, [], ◌∷◌, ◌++◌, append-nil, append_assoc,
  length, All, replicate, arith, Bool-cases, inl, inr,
}
use night_mare_network.Base.Slots.{modify}
use night_mare_network.Scheduler.Jobs.{
  SchedulerJobScope, managed, user, SchedulerClock, wall, monotonic, Job, no_job, Scheduler,
  Surroundings, new_scheduler, max_jobs, int32_max, is_wall, is_set, scope_name, parse_scope,
  persists, entry_of, is_omitted, entries_of, get_job, find_job, is_free, has_label, takes_id,
  any_job,
}
use night_mare_network.Scheduler.Loading.{
  is_malformed, loaded_job, loaded_id, load_scoped, load_entry, load_entries, load, try_storage,
  ensure_initialized,
}
use night_mare_network.Scheduler.Slots.{clash, Fits, IsApart, Fits-modify, clash_sym, modify-const}
use night_mare_network.Scheduler.Invariant.{IsActive, IsSlot, IsValid}

-- The jobs that persist, in order, and empty slots after them.
abbrev pub kept : List Job → List Job
kept [] = []
kept (j ∷ js) = if persists j then j ∷ kept js else kept js

abbrev pub restored : List Job → List Job
restored js = kept js ++ replicate (max_jobs - length (kept js)) no_job

parse_scope-scope_name : (scope : SchedulerJobScope) → parse_scope (scope_name scope) ≡ some scope
unfolding parse_scope scope_name bytes_eq
parse_scope-scope_name managed = refl
parse_scope-scope_name user = refl

Fits-takes_id :
    (j : Job) (js : List Job) → j.active ≡ true → Fits j js → any_job (takes_id j.id) js ≡ false
unfolding any_job clash
Fits-takes_id j [] a f = refl
Fits-takes_id j (k ∷ js) a f = ground (arith, f.0 a, Fits-takes_id j js a f.1)

Fits-has_label :
    (j : Job) (js : List Job)
    → j.active ≡ true
    → Fits j js
    → any_job (has_label j.scope j.label) js ≡ false
unfolding any_job clash
Fits-has_label j [] a f = refl
Fits-has_label j (k ∷ js) a f = ground (arith, f.0 a, Fits-has_label j js a f.1)

entry_of-is_malformed :
    (next : ℕ) (j : Job) → IsActive next j → persists j ≡ true → is_malformed (entry_of j) ≡ false
unfolding is_malformed entry_of persists
entry_of-is_malformed next j a p =
    ground (arith, a.labelled, a.label_fits, a.command_fits, a.one_target, a.timed)

record_path :
    (j : Job) (b : Bool) (c : SchedulerClock) (f : Option ℕ)
    → b ≡ j.active
    → c ≡ j.clock
    → f ≡ j.callback
    → record j { active = b; clock = c; callback = f } ≡ j
record_path j b c f e e' e'' = rw (e, e', e'') refl

wall_of : (c : SchedulerClock) → is_wall c ≡ true → wall ≡ c
wall_of wall e = refl
wall_of monotonic e = absurd (ground arith)

none_of : (f : Option ℕ) → is_set f ≡ false → none ≡ f
none_of none e = refl
none_of (some n) e = absurd (ground arith)

-- A job that persists comes back whole.
loaded_job-entry_of :
    (j : Job)
    → j.active ≡ true
    → persists j ≡ true
    → loaded_job (entry_of j) j.scope j.id no_job ≡ j
unfolding loaded_job entry_of persists no_job
loaded_job-entry_of j a p =
    record_path j true wall none (sym a) (wall_of j.clock (ground arith))
      (none_of j.callback (ground arith))

module _ (s : Scheduler) (next : ℕ) (j : Job) (a : IsActive next j) (p : persists j ≡ true)
    (le : next ≤ suc int32_max) (f : Fits j s.jobs) where
  loaded_id-entry_of : loaded_id s (entry_of j) ≡ j.id
  unfolding loaded_id entry_of
  loaded_id-entry_of = ground (arith, a.id_pos, a.id_below, Fits-takes_id j s.jobs a.active f)

  entry_scope : parse_scope (entry_of j).scope_text ≡ some j.scope
  unfolding entry_of
  entry_scope = parse_scope-scope_name j.scope

  entry_new :
      any_job (has_label j.scope (entry_of j).label) s.jobs
        || (loaded_id s (entry_of j) == 0 || ltb int32_max (loaded_id s (entry_of j)))
      ≡ false
  unfolding entry_of
  entry_new =
      rw loaded_id-entry_of
        (ground (arith, a.id_pos, a.id_below, Fits-has_label j s.jobs a.active f))

  load_entry-entry_of :
      (i : ℕ)
      → find_job is_free s.jobs ≡ some i
      → get_job s.jobs i ≡ no_job
      → (load_entry s (entry_of j)).jobs ≡ modify s.jobs i (λ _. j)
  unfolding load_entry load_scoped
  load_entry-entry_of i free empty =
      rw
        (
          load_entry,
          entry_scope,
          entry_of-is_malformed next j a p,
          load_scoped,
          entry_new,
          free,
          modify-const (loaded_job (entry_of j) j.scope (loaded_id s (entry_of j))) s.jobs i,
          empty,
          loaded_id-entry_of,
          loaded_job-entry_of j a.active p,
        )
        refl

-- The array while it is filled: the jobs that are there, then empty slots.
abbrev filled : List Job → ℕ → List Job
filled js k = js ++ replicate k no_job

abbrev AllActive : List Job → Type 0
AllActive = All (λ j. j.active ≡ true)

filled-free :
    (js : List Job) (k : ℕ) → AllActive js → find_job is_free (filled js (suc k)) ≡ some (length js)
unfolding find_job is_free no_job
filled-free [] k a = refl
filled-free (j ∷ js) k a = rw (a.0, filled-free js k a.1) refl

filled-get_job : (js : List Job) (k : ℕ) → get_job (filled js (suc k)) (length js) ≡ no_job
unfolding get_job
filled-get_job [] k = refl
filled-get_job (j ∷ js) k = filled-get_job js k

filled-modify :
    (js : List Job) (k : ℕ) (j : Job)
    → modify (filled js (suc k)) (length js) (λ _. j) ≡ filled (js ++ (j ∷ [])) k
filled-modify [] k j = refl
filled-modify (i ∷ js) k j = ap (◌∷◌ i) (filled-modify js k j)

AllActive-append :
    (js : List Job) (j : Job) → AllActive js → j.active ≡ true → AllActive (js ++ (j ∷ []))
AllActive-append [] j a b = (b, tt)
AllActive-append (i ∷ js) j a b = (a.0, AllActive-append js j a.1 b)

-- Every job of a list fits into an array.
abbrev AllFit : List Job → List Job → Type 0
AllFit js jobs = All (λ j. Fits j jobs) js

AllFit-modify :
    (j : Job) (js jobs : List Job) (n : ℕ)
    → AllFit js jobs
    → Fits j js
    → j.active ≡ true
    → AllFit js (modify jobs n (λ _. j))
AllFit-modify j [] jobs n a f b = tt
AllFit-modify j (i ∷ js) jobs n a f b = (
  Fits-modify i j jobs n a.0 (λ active. clash_sym i j f.0 active),
  AllFit-modify j js jobs n a.1 f.1 b,
)

persists-IsActive : (next : ℕ) (j : Job) → IsSlot next j → persists j ≡ true → IsActive next j
unfolding persists no_job
persists-IsActive next j (inl e) y = absurd (ground (arith, ap Job.active e))
persists-IsActive next j (inr a) y = a

-- Loading adds the jobs that persist behind those that are there.
load_entries-entries_of :
    (next : ℕ) (js here : List Job) (k : ℕ) (s : Scheduler)
    → next ≤ suc int32_max
    → All (IsSlot next) js
    → IsApart js
    → AllActive here
    → s.jobs ≡ filled here k
    → AllFit js s.jobs
    → length js ≤ k
    → (load_entries s (entries_of none js)).jobs ≡ filled (here ++ kept js) (k - length (kept js))
unfolding load_entries entries_of is_omitted
load_entries-entries_of next [] here k s le a apart act e fits room =
    let all : k ≡ k - 0 = omega arith in e ∙ rw (append-nil here, ← all) refl
load_entries-entries_of next (j ∷ js) here zero s le a apart act e fits room = absurd (omega arith)
load_entries-entries_of next (j ∷ js) here (suc k) s le a apart act e fits room =
    elim (Bool-cases (persists j)) [
      | inr n ↦
          rw n (
            load_entries-entries_of next js here (suc k) s le a.1 apart.1 act e fits.1
              (omega arith))
      | inl y ↦
          let b = persists-IsActive next j a.0 y in
          let loaded =
            load_entry-entry_of s next j b y le fits.0 (length here) (rw e (filled-free here k act))
              (rw e (filled-get_job here k)) in
          let fewer : length js ≤ k = omega arith in
          let left : k - length (kept js) ≡ suc k - suc (length (kept js)) = omega arith in
          let filled_now = loaded ∙ rw e (filled-modify here k j) in
          let more =
            load_entries-entries_of next js (here ++ (j ∷ [])) k (load_entry s (entry_of j)) le a.1
              apart.1 (AllActive-append here j act b.active) filled_now
              (rw loaded (AllFit-modify j js s.jobs (length here) fits.1 apart.0 b.active)) fewer in
          rw y (
            more
            ∙ rw (append_assoc here (j ∷ []) (kept js)) (ap (filled (here ++ (j ∷ kept js))) left))
    ]

Fits-replicate : (j : Job) (n : ℕ) → Fits j (replicate n no_job)
unfolding clash no_job takes_id has_label
Fits-replicate j zero = tt
Fits-replicate j (suc n) = (λ a. refl, Fits-replicate j n)

AllFit-replicate : (js : List Job) (n : ℕ) → AllFit js (replicate n no_job)
AllFit-replicate [] n = tt
AllFit-replicate (j ∷ js) n = (Fits-replicate j n, AllFit-replicate js n)

-- A scheduler that starts on storage with the file that was saved has the jobs that persisted, whole
-- and in their order, and no others.
pub restart-restored :
    (env : Surroundings) (s : Scheduler)
    → IsValid s
    → env.storage_begins ≡ true
    → (ensure_initialized env (new_scheduler (some (entries_of none s.jobs)))).jobs
      ≡ restored s.jobs
unfolding ensure_initialized try_storage load new_scheduler
restart-restored env s v begins = rw begins (
    load_entries-entries_of s.next_id s.jobs [] max_jobs _ v.next_fits v.slots v.apart tt refl
      (AllFit-replicate s.jobs max_jobs) (omega (arith, v.room)))
