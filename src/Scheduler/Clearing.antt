-- ===== src/Scheduler/Clearing.antt =====
-- `clear` of src/Core/Scheduler.cpp, which writes the file without a scope's jobs before it drops
-- them.
use night_mare_network.Base.{
  ℕ, suc, ◌≡◌, refl, ap, ◌∙◌, inl, Bool, true, false, ◌&&◌, if_ind, none, some, List, [], ◌∷◌,
  length, All, arith,
}
use night_mare_network.Scheduler.Jobs.{
  WriteAnswer, SchedulerJobScope, Job, no_job, Scheduler, Surroundings, scope_eq, any_job, takes_id,
  has_label, persists, is_omitted, entries_of,
}
use night_mare_network.Scheduler.Loading.{ensure_initialized}
use night_mare_network.Scheduler.Calls.{write_jobs, persists_in, clear_scope, clear}
use night_mare_network.Scheduler.Slots.{clash, Fits, IsApart, no_job-Fits}
use night_mare_network.Scheduler.Invariant.{IsSlot, IsTable, IsValid, ensure_initialized-IsValid}
use night_mare_network.Scheduler.Saving.{
  Unchanged, FileAfter, write_jobs-jobs, write_jobs-file, write_jobs-FileKept, write_jobs-IsUnsaved,
  IsUnsaved,
}

-- What is written is what is left.
entries_of-clear_scope :
    (scope : SchedulerJobScope) (js : List Job)
    → entries_of (some scope) js ≡ entries_of none (clear_scope scope js)
unfolding entries_of clear_scope is_omitted no_job persists
entries_of-clear_scope scope [] = refl
entries_of-clear_scope scope (j ∷ js) = ground (arith, entries_of-clear_scope scope js)

module _ (scope : SchedulerJobScope) where
  Fits-clear_scope : (i : Job) (js : List Job) → Fits i js → Fits i (clear_scope scope js)
  unfolding clear_scope clash takes_id has_label no_job
  Fits-clear_scope i [] f = tt
  Fits-clear_scope i (j ∷ js) f = (
    if_ind (λ (k : Job). i.active ≡ true → clash i k ≡ false) (j.active && scope_eq j.scope scope)
        (λ y a. refl) (λ n. f.0),
    Fits-clear_scope i js f.1,
  )

  clear_scope-IsApart : (js : List Job) → IsApart js → IsApart (clear_scope scope js)
  unfolding clear_scope
  clear_scope-IsApart [] a = tt
  clear_scope-IsApart (j ∷ js) a = (
    if_ind (λ (k : Job). Fits k (clear_scope scope js)) (j.active && scope_eq j.scope scope)
        (λ y. no_job-Fits (clear_scope scope js)) (λ n. Fits-clear_scope j js a.0),
    clear_scope-IsApart js a.1,
  )

  clear_scope-slots :
      (next : ℕ) (js : List Job) → All (IsSlot next) js → All (IsSlot next) (clear_scope scope js)
  unfolding clear_scope
  clear_scope-slots next [] a = tt
  clear_scope-slots next (j ∷ js) a = (
    if_ind (IsSlot next) (j.active && scope_eq j.scope scope) (λ y. inl refl) (λ n. a.0),
    clear_scope-slots next js a.1,
  )

  length-clear_scope : (js : List Job) → length (clear_scope scope js) ≡ length js
  unfolding clear_scope
  length-clear_scope [] = refl
  length-clear_scope (j ∷ js) = ap suc (length-clear_scope js)

  clear_scope-IsTable :
      (js : List Job) (next : ℕ) → IsTable js next → IsTable (clear_scope scope js) next
  clear_scope-IsTable js next v = record {
    room = length-clear_scope js ∙ v.room;
    slots = clear_scope-slots next js v.slots;
    apart = clear_scope-IsApart js v.apart;
    next_pos = v.next_pos;
    next_fits = v.next_fits;
  }

-- The jobs of the scope are gone, and saved so where one persisted.
pub record Cleared (s : Scheduler) (scope : SchedulerJobScope) (t : Scheduler) : Type 0 where
  pub jobs : t.jobs ≡ clear_scope scope s.jobs
  pub next_id : t.next_id ≡ s.next_id
  pub saved : FileAfter (any_job (persists_in scope) s.jobs) s t

abbrev pub ClearOutcome :
    (ℕ → WriteAnswer) → Scheduler → SchedulerJobScope → Scheduler → Bool → Type 0
ClearOutcome writes s scope t true = Cleared s scope t
ClearOutcome writes s scope t false =
    Unchanged writes s t × (any_job (persists_in scope) s.jobs ≡ true) × IsUnsaved writes s

-- What an answer promises, and that it leaves valid jobs.
abbrev pub ClearAnswer :
    (ℕ → WriteAnswer) → Scheduler → SchedulerJobScope → Scheduler × Bool → Type 0
ClearAnswer writes s scope r = ClearOutcome writes s scope r.0 r.1 × IsValid r.0

-- On a scheduler as the calls leave it, `clear` drops the jobs of a scope, from the file too where one
-- persists; or one of them persists and the file without them is not written: then it fails and the
-- jobs are as they were, and so is the file, unless a write failed that had opened it: then it has what
-- the write left.
pub clear-Answer :
    (writes : ℕ → WriteAnswer) (env : Surroundings) (s : Scheduler) (scope : SchedulerJobScope)
    → IsValid s
    → ClearAnswer writes (ensure_initialized env s) scope (clear writes env s scope)
unfolding clear
clear-Answer writes env s scope v =
    let s' = ensure_initialized env s in
    let v' = ensure_initialized-IsValid env s v in
    let w = (write_jobs writes s' (some scope)).0 in
    let kept = write_jobs-jobs writes s' (some scope) in
    let table = clear_scope-IsTable scope s'.jobs s'.next_id v' in
    if_ind (ClearAnswer writes s' scope) (any_job (persists_in scope) s'.jobs)
      (λ y.
        if_ind (ClearAnswer writes s' scope) (write_jobs writes s' (some scope)).1
          (λ d. (
            record {
              jobs = ap (clear_scope scope) kept.0;
              next_id = kept.1;
              saved = rw y (
                  write_jobs-file writes s' (some scope) d
                  ∙ ap some (rw kept.0 (entries_of-clear_scope scope s'.jobs)));
            },
            rw (kept.0, kept.1) table,
          ))
          (λ d. (
            (
              record {
                jobs = kept.0;
                next_id = kept.1;
                file = write_jobs-FileKept writes s' (some scope) d;
              },
              y,
              write_jobs-IsUnsaved writes s' (some scope) d,
            ),
            rw (kept.0, kept.1) v',
          )))
      (λ m. (record { jobs = refl; next_id = refl; saved = rw m refl }, table))
