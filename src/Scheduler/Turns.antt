-- ===== src/Scheduler/Turns.antt =====
-- The loop of `tick` of src/Core/Scheduler.cpp slot by slot, where the jobs that run do not call the
-- scheduler and the storage answers.
use night_mare_network.Base.{
  ℕ, zero, suc, ◌-◌, ◌≡◌, refl, sym, ap, subst, ◌∙◌, Bool, true, false, not, ◌&&◌, ◌||◌, ◌==◌, ltb,
  if◌then◌else◌, if_ind, List, [], ◌∷◌, ◌++◌, append_assoc, length, length-append, arith,
}
use night_mare_network.Base.Slots.{modify}
use night_mare_network.Scheduler.Jobs.{
  WriteAnswer, written, Job, Scheduler, Surroundings, get_job, persists,
}
use night_mare_network.Scheduler.Loading.{ensure_initialized}
use night_mare_network.Scheduler.Calls.{after_write, write_jobs, save}
use night_mare_network.Scheduler.Tick.{
  Readiness, waits, due_now, armed, readiness, after_run, fire, tick_slot, tick_from, tick,
}
use night_mare_network.Scheduler.Invariant.{IsValid, ensure_initialized-IsValid}
use night_mare_network.Scheduler.Saving.{save-jobs}

-- The call that a job makes changes nothing of the scheduler.
abbrev pub quiet : Scheduler → Job → Scheduler
quiet s job = s

abbrev pub turn_runs : Surroundings → ℕ → Job → Bool
turn_runs env last job =
    if not job.active || ltb last job.id
    then false
    else elim (readiness env job) [ waits ↦ false | armed due ↦ false | due_now ↦ true ]

-- A job as its turn leaves it.
abbrev pub turn_leaves : Surroundings → ℕ → Job → Job
turn_leaves env last job =
    if not job.active || ltb last job.id then job else elim (readiness env job) [
      | waits ↦ job
      | armed due ↦ record job { due = due }
      | due_now ↦ after_run env job
    ]

abbrev pub turns_run : Surroundings → ℕ → List Job → List Job
turns_run env last [] = []
turns_run env last (job ∷ jobs) =
    if turn_runs env last job then job ∷ turns_run env last jobs else turns_run env last jobs

abbrev pub turns_leave : Surroundings → ℕ → List Job → List Job
turns_leave env last [] = []
turns_leave env last (job ∷ jobs) = turn_leaves env last job ∷ turns_leave env last jobs

modify-get_job_self : (js : List Job) (n : ℕ) → modify js n (λ _. get_job js n) ≡ js
unfolding get_job
modify-get_job_self [] n = refl
modify-get_job_self (j ∷ js) zero = refl
modify-get_job_self (j ∷ js) (suc n) = ap (◌∷◌ j) (modify-get_job_self js n)

get_job-append : (here js : List Job) (j : Job) → get_job (here ++ (j ∷ js)) (length here) ≡ j
unfolding get_job
get_job-append [] js j = refl
get_job-append (i ∷ here) js j = get_job-append here js j

modify-append :
    (here js : List Job) (i j : Job)
    → modify (here ++ (i ∷ js)) (length here) (λ _. j) ≡ (here ++ (j ∷ [])) ++ js
modify-append [] js i j = refl
modify-append (k ∷ here) js i j = ap (◌∷◌ k) (modify-append here js i j)

one_of :
    (b : Bool) (job : Job) (jobs : List Job)
    → (if b then job ∷ [] else []) ++ jobs ≡ (if b then job ∷ jobs else jobs)
one_of true job jobs = refl
one_of false job jobs = refl

-- What one slot's turn leaves: the job `after` at the slot, and `job` run or not.
abbrev Turned : Scheduler → ℕ → Job → Job → Bool → Scheduler × List Job → Type 0
Turned s i job after runs r =
    (r.0.jobs ≡ modify s.jobs i (λ _. after))
    × (r.0.storage_ready ≡ true)
    × (r.1 ≡ (if runs then job ∷ [] else []))

abbrev untouched : Scheduler → Scheduler × List Job
untouched s = (s, [])

abbrev armed_at : Scheduler → ℕ → Job → ℕ → Scheduler × List Job
armed_at s i job due = (record s { jobs = modify s.jobs i (λ _. record job { due = due }) }, [])

module _ (writes : ℕ → WriteAnswer) (works : (n : ℕ) → writes n ≡ written) where
  save_works :
      (s : Scheduler)
      → s.storage_ready ≡ true
      → ((save writes s).1 ≡ true) × ((save writes s).0.storage_ready ≡ true)
  unfolding save write_jobs after_write
  save_works s ready = ground (arith, works s.attempts)

  module _ (env : Surroundings) (last : ℕ) where
    module _ (s : Scheduler) (i : ℕ) (ready : s.storage_ready ≡ true) where
      -- The turn of a slot, from its tests and from what a run leaves.
      slot_turn :
          (skipped : Bool) (r : Readiness) (fired : Scheduler × List Job)
          → Turned s i (get_job s.jobs i) (after_run env (get_job s.jobs i)) true fired
          → Turned s i
              (get_job s.jobs i)
              (if skipped then get_job s.jobs i else elim r [
                | waits ↦ get_job s.jobs i
                | armed due ↦ record (get_job s.jobs i) { due = due }
                | due_now ↦ after_run env (get_job s.jobs i)
              ])
              (if skipped
                then false
                else elim r [ waits ↦ false | armed due ↦ false | due_now ↦ true ])
              (if skipped then untouched s else elim r [
                | waits ↦ untouched s
                | armed due ↦ armed_at s i (get_job s.jobs i) due
                | due_now ↦ fired
              ])
      slot_turn true r fired e = (sym (modify-get_job_self s.jobs i), ready, refl)
      slot_turn false waits fired e = (sym (modify-get_job_self s.jobs i), ready, refl)
      slot_turn false (armed due) fired e = (refl, ready, refl)
      slot_turn false due_now fired e = e

      fire_turn :
          Turned s i
            (get_job s.jobs i)
            (after_run env (get_job s.jobs i))
            true
            (fire writes quiet env s i (get_job s.jobs i))
      unfolding fire
      fire_turn =
          let moved = record s { jobs = modify s.jobs i (λ _. after_run env (get_job s.jobs i)) } in
          let (done, still) = save_works moved ready in
          let job = get_job s.jobs i in
          if_ind (Turned s i job (after_run env job) true) (persists job && job.interval == 0)
            (λ y. rw done ((save-jobs writes moved).0, still, refl)) (λ n. (refl, ready, refl))

      tick_slot-Turned :
          Turned s i
            (get_job s.jobs i)
            (turn_leaves env last (get_job s.jobs i))
            (turn_runs env last (get_job s.jobs i))
            (tick_slot writes quiet env last s i)
      unfolding tick_slot
      tick_slot-Turned =
          slot_turn (not (get_job s.jobs i).active || ltb last (get_job s.jobs i).id)
            (readiness env (get_job s.jobs i)) (fire writes quiet env s i (get_job s.jobs i))
            fire_turn

    -- The turns of the slots behind `here`, which have had theirs.
    tick_from-turns :
        (js here : List Job) (s : Scheduler)
        → s.storage_ready ≡ true
        → s.jobs ≡ here ++ js
        → ((tick_from writes quiet env last (length js) (length here) s).0.jobs
            ≡ here ++ turns_leave env last js)
          × ((tick_from writes quiet env last (length js) (length here) s).1
              ≡ turns_run env last js)
    unfolding tick_from
    tick_from-turns [] here s ready e = (e, refl)
    tick_from-turns (job ∷ js) here s ready e =
        let i = length here in
        let s' = (tick_slot writes quiet env last s i).0 in
        let next = here ++ (turn_leaves env last job ∷ []) in
        let at : get_job s.jobs i ≡ job = ap (λ l. get_job l i) e ∙ get_job-append here js job in
        let (jobs, still, ran) = tick_slot-Turned s i ready in
        let jobs' : s'.jobs ≡ next ++ js =
          jobs
          ∙ ap (λ l. modify l i (λ _. turn_leaves env last (get_job s.jobs i))) e
          ∙ ap (λ j. modify (here ++ (job ∷ js)) i (λ _. turn_leaves env last j)) at
          ∙ modify-append here js job (turn_leaves env last job) in
        let ran' =
          subst
            (λ (j : Job).
              (tick_slot writes quiet env last s i).1
              ≡ (if turn_runs env last j then j ∷ [] else []))
            at ran in
        let one_on : length next ≡ suc i =
          omega (arith, length-append here (turn_leaves env last job ∷ [])) in
        let rest =
          subst
            (λ (n : ℕ).
              ((tick_from writes quiet env last (length js) n s').0.jobs
                ≡ next ++ turns_leave env last js)
              × ((tick_from writes quiet env last (length js) n s').1 ≡ turns_run env last js))
            one_on (tick_from-turns js next s' still jobs') in
        (
          rest.0 ∙ append_assoc here (turn_leaves env last job ∷ []) (turns_leave env last js),
          rw (ran', rest.1) (one_of (turn_runs env last job) job (turns_run env last js)),
        )

pub tick-turns :
    (writes : ℕ → WriteAnswer) (env : Surroundings) (s : Scheduler)
    → ((n : ℕ) → writes n ≡ written)
    → IsValid s
    → s.dispatching ≡ false
    → (ensure_initialized env s).storage_ready ≡ true
    → ((tick writes quiet env s).0.jobs
        ≡ turns_leave env ((ensure_initialized env s).next_id - 1) (ensure_initialized env s).jobs)
      × ((tick writes quiet env s).1
          ≡ turns_run env ((ensure_initialized env s).next_id - 1) (ensure_initialized env s).jobs)
unfolding tick
tick-turns writes env s works v idle ready =
    let s' = ensure_initialized env s in
    let last = s'.next_id - 1 in
    let start = record s' { dispatching = true } in
    let round =
      subst
        (λ (n : ℕ).
          ((tick_from writes quiet env last n 0 start).0.jobs ≡ turns_leave env last s'.jobs)
          × ((tick_from writes quiet env last n 0 start).1 ≡ turns_run env last s'.jobs))
        (ensure_initialized-IsValid env s v).room
        (tick_from-turns writes works env last s'.jobs [] start ready refl) in
    if_ind
      (λ (r : Scheduler × List Job).
        (r.0.jobs ≡ turns_leave env last s'.jobs) × (r.1 ≡ turns_run env last s'.jobs))
      s.dispatching (λ y. absurd (ground arith)) (λ n. round)
