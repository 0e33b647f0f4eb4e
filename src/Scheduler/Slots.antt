-- ===== src/Scheduler/Slots.antt =====
-- The fixed array of jobs: no two active jobs of one id, or of one label in one scope, and the
-- writes at an index that keep it so.
use night_mare_network.Base.{
  ℕ, zero, suc, ◌<◌, ◌≡◌, ◌≢◌, refl, ap, inl, inr, Bool, true, false, ◌||◌, Bytes, bytes_eq, some,
  List, [], ◌∷◌, length, All, arith, Bool-cases,
}
use night_mare_network.Base.Slots.{modify}
use night_mare_network.Scheduler.Jobs.{
  SchedulerJobScope, managed, user, Job, no_job, scope_eq, get_job, find_job, has_label, any_job,
  takes_id,
}

pub scope_eq_sound : (a b : SchedulerJobScope) → scope_eq a b ≡ true → a ≡ b
unfolding scope_eq
scope_eq_sound managed managed e = refl
scope_eq_sound managed user e = cc
scope_eq_sound user managed e = cc
scope_eq_sound user user e = refl

pub scope_eq_self : (a : SchedulerJobScope) → scope_eq a a ≡ true
unfolding scope_eq
scope_eq_self managed = refl
scope_eq_self user = refl

scope_eq_sym : (a b : SchedulerJobScope) → scope_eq a b ≡ scope_eq b a
unfolding scope_eq
scope_eq_sym managed managed = refl
scope_eq_sym managed user = refl
scope_eq_sym user managed = refl
scope_eq_sym user user = refl

bytes_eq_sym : (xs ys : Bytes) → bytes_eq xs ys ≡ bytes_eq ys xs
unfolding bytes_eq
bytes_eq_sym [] [] = refl
bytes_eq_sym [] (y ∷ ys) = refl
bytes_eq_sym (x ∷ xs) [] = refl
bytes_eq_sym (x ∷ xs) (y ∷ ys) = ground (arith, bytes_eq_sym xs ys)

-- Two jobs that may not both stand in the array.
unfoldable pub clash : Job → Job → Bool
unfolding takes_id has_label
clash j k = takes_id j.id k || has_label j.scope j.label k

-- `j` clashes with no job of the list, where it is active.
abbrev pub Fits : Job → List Job → Type 0
Fits j = All (λ k. (j.active ≡ true) → clash j k ≡ false)

abbrev pub IsApart : List Job → Type 0
IsApart [] = Unit {0}
IsApart (j ∷ js) = Fits j js × IsApart js

-- A job of the same identity, or an empty slot, in place of a job.
abbrev pub Replaces : Job → Job → Type 0
Replaces k j =
    k.active ≡ true → (j.active ≡ true) × (k.id ≡ j.id) × (k.scope ≡ j.scope) × (k.label ≡ j.label)

pub clash_sym :
    (j k : Job) → (k.active ≡ true → clash k j ≡ false) → j.active ≡ true → clash j k ≡ false
unfolding clash takes_id has_label
clash_sym j k h b = ground (arith, scope_eq_sym j.scope k.scope, bytes_eq_sym j.label k.label)

clash-Replaces : (i j k : Job) → clash i j ≡ false → Replaces k j → clash i k ≡ false
unfolding clash takes_id has_label
clash-Replaces i j k e r = elim (Bool-cases k.active) [
  | inl a ↦ let (b, id, scope, label) = r a in cc
  | inr n ↦ rw n refl
]

Fits-Replaces : (k j : Job) → Replaces k j → (js : List Job) → Fits j js → Fits k js
unfolding clash takes_id has_label
Fits-Replaces k j r [] h = tt
Fits-Replaces k j r (x ∷ js) h =
    (λ a. let (b, id, scope, label) = r a in cc (h.0 b), Fits-Replaces k j r js h.1)

pub no_job-Fits : (js : List Job) → Fits no_job js
unfolding no_job
no_job-Fits [] = tt
no_job-Fits (j ∷ js) = (λ a. cc, no_job-Fits js)

pub Fits-modify :
    (i new : Job) (js : List Job) (n : ℕ)
    → Fits i js
    → ((i.active ≡ true) → clash i new ≡ false)
    → Fits i (modify js n (λ _. new))
Fits-modify i new [] n h c = tt
Fits-modify i new (j ∷ js) zero h c = (c, h.1)
Fits-modify i new (j ∷ js) (suc n) h c = (h.0, Fits-modify i new js n h.1 c)

-- A new job that clashes with none.
pub modify_new-IsApart :
    (new : Job) (js : List Job) (n : ℕ)
    → IsApart js
    → Fits new js
    → IsApart (modify js n (λ _. new))
modify_new-IsApart new [] n a f = tt
modify_new-IsApart new (j ∷ js) zero a f = (f.1, a.1)
modify_new-IsApart new (j ∷ js) (suc n) a f = (
  Fits-modify j new js n a.0 (λ active. clash_sym j new f.0 active),
  modify_new-IsApart new js n a.1 f.1,
)

Fits-modify_same :
    (i k : Job) (js : List Job) (n : ℕ)
    → Replaces k (get_job js n)
    → Fits i js
    → Fits i (modify js n (λ _. k))
unfolding get_job
Fits-modify_same i k [] n r h = tt
Fits-modify_same i k (j ∷ js) zero r h = (λ a. clash-Replaces i j k (h.0 a) r, h.1)
Fits-modify_same i k (j ∷ js) (suc n) r h = (h.0, Fits-modify_same i k js n r h.1)

-- A job of the same identity.
pub modify_same-IsApart :
    (k : Job) (js : List Job) (n : ℕ)
    → Replaces k (get_job js n)
    → IsApart js
    → IsApart (modify js n (λ _. k))
unfolding get_job
modify_same-IsApart k [] n r a = tt
modify_same-IsApart k (j ∷ js) zero r a = (Fits-Replaces k j r js a.0, a.1)
modify_same-IsApart k (j ∷ js) (suc n) r a =
    (Fits-modify_same j k js n r a.0, modify_same-IsApart k js n r a.1)

pub any_job-Fits :
    (new : Job) (js : List Job)
    → any_job (takes_id new.id) js ≡ false
    → any_job (has_label new.scope new.label) js ≡ false
    → Fits new js
unfolding any_job clash
any_job-Fits new [] e f = tt
any_job-Fits new (j ∷ js) e f =
    (λ a. ground arith, any_job-Fits new js (ground arith) (ground arith))

pub All-modify :
    (P : Job → Type 0) (new : Job) (js : List Job) (n : ℕ)
    → All P js
    → P new
    → All P (modify js n (λ _. new))
All-modify P new [] n a p = tt
All-modify P new (j ∷ js) zero a p = (p, a.1)
All-modify P new (j ∷ js) (suc n) a p = (a.0, All-modify P new js n a.1 p)

-- A write that is taken back.
pub modify-get_job :
    (new : Job) (js : List Job) (n : ℕ) → modify (modify js n (λ _. new)) n (λ _. get_job js n) ≡ js
unfolding get_job
modify-get_job new [] n = refl
modify-get_job new (j ∷ js) zero = refl
modify-get_job new (j ∷ js) (suc n) = ap (◌∷◌ j) (modify-get_job new js n)

-- What `find_job` finds passes the test.
pub find_job-get_job :
    (test : Job → Bool) (js : List Job) (n : ℕ)
    → find_job test js ≡ some n
    → (test (get_job js n) ≡ true) × (n < length js)
unfolding find_job get_job
find_job-get_job test [] n e = cc
find_job-get_job test (j ∷ js) zero e = (ground arith, omega arith)
find_job-get_job test (j ∷ js) (suc n) e = ground (arith, find_job-get_job test js n)

pub get_job-All :
    (P : Job → Type 0) (js : List Job) (n : ℕ) → P no_job → All P js → P (get_job js n)
unfolding get_job
get_job-All P [] n p a = p
get_job-All P (j ∷ js) zero p a = a.0
get_job-All P (j ∷ js) (suc n) p a = get_job-All P js n p a.1

pub modify-const :
    (f : Job → Job) (js : List Job) (n : ℕ) → modify js n f ≡ modify js n (λ _. f (get_job js n))
unfolding get_job
modify-const f [] n = refl
modify-const f (j ∷ js) zero = refl
modify-const f (j ∷ js) (suc n) = ap (◌∷◌ j) (modify-const f js n)

module _ (new : Job) where
  pub get_job-modify :
      (js : List Job) (n : ℕ) → n < length js → get_job (modify js n (λ _. new)) n ≡ new
  unfolding get_job
  get_job-modify [] n h = absurd (omega arith)
  get_job-modify (j ∷ js) zero h = refl
  get_job-modify (j ∷ js) (suc n) h = get_job-modify js n (omega arith)

  pub get_job-modify_other :
      (js : List Job) (n m : ℕ) → m ≢ n → get_job (modify js n (λ _. new)) m ≡ get_job js m
  unfolding get_job
  get_job-modify_other [] n m h = refl
  get_job-modify_other (j ∷ js) zero zero h = absurd (h refl)
  get_job-modify_other (j ∷ js) zero (suc m) h = refl
  get_job-modify_other (j ∷ js) (suc n) zero h = refl
  get_job-modify_other (j ∷ js) (suc n) (suc m) h = get_job-modify_other js n m (λ e. h (ap suc e))

  -- A test that no job passed finds the new one.
  pub find_job-modify :
      (test : Job → Bool) (js : List Job) (n : ℕ)
      → any_job test js ≡ false
      → test new ≡ true
      → n < length js
      → find_job test (modify js n (λ _. new)) ≡ some n
  unfolding find_job any_job
  find_job-modify test [] n e t h = absurd (omega arith)
  find_job-modify test (j ∷ js) zero e t h = rw t refl
  find_job-modify test (j ∷ js) (suc n) e t h =
      ground (arith, find_job-modify test js n (ground arith) t (omega arith))
