-- ===== src/Sessions/Cids.antt =====
-- `allocateCid` finds a free cid: its candidates run through 65535 values, and there are at most 16
-- sessions.
use night_mare_network.Base.{
  ℕ, zero, suc, ◌+◌, ◌-◌, ◌%◌, ◌≤◌, ◌<◌, ◌≡◌, refl, ◌≢◌, ap, ◌⊎◌, inl, inr, true, false,
  if◌then◌else◌, none, some, List, [], ◌∷◌, length, ◌==◌, arith, Bool-cases, Option-cases, subst,
}
use night_mare_network.Device.{Device}
use night_mare_network.Sessions.{allocate_cid, is_some}
use night_mare_network.Sessions.Table.{find_cid, session_by_cid, HasNoCid, HasNoCid-find_cid}

-- The candidate after `n` rounds from `start`.
candidate : ℕ → ℕ → ℕ
candidate start n = (start - 1 + n) % 65535 + 1

abbrev cids : List Device → List ℕ
cids [] = []
cids (d ∷ ds) = d.cid ∷ cids ds

-- Pigeonhole: a list that holds the first `k` values of a function without repetition is as long.
abbrev In : ℕ → List ℕ → Type 0
In a [] = ⊥
In a (x ∷ xs) = (a ≡ x) ⊎ In a xs

without : ℕ → List ℕ → List ℕ
without a [] = []
without a (x ∷ xs) = if x == a then xs else x ∷ without a xs

length-without : (a : ℕ) (xs : List ℕ) → In a xs → length (without a xs) + 1 ≡ length xs
unfolding without
length-without a [] h = absurd h
length-without a (x ∷ xs) h = ground (arith, length-without a xs)

In-without : (a b : ℕ) (xs : List ℕ) → In b xs → b ≢ a → In b (without a xs)
unfolding without
In-without a b [] h n = absurd h
In-without a b (x ∷ xs) h n = elim (Bool-cases (x == a)) [
  | inl e ↦ rw e (elim h [ inl p ↦ absurd (ground arith) | inr q ↦ q ])
  | inr d ↦ rw d (elim h [ inl p ↦ inl p | inr q ↦ inr (In-without a b xs q n) ])
]

pigeonhole :
    (f : ℕ → ℕ) (k : ℕ) (xs : List ℕ)
    → ((i j : ℕ) → i < k → j < k → f i ≡ f j → i ≡ j)
    → ((i : ℕ) → i < k → In (f i) xs)
    → k ≤ length xs
pigeonhole f zero xs inj all = omega arith
pigeonhole f (suc k) xs inj all =
    let shorter =
      pigeonhole f k (without (f k) xs) (λ i j hi hj e. inj i j (omega arith) (omega arith) e)
        (λ i hi.
          In-without (f k) (f i) xs (all i (omega arith))
            (λ e. let same = inj i k (omega arith) (omega arith) e in absurd (omega arith))) in
    omega (arith, shorter, length-without (f k) xs (all k (omega arith)))

candidate_injective :
    (start i j : ℕ) → i < 65535 → j < 65535 → candidate start i ≡ candidate start j → i ≡ j
unfolding candidate
candidate_injective start i j hi hj e = omega arith

session_by_cid-cids :
    (cid : ℕ) (ds : List Device) → is_some (session_by_cid cid ds) ≡ true → In cid (cids ds)
unfolding session_by_cid find_cid
session_by_cid-cids cid [] h = ground arith
session_by_cid-cids cid (d ∷ ds) h = ground (arith, session_by_cid-cids cid ds)

next_candidate :
    (start n : ℕ)
    → (if (candidate start n + 1) % 65536 == 0 then 1 else (candidate start n + 1) % 65536)
      ≡ candidate start (suc n)
unfolding candidate
next_candidate start n = ground arith

candidate_zero : (start : ℕ) → 0 < start → start < 65536 → start ≡ candidate start 0
unfolding candidate
candidate_zero start p s = omega arith

candidate_pos : (start n : ℕ) → 0 < candidate start n
unfolding candidate
candidate_pos start n = omega arith

length-cids : (ds : List Device) → length (cids ds) ≡ length ds
length-cids [] = refl
length-cids (d ∷ ds) = ap suc (length-cids ds)

-- A round that does not end the loop.
refused :
    (start fuel n : ℕ) (ds : List Device)
    → allocate_cid (suc fuel) (candidate start n) ds ≡ none
    → let c = candidate start n in
      (is_some (session_by_cid c ds) ≡ true)
      × (allocate_cid fuel (if (c + 1) % 65536 == 0 then 1 else (c + 1) % 65536) ds ≡ none)
unfolding allocate_cid
refused start fuel n ds e = ground (arith, candidate_pos start n)

free_cid :
    (cid : ℕ) (ds : List Device)
    → 0 < cid
    → is_some (session_by_cid cid ds) ≡ false
    → HasNoCid cid ds
unfolding session_by_cid
free_cid cid ds p h =
    HasNoCid-find_cid cid ds
      (elim (Option-cases (find_cid cid ds)) [ inl e ↦ e | inr (d, e) ↦ ground arith ])

abbrev pub IsFree : ℕ → ℕ → List Device → Type 0
IsFree c after ds = (0 < c) × (c < 65536) × HasNoCid c ds × (0 < after) × (after < 65536)

allocate_cid-some :
    (fuel next : ℕ) (ds : List Device) (c after : ℕ)
    → 0 < next
    → next < 65536
    → allocate_cid fuel next ds ≡ some (c, after)
    → IsFree c after ds
unfolding allocate_cid
allocate_cid-some zero next ds c after p s e = cc
allocate_cid-some (suc fuel) next ds c after p s e =
    elim (Bool-cases (is_some (session_by_cid next ds))) [
      | inl taken ↦
          allocate_cid-some fuel (if (next + 1) % 65536 == 0 then 1 else (next + 1) % 65536) ds c
            after (ground arith) (ground arith) (ground arith)
      | inr free ↦ ground (arith, free_cid next ds p free)
    ]

-- Where the loop has not ended within its fuel, every candidate is taken.
exhausted :
    (start fuel n : ℕ) (ds : List Device)
    → 0 < start
    → start < 65536
    → allocate_cid fuel (candidate start n) ds ≡ none
    → (i : ℕ) → i < fuel
    → In (candidate start (n + i)) (cids ds)
unfolding allocate_cid
exhausted start zero n ds p s e i h = absurd (omega arith)
exhausted start (suc fuel) n ds p s e zero h =
    subst (λ m. In (candidate start m) (cids ds)) (omega arith)
      (session_by_cid-cids (candidate start n) ds (refused start fuel n ds e).0)
exhausted start (suc fuel) n ds p s e (suc i) h =
    subst (λ m. In (candidate start m) (cids ds)) (omega arith)
      (exhausted start fuel (suc n) ds p s
        (subst (λ c. allocate_cid fuel c ds ≡ none) (next_candidate start n)
          (refused start fuel n ds e).1)
        i (omega arith))

-- With one round more than there are sessions the loop ends, at a cid that is not 0, fits 16 bits
-- and belongs to no session; `nextCid` stays a valid cid.
pub allocate_cid_total :
    (start : ℕ) (ds : List Device)
    → 0 < start
    → start < 65536
    → length ds < 65535
    → (c : ℕ) × (after : ℕ) × (allocate_cid (suc (length ds)) start ds ≡ some (c, after))
      × IsFree c after ds
allocate_cid_total start ds p s few =
    elim (Option-cases (allocate_cid (suc (length ds)) start ds)) [
      | inr ((c, after), e) ↦
          (c, after, e, allocate_cid-some (suc (length ds)) start ds c after p s e)
      | inl e ↦ absurd (
          omega (
            arith,
            pigeonhole (candidate start) (suc (length ds)) (cids ds)
                (λ i j hi hj q. candidate_injective start i j (omega arith) (omega arith) q)
                (all_taken e),
            length-cids ds,
          ))
    ]
  where
    all_taken :
        allocate_cid (suc (length ds)) start ds ≡ none
        → (i : ℕ) → i < suc (length ds)
        → In (candidate start i) (cids ds)
    all_taken e i hi =
        subst (λ m. In (candidate start m) (cids ds)) (omega arith)
          (exhausted start (suc (length ds)) 0 ds p s
            (subst (λ c. allocate_cid (suc (length ds)) c ds ≡ none) (candidate_zero start p s) e) i
            hi)
