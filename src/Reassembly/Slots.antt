-- ===== src/Reassembly/Slots.antt =====
-- The slot of a message, and what writes elsewhere leave of it.
use night_mare_network.Base.{
  ℕ, zero, suc, ◌≡◌, refl, inl, inr, Bool, true, false, Bytes, Option, none, some, List, [], ◌∷◌,
  arith, if◌then◌else◌, Bool-cases, length, ◌<◌, ap,
}
use night_mare_network.Base.Slots.{modify}
use night_mare_network.Reassembly.{Slot, is_for, find, claim, is_claimable, get_slot}

-- The slot that holds a message, if there is one.
unfoldable pub slot_of : Bytes → ℕ → ℕ → List Slot → Option Slot
slot_of mac cid id [] = none
slot_of mac cid id (s ∷ t) = if is_for mac cid id s then some s else slot_of mac cid id t

module _ (mac : Bytes) (cid id : ℕ) where
  -- `find` and `slot_of` go together.
  pub find-slot_of :
      (t : List Slot) (s : Slot)
      → slot_of mac cid id t ≡ some s
      → (i : ℕ) × (find mac cid id t ≡ some i) × (get_slot t i ≡ s) × (is_for mac cid id s ≡ true)
  unfolding find slot_of get_slot
  find-slot_of [] s e = cc
  find-slot_of (x ∷ t) s e = elim (Bool-cases (is_for mac cid id x)) [
    | inl y ↦ (0, ground arith, ground arith, ground arith)
    | inr n ↦
        let (i, found, at, mine) = find-slot_of t s (ground arith) in
        (suc i, ground arith, at, mine)
  ]

  pub find-none : (t : List Slot) → slot_of mac cid id t ≡ none → find mac cid id t ≡ none
  unfolding find slot_of
  find-none [] e = refl
  find-none (x ∷ t) e = ground (arith, find-none t)

  -- A write at the slot that `find` gives.
  pub slot_of-modify_found :
      (f : Slot → Slot) (t : List Slot) (i : ℕ)
      → find mac cid id t ≡ some i
      → is_for mac cid id (f (get_slot t i)) ≡ true
      → slot_of mac cid id (modify t i f) ≡ some (f (get_slot t i))
  unfolding find slot_of get_slot
  slot_of-modify_found f [] i e k = cc
  slot_of-modify_found f (x ∷ t) zero e k = rw k refl
  slot_of-modify_found f (x ∷ t) (suc i) e k = elim (Bool-cases (is_for mac cid id x)) [
    | inl y ↦ ground arith
    | inr n ↦ rw n (slot_of-modify_found f t i (ground arith) k)
  ]

  -- A write at a slot that is not the message's, and does not become it.
  pub slot_of-modify_other :
      (f : Slot → Slot) (t : List Slot) (i : ℕ)
      → is_for mac cid id (get_slot t i) ≡ false
      → is_for mac cid id (f (get_slot t i)) ≡ false
      → slot_of mac cid id (modify t i f) ≡ slot_of mac cid id t
  unfolding slot_of get_slot
  slot_of-modify_other f [] i e k = refl
  slot_of-modify_other f (x ∷ t) zero e k = rw (e, k) refl
  slot_of-modify_other f (x ∷ t) (suc i) e k = ground (arith, slot_of-modify_other f t i e k)

  pub find-lt : (t : List Slot) (i : ℕ) → find mac cid id t ≡ some i → i < length t
  unfolding find
  find-lt [] i e = cc
  find-lt (x ∷ t) zero e = omega arith
  find-lt (x ∷ t) (suc i) e = ground (arith, find-lt t i)

  -- A write that makes a slot the message's, where it had none.
  pub find-modify_new :
      (f : Slot → Slot) (t : List Slot) (i : ℕ)
      → find mac cid id t ≡ none
      → i < length t
      → is_for mac cid id (f (get_slot t i)) ≡ true
      → find mac cid id (modify t i f) ≡ some i
  unfolding find get_slot
  find-modify_new f [] i e h k = absurd (omega arith)
  find-modify_new f (x ∷ t) zero e h k = rw k refl
  find-modify_new f (x ∷ t) (suc i) e h k = elim (Bool-cases (is_for mac cid id x)) [
    | inl y ↦ ground arith
    | inr n ↦ rw (n, find-modify_new f t i (ground arith) (omega arith) k) refl
  ]

  pub find-is_for :
      (t : List Slot) (i : ℕ) → find mac cid id t ≡ some i → is_for mac cid id (get_slot t i) ≡ true
  unfolding find get_slot
  find-is_for [] i e = cc
  find-is_for (x ∷ t) zero e = ground arith
  find-is_for (x ∷ t) (suc i) e = ground (arith, find-is_for t i)

  -- A write that takes over a slot with a property which the message's slot does not have.
  pub slot_of-modify_taken :
      (p : Slot → Bool) (f : Slot → Slot) (t : List Slot) (i : ℕ) (s : Slot)
      → slot_of mac cid id t ≡ some s
      → p s ≡ false
      → p (get_slot t i) ≡ true
      → is_for mac cid id (f (get_slot t i)) ≡ false
      → slot_of mac cid id (modify t i f) ≡ some s
  unfolding slot_of get_slot
  slot_of-modify_taken p f [] i s e a b k = e
  slot_of-modify_taken p f (x ∷ t) zero s e a b k = elim (Bool-cases (is_for mac cid id x)) [
    | inl y ↦ let same : x ≡ s = ground arith in cc (ap p same)
    | inr n ↦ rw k (ground arith)
  ]
  slot_of-modify_taken p f (x ∷ t) (suc i) s e a b k = elim (Bool-cases (is_for mac cid id x)) [
    | inl y ↦ rw y (ground arith)
    | inr n ↦ rw n (slot_of-modify_taken p f t i s (ground arith) a b k)
  ]

  pub claim_lem :
      (now : ℕ) (t : List Slot) (i : ℕ)
      → claim mac cid now t ≡ some i
      → (i < length t) × (is_claimable mac cid now (get_slot t i) ≡ true)
  unfolding claim get_slot
  claim_lem now [] i e = cc
  claim_lem now (x ∷ t) zero e = ground arith
  claim_lem now (x ∷ t) (suc i) e = ground (arith, claim_lem now t i)

pub get_slot-modify :
    (f : Slot → Slot) (t : List Slot) (i : ℕ)
    → i < length t
    → get_slot (modify t i f) i ≡ f (get_slot t i)
unfolding get_slot
get_slot-modify f [] i h = absurd (omega arith)
get_slot-modify f (x ∷ t) zero h = refl
get_slot-modify f (x ∷ t) (suc i) h = get_slot-modify f t i (omega arith)

pub modify-modify :
    (f g : Slot → Slot) (t : List Slot) (i : ℕ)
    → modify (modify t i g) i f ≡ modify t i (λ s. f (g s))
modify-modify f g [] i = refl
modify-modify f g (x ∷ t) zero = refl
modify-modify f g (x ∷ t) (suc i) = ap (◌∷◌ x) (modify-modify f g t i)
