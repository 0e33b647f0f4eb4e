-- ===== src/Sessions/Pending.antt =====
-- The pending handshakes: finding the one of a MAC after a write.
use night_mare_network.Base.{
  ℕ, zero, suc, ◌<◌, ◌≡◌, refl, ◌⊎◌, inl, inr, true, false, Bytes, bytes_eq_iff, none, some, List,
  [], ◌∷◌, length, arith,
}
use night_mare_network.Base.Slots.{modify}
use night_mare_network.Sessions.{PendingHandshake, is_pending_for, pending_for, get_pending}

-- No two running handshakes are of one MAC.
abbrev pub IsApart : List PendingHandshake → Type 0
IsApart [] = Unit {0}
IsApart (p ∷ ps) = (p.active ≡ true → pending_for p.mac ps ≡ none) × IsApart ps

pub pending_for-get_pending :
    (mac : Bytes) (ps : List PendingHandshake) (i : ℕ)
    → pending_for mac ps ≡ some i
    → (i < length ps) × (is_pending_for mac (get_pending ps i) ≡ true)
unfolding pending_for get_pending
pending_for-get_pending mac [] i e = cc
pending_for-get_pending mac (p ∷ ps) zero e = ground arith
pending_for-get_pending mac (p ∷ ps) (suc i) e = ground (arith, pending_for-get_pending mac ps i)

-- A write that leaves the entry to another MAC.
pub pending_for-modify_other :
    (mac : Bytes) (f : PendingHandshake → PendingHandshake) (ps : List PendingHandshake) (i : ℕ)
    → is_pending_for mac (get_pending ps i) ≡ false
    → is_pending_for mac (f (get_pending ps i)) ≡ false
    → pending_for mac (modify ps i f) ≡ pending_for mac ps
unfolding pending_for get_pending
pending_for-modify_other mac f [] i a b = refl
pending_for-modify_other mac f (p ∷ ps) zero a b = ground arith
pending_for-modify_other mac f (p ∷ ps) (suc i) a b =
    ground (arith, pending_for-modify_other mac f ps i a b)

-- An entry is given to a MAC that had none.
pub pending_for-modify_new :
    (mac : Bytes) (f : PendingHandshake → PendingHandshake) (ps : List PendingHandshake) (i : ℕ)
    → pending_for mac ps ≡ none
    → i < length ps
    → is_pending_for mac (f (get_pending ps i)) ≡ true
    → pending_for mac (modify ps i f) ≡ some i
unfolding pending_for get_pending
pending_for-modify_new mac f [] i a h b = absurd (omega arith)
pending_for-modify_new mac f (p ∷ ps) zero a h b = rw b refl
pending_for-modify_new mac f (p ∷ ps) (suc i) a h b =
    ground (arith, pending_for-modify_new mac f ps i)

-- The entry of a MAC is written again for that MAC.
pub pending_for-modify_same :
    (mac : Bytes) (f : PendingHandshake → PendingHandshake) (ps : List PendingHandshake) (i : ℕ)
    → pending_for mac ps ≡ some i
    → is_pending_for mac (f (get_pending ps i)) ≡ true
    → pending_for mac (modify ps i f) ≡ some i
unfolding pending_for get_pending
pending_for-modify_same mac f [] i a b = cc
pending_for-modify_same mac f (p ∷ ps) zero a b = rw b refl
pending_for-modify_same mac f (p ∷ ps) (suc i) a b =
    ground (arith, pending_for-modify_same mac f ps i)

-- The entry of a MAC is given up: the MAC has none.
pub pending_for-modify_cleared :
    (mac : Bytes) (f : PendingHandshake → PendingHandshake) (ps : List PendingHandshake) (i : ℕ)
    → IsApart ps
    → pending_for mac ps ≡ some i
    → (f (get_pending ps i)).active ≡ false
    → pending_for mac (modify ps i f) ≡ none
unfolding pending_for get_pending is_pending_for
pending_for-modify_cleared mac f [] i v a b = cc
pending_for-modify_cleared mac f (p ∷ ps) zero v a b = ground (arith, v.0, bytes_eq_iff p.mac mac)
pending_for-modify_cleared mac f (p ∷ ps) (suc i) v a b =
    ground (arith, pending_for-modify_cleared mac f ps i v.1)

pub pending_for-modify-none :
    (mac : Bytes) (f : PendingHandshake → PendingHandshake) (ps : List PendingHandshake) (i : ℕ)
    → pending_for mac ps ≡ none
    → is_pending_for mac (f (get_pending ps i)) ≡ false
    → pending_for mac (modify ps i f) ≡ none
unfolding pending_for get_pending
pending_for-modify-none mac f [] i a b = refl
pending_for-modify-none mac f (p ∷ ps) zero a b = ground arith
pending_for-modify-none mac f (p ∷ ps) (suc i) a b =
    ground (arith, pending_for-modify-none mac f ps i)

-- A write keeps the handshakes apart if the entry is given up, or given to a MAC that has no other.
pub modify-IsApart :
    (f : PendingHandshake → PendingHandshake) (ps : List PendingHandshake) (i : ℕ)
    → IsApart ps
    → ((f (get_pending ps i)).active ≡ true
        → (pending_for (f (get_pending ps i)).mac ps ≡ none)
          ⊎ (pending_for (f (get_pending ps i)).mac ps ≡ some i))
    → IsApart (modify ps i f)
unfolding pending_for get_pending is_pending_for
modify-IsApart f [] i v h = tt
modify-IsApart f (p ∷ ps) zero v h =
    (λ a. ground (arith, h a, v.0, bytes_eq_iff p.mac (f p).mac), v.1)
modify-IsApart f (p ∷ ps) (suc i) v h =
    let q = f (get_pending ps i) in
    (
      λ a.
          pending_for-modify-none p.mac f ps i (v.0 a)
            (ground (arith, h, bytes_eq_iff p.mac q.mac, bytes_eq_iff q.mac p.mac)),
      modify-IsApart f ps i v.1
          (λ a. elim (h a) [ inl e ↦ inl (ground arith) | inr e ↦ inr (ground arith) ]),
    )
