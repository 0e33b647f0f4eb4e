-- ===== src/Sessions/Table.antt =====
-- The vector of sessions: finding, changing and erasing the one of a MAC (`sessionFor`,
-- `sessionByCid` and the loop of `eraseSession` in src/Gateway/EspNow/espDeviceManager.cpp).
use night_mare_network.Base.{
  ℕ, ◌+◌, ◌≤◌, ◌≡◌, refl, ◌≢◌, sym, ◌∙◌, if◌then◌else◌, Bytes, bytes_eq, bytes_eq_iff, Option, none,
  some, List, [], ◌∷◌, ◌++◌, length, All, ◌==◌, arith, Bool-cases, inl, inr,
}
use night_mare_network.Device.{Device}

unfoldable pub session_for : Bytes → List Device → Option Device
session_for mac [] = none
session_for mac (d ∷ ds) = if bytes_eq d.mac mac then some d else session_for mac ds

unfoldable pub find_cid : ℕ → List Device → Option Device
find_cid cid [] = none
find_cid cid (d ∷ ds) = if d.cid == cid then some d else find_cid cid ds

unfoldable pub session_by_cid : ℕ → List Device → Option Device
unfolding find_cid
session_by_cid cid ds = if cid == 0 then none else find_cid cid ds

unfoldable pub erase_first : Bytes → List Device → List Device
erase_first mac [] = []
erase_first mac (d ∷ ds) = if bytes_eq d.mac mac then ds else d ∷ erase_first mac ds

-- A change made through the pointer that `sessionFor` gave.
unfoldable pub update_first : Bytes → (Device → Device) → List Device → List Device
update_first mac f [] = []
update_first mac f (d ∷ ds) = if bytes_eq d.mac mac then f d ∷ ds else d ∷ update_first mac f ds

-- No two sessions share a MAC or a cid.
abbrev pub HasNoMac : Bytes → List Device → Type 0
HasNoMac mac = All (λ d. d.mac ≢ mac)

abbrev pub HasNoCid : ℕ → List Device → Type 0
HasNoCid cid = All (λ d. d.cid ≢ cid)

abbrev pub IsDistinct : List Device → Type 0
IsDistinct [] = Unit {0}
IsDistinct (d ∷ ds) = HasNoMac d.mac ds × HasNoCid d.cid ds × IsDistinct ds

-- A change that keeps what identifies a session.
abbrev pub KeepsIdentity : (Device → Device) → Type 0
KeepsIdentity f = (d : Device) → ((f d).mac ≡ d.mac) × ((f d).cid ≡ d.cid)

pub session_for-mac :
    (mac : Bytes) (ds : List Device) (d : Device) → session_for mac ds ≡ some d → d.mac ≡ mac
unfolding session_for
session_for-mac mac [] d e = cc
session_for-mac mac (x ∷ ds) d e = ground (arith, bytes_eq_iff x.mac mac, session_for-mac mac ds d)

pub session_for-HasNoMac :
    (mac : Bytes) (ds : List Device) → HasNoMac mac ds → session_for mac ds ≡ none
unfolding session_for
session_for-HasNoMac mac [] h = refl
session_for-HasNoMac mac (x ∷ ds) h =
    ground (arith, bytes_eq_iff x.mac mac, session_for-HasNoMac mac ds h.1)

pub HasNoMac-session_for :
    (mac : Bytes) (ds : List Device) → session_for mac ds ≡ none → HasNoMac mac ds
unfolding session_for
HasNoMac-session_for mac [] h = tt
HasNoMac-session_for mac (x ∷ ds) h =
    (ground (arith, bytes_eq_iff x.mac mac), HasNoMac-session_for mac ds (ground arith))

abbrev pub map_session : (Device → Device) → Option Device → Option Device
map_session f none = none
map_session f (some d) = some (f d)

module _ (mac : Bytes) (f : Device → Device) where
  pub All-update_first :
      {P : Device → Type 0} (ds : List Device)
      → All P ds
      → ((d : Device) → P d → P (f d))
      → All P (update_first mac f ds)
  unfolding update_first
  All-update_first [] a h = tt
  All-update_first (d ∷ ds) a h = elim (Bool-cases (bytes_eq d.mac mac)) [
    | inl e ↦ rw e (h d a.0, a.1)
    | inr n ↦ rw n (a.0, All-update_first ds a.1 h)
  ]

  pub length-update_first : (ds : List Device) → length (update_first mac f ds) ≡ length ds
  unfolding update_first
  length-update_first [] = refl
  length-update_first (d ∷ ds) = ground (arith, length-update_first ds)

module _ (mac : Bytes) (f : Device → Device) (keeps : KeepsIdentity f) where
  pub session_for-update_first :
      (other : Bytes) (ds : List Device)
      → session_for other (update_first mac f ds) ≡ (
          if bytes_eq mac other then map_session f (session_for other ds) else session_for other ds)
  unfolding session_for update_first
  session_for-update_first other [] = ground arith
  session_for-update_first other (d ∷ ds) = ground (
    arith,
    keeps d,
    bytes_eq_iff d.mac mac,
    bytes_eq_iff d.mac other,
    bytes_eq_iff mac other,
    session_for-update_first other ds,
  )

  pub update_first-IsDistinct :
      (ds : List Device) → IsDistinct ds → IsDistinct (update_first mac f ds)
  unfolding update_first
  update_first-IsDistinct [] v = tt
  update_first-IsDistinct (d ∷ ds) v = elim (Bool-cases (bytes_eq d.mac mac)) [
    | inl e ↦ rw (e, (keeps d).0, (keeps d).1) v
    | inr n ↦ rw n (
      All-update_first mac f ds v.0 (λ x h e. h (sym (keeps x).0 ∙ e)),
      All-update_first mac f ds v.1 (λ x h e. h (sym (keeps x).1 ∙ e)),
      update_first-IsDistinct ds v.2,
    )
  ]

module _ (mac : Bytes) where
  pub All-erase_first :
      (P : Device → Type 0) (ds : List Device) → All P ds → All P (erase_first mac ds)
  unfolding erase_first
  All-erase_first P [] a = tt
  All-erase_first P (d ∷ ds) a = elim (Bool-cases (bytes_eq d.mac mac)) [
    | inl e ↦ rw e a.1
    | inr n ↦ rw n (a.0, All-erase_first P ds a.1)
  ]

  pub length-erase_first : (ds : List Device) → length (erase_first mac ds) ≤ length ds
  unfolding erase_first
  length-erase_first [] = omega arith
  length-erase_first (d ∷ ds) = ground (arith, length-erase_first ds)

  pub length-erase_first-some :
      (ds : List Device) (d : Device)
      → session_for mac ds ≡ some d
      → length (erase_first mac ds) + 1 ≡ length ds
  unfolding erase_first session_for
  length-erase_first-some [] d e = cc
  length-erase_first-some (x ∷ ds) d e = ground (arith, length-erase_first-some ds d)

  pub erase_first-IsDistinct : (ds : List Device) → IsDistinct ds → IsDistinct (erase_first mac ds)
  unfolding erase_first
  erase_first-IsDistinct [] v = tt
  erase_first-IsDistinct (d ∷ ds) v = elim (Bool-cases (bytes_eq d.mac mac)) [
    | inl e ↦ rw e v.2
    | inr n ↦ rw n (
      All-erase_first (λ x. x.mac ≢ d.mac) ds v.0,
      All-erase_first (λ x. x.cid ≢ d.cid) ds v.1,
      erase_first-IsDistinct ds v.2,
    )
  ]

  pub session_for-erase_first :
      (other : Bytes) (ds : List Device)
      → IsDistinct ds
      → session_for other (erase_first mac ds)
        ≡ (if bytes_eq mac other then none else session_for other ds)
  unfolding erase_first session_for
  session_for-erase_first other [] v = ground arith
  session_for-erase_first other (d ∷ ds) v = ground (
    arith,
    bytes_eq_iff d.mac mac,
    bytes_eq_iff d.mac other,
    bytes_eq_iff mac other,
    session_for-erase_first other ds v.2,
    session_for-HasNoMac d.mac ds v.0,
  )

pub All-append_one :
    (P : Device → Type 0) (ds : List Device) (d : Device) → All P ds → P d → All P (ds ++ d ∷ [])
All-append_one P [] d a h = (h, tt)
All-append_one P (x ∷ ds) d a h = (a.0, All-append_one P ds d a.1 h)

-- A new session at the end, with a MAC and a cid of its own.
pub append_one-IsDistinct :
    (ds : List Device) (d : Device)
    → IsDistinct ds
    → HasNoMac d.mac ds
    → HasNoCid d.cid ds
    → IsDistinct (ds ++ d ∷ [])
append_one-IsDistinct [] d v m c = (tt, tt, tt)
append_one-IsDistinct (x ∷ ds) d v m c = (
  All-append_one (λ y. y.mac ≢ x.mac) ds d v.0 (λ e. m.0 (sym e)),
  All-append_one (λ y. y.cid ≢ x.cid) ds d v.1 (λ e. c.0 (sym e)),
  append_one-IsDistinct ds d v.2 m.1 c.1,
)

pub session_for-append_one :
    (mac : Bytes) (ds : List Device) (d : Device)
    → HasNoMac d.mac ds
    → session_for mac (ds ++ d ∷ []) ≡ (if bytes_eq d.mac mac then some d else session_for mac ds)
unfolding session_for
session_for-append_one mac [] d m = ground arith
session_for-append_one mac (x ∷ ds) d m = ground (
  arith,
  bytes_eq_iff x.mac mac,
  bytes_eq_iff d.mac mac,
  bytes_eq_iff x.mac d.mac,
  session_for-append_one mac ds d m.1,
)

pub HasNoCid-find_cid : (cid : ℕ) (ds : List Device) → find_cid cid ds ≡ none → HasNoCid cid ds
unfolding find_cid
HasNoCid-find_cid cid [] e = tt
HasNoCid-find_cid cid (x ∷ ds) e = (ground arith, HasNoCid-find_cid cid ds (ground arith))
