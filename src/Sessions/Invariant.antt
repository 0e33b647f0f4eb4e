-- ===== src/Sessions/Invariant.antt =====
-- What holds of the session table between two calls.
use night_mare_network.Base.{
  ℕ, ◌≤◌, ◌<◌, ◌≡◌, refl, sym, ◌∙◌, ◌⊎◌, inl, inr, Bool, true, false, not, if◌then◌else◌, Bytes,
  bytes_eq_refl, Option, none, some, List, [], ◌∷◌, length, All, leb, arith, Bool-cases,
  Option-cases, length-append, subst,
}
use night_mare_network.Base.Slots.{modify, length-modify}
use night_mare_network.Device.{Device, new_device}
use night_mare_network.Sessions.{
  DeviceManager, PendingHandshake, wiped, new_manager, pending_for, get_pending, max_devices,
  max_pending, erase_session, call_removed, resume, suspend, call_secure, restore_session,
  release_session, abandon_handshake, add_session, complete_handshake, begin_securing,
  secure_session,
}
use night_mare_network.Sessions.Radio.{PeerOps, PeerCall, removed, secured}
use night_mare_network.Sessions.Table.{
  session_for, IsDistinct, KeepsIdentity, All-update_first, All-erase_first, All-append_one,
  update_first, update_first-IsDistinct, erase_first, erase_first-IsDistinct, length-update_first,
  length-erase_first, length-erase_first-some, append_one-IsDistinct, HasNoMac,
  HasNoMac-session_for, session_for-erase_first,
}
use night_mare_network.Sessions.Cids.{allocate_cid_total}
use night_mare_network.Sessions.Pending.{IsApart, modify-IsApart}

-- A cid is never 0 and fits 16 bits.
abbrev pub HasCid : Device → Type 0
HasCid d = (0 < d.cid) × (d.cid < 65536)

-- At most 16 sessions, no two of one MAC or one cid; three entries for handshakes, no two running
-- for one MAC.
pub record IsValid (m : DeviceManager) : Type 0 where
  pub room : length m.devices ≤ max_devices
  pub distinct : IsDistinct m.devices
  pub with_cids : All HasCid m.devices
  pub next_pos : 0 < m.next_cid
  pub next_fits : m.next_cid < 65536
  pub slots : length m.pending ≡ max_pending
  pub apart : IsApart m.pending

pub never : ¬ (false ≡ true)
never e = cc

-- The calls of the radio do not matter.
pub calls-IsValid :
    (m : DeviceManager) (calls : List PeerCall) → IsValid m → IsValid (record m { calls = calls })
calls-IsValid m calls v = record {
  room = v.room;
  distinct = v.distinct;
  with_cids = v.with_cids;
  next_pos = v.next_pos;
  next_fits = v.next_fits;
  slots = v.slots;
  apart = v.apart;
}

pub new_manager-IsValid : (timeout first : ℕ) → first < 65536 → IsValid (new_manager timeout first)
unfolding new_manager wiped
new_manager-IsValid timeout first h = record {
  room = omega arith;
  distinct = tt;
  with_cids = tt;
  next_pos = ground arith;
  next_fits = ground arith;
  slots = refl;
  apart = (λ e. absurd (never e), (λ e. absurd (never e), (λ e. absurd (never e), tt)));
}

-- A change of one session that keeps its MAC and cid.
pub update-IsValid :
    (m : DeviceManager) (mac : Bytes) (f : Device → Device)
    → KeepsIdentity f
    → IsValid m
    → IsValid (record m { devices = update_first mac f m.devices })
update-IsValid m mac f keeps v = record {
  room = rw (length-update_first mac f m.devices) v.room;
  distinct = update_first-IsDistinct mac f keeps m.devices v.distinct;
  with_cids = All-update_first mac f m.devices v.with_cids (λ d h. rw (keeps d).1 h);
  next_pos = v.next_pos;
  next_fits = v.next_fits;
  slots = v.slots;
  apart = v.apart;
}

erase_first-IsValid :
    (m : DeviceManager) (mac : Bytes)
    → IsValid m
    → IsValid (record m { devices = erase_first mac m.devices })
erase_first-IsValid m mac v = record {
  room = omega (arith, length-erase_first mac m.devices, v.room);
  distinct = erase_first-IsDistinct mac m.devices v.distinct;
  with_cids = All-erase_first mac HasCid m.devices v.with_cids;
  next_pos = v.next_pos;
  next_fits = v.next_fits;
  slots = v.slots;
  apart = v.apart;
}

pub erase_session-IsValid :
    (m : DeviceManager) (mac : Bytes) (keep : Bool) → IsValid m → IsValid (erase_session m mac keep)
unfolding erase_session
erase_session-IsValid m mac keep v = elim (Option-cases (session_for mac m.devices)) [
  | inl e ↦ rw (e, erase_session) v
  | inr (d, e) ↦ rw (e, erase_session) (erased keep (erase_first-IsValid m mac v))
]
  where
    erased :
        (k : Bool)
        → IsValid (record m { devices = erase_first mac m.devices })
        → IsValid (
            if k
            then record m { devices = erase_first mac m.devices }
            else call_removed (record m { devices = erase_first mac m.devices }) mac)
    erased true h = h
    erased false h = unfold call_removed in calls-IsValid _ (removed mac ∷ m.calls) h

pub set_pending-IsValid :
    (m : DeviceManager) (i : ℕ) (f : PendingHandshake → PendingHandshake)
    → ((f (get_pending m.pending i)).active ≡ true
        → (pending_for (f (get_pending m.pending i)).mac m.pending ≡ none)
          ⊎ (pending_for (f (get_pending m.pending i)).mac m.pending ≡ some i))
    → IsValid m
    → IsValid (record m { pending = modify m.pending i f })
set_pending-IsValid m i f h v = record {
  room = v.room;
  distinct = v.distinct;
  with_cids = v.with_cids;
  next_pos = v.next_pos;
  next_fits = v.next_fits;
  slots = length-modify m.pending i f ∙ v.slots;
  apart = modify-IsApart f m.pending i v.apart h;
}

wipe-IsValid :
    (m : DeviceManager) (i : ℕ)
    → IsValid m
    → IsValid (record m { pending = modify m.pending i (λ _. wiped) })
unfolding wiped
wipe-IsValid m i v = set_pending-IsValid m i (λ _. wiped) (λ e. cc) v

pub resume-keeps : KeepsIdentity resume
unfolding resume
resume-keeps d = (refl, refl)

pub suspend-keeps : KeepsIdentity suspend
unfolding suspend
suspend-keeps d = (refl, refl)

begin_securing-keeps : (lmk : Bytes) → KeepsIdentity (begin_securing lmk)
unfolding begin_securing
begin_securing-keeps lmk d = (refl, refl)

-- A new session, where there is room and its MAC has none.
pub add_session-IsValid :
    (m : DeviceManager) (mac : Bytes) (now : ℕ)
    → length m.devices < max_devices
    → HasNoMac mac m.devices
    → IsValid m
    → IsValid (add_session m mac now).0
unfolding add_session new_device
add_session-IsValid m mac now room new v =
    let (cid, after, e, free) =
      allocate_cid_total m.next_cid m.devices v.next_pos v.next_fits (omega arith) in
    let (pos, fits, unused, after_pos, after_fits) = free in
    rw (e, add_session)
      (record {
        room = omega (arith, length-append m.devices (new_device mac cid now ∷ []));
        distinct = append_one-IsDistinct m.devices (new_device mac cid now) v.distinct new unused;
        with_cids =
            All-append_one HasCid m.devices (new_device mac cid now) v.with_cids (pos, fits);
        next_pos = after_pos;
        next_fits = after_fits;
        slots = v.slots;
        apart = v.apart;
      })

-- Where the old session of a MAC goes, there is room for a new one.
replaced_room :
    (m : DeviceManager) (mac : Bytes) (d : Device)
    → session_for mac m.devices ≡ some d
    → IsValid m
    → (length (erase_session m mac true).devices < max_devices)
      × HasNoMac mac (erase_session m mac true).devices
unfolding erase_session
replaced_room m mac d e v =
    rw (e, erase_session)
      (
        omega (arith, length-erase_first-some mac m.devices d e, v.room),
        HasNoMac-session_for mac (erase_first mac m.devices) (
            ground
              (arith, session_for-erase_first mac mac m.devices v.distinct, bytes_eq_refl mac)),
      )

erase_session-none :
    (m : DeviceManager) (mac : Bytes)
    → session_for mac m.devices ≡ none
    → erase_session m mac true ≡ m
unfolding erase_session
erase_session-none m mac e = rw (e, erase_session) refl

module _ (peers : PeerOps) where
  call_secure-IsValid :
      (m : DeviceManager) (mac key : Bytes) → IsValid m → IsValid (call_secure peers m mac key).0
  unfolding call_secure
  call_secure-IsValid m mac key v = calls-IsValid m (secured mac key ∷ m.calls) v

  restore_session-IsValid :
      (m : DeviceManager) (mac : Bytes) (d : Device)
      → IsValid m
      → IsValid (restore_session peers m mac d)
  unfolding restore_session
  restore_session-IsValid m mac d v =
      let called = call_secure peers m mac d.session_key in
      let ok = call_secure-IsValid m mac d.session_key v in
      choose (not d.has_session_key) (erase_session-IsValid m mac false v) (
        choose called.1 (update-IsValid called.0 mac resume resume-keeps ok)
          (erase_session-IsValid called.0 mac false ok))
    where
      choose :
          (b : Bool) {x y : DeviceManager} → IsValid x → IsValid y → IsValid (if b then x else y)
      choose true p q = p
      choose false p q = q

  release_session-IsValid :
      (m : DeviceManager) (mac : Bytes) (o : Option Device)
      → IsValid m
      → IsValid (release_session peers m mac o)
  unfolding release_session
  release_session-IsValid m mac none v = calls-IsValid m (removed mac ∷ m.calls) v
  release_session-IsValid m mac (some d) v = ground (arith, restore_session-IsValid m mac d v)

  pub abandon_handshake-IsValid :
      (m : DeviceManager) (mac : Bytes) → IsValid m → IsValid (abandon_handshake peers m mac)
  unfolding abandon_handshake
  abandon_handshake-IsValid m mac v = elim (Option-cases (pending_for mac m.pending)) [
    | inl e ↦ rw (e, abandon_handshake) v
    | inr (i, e) ↦
        rw (e, abandon_handshake)
          (release_session-IsValid _ mac (session_for mac m.devices) (wipe-IsValid m i v))
  ]

  pub secure_session-IsValid :
      (m : DeviceManager) (mac lmk : Bytes) → IsValid m → IsValid (secure_session peers m mac lmk).0
  unfolding secure_session
  secure_session-IsValid m mac lmk v =
      let called = call_secure peers m mac lmk in
      let ok = call_secure-IsValid m mac lmk v in
      elim (Bool-cases called.1) [
        | inl y ↦
            rw y (update-IsValid called.0 mac (begin_securing lmk) (begin_securing-keeps lmk) ok)
        | inr n ↦ rw n (erase_session-IsValid called.0 mac false ok)
      ]

  pub complete_handshake-IsValid :
      (m : DeviceManager) (mac : Bytes) (now : ℕ)
      → IsValid m
      → IsValid (complete_handshake peers m mac now).0
  unfolding complete_handshake
  complete_handshake-IsValid m mac now v = elim (Option-cases (pending_for mac m.pending)) [
    | inl e ↦ rw (e, complete_handshake) v
    | inr (i, e) ↦
        let consumed : DeviceManager = record m { pending = modify m.pending i (λ _. wiped) } in
        let ok : IsValid consumed = wipe-IsValid m i v in
        elim (Option-cases (session_for mac m.devices)) [
          | inr (d, f) ↦
              rw (e, f, complete_handshake)
                (add_session-IsValid (erase_session consumed mac true) mac now
                  (replaced_room consumed mac d f ok).0 (replaced_room consumed mac d f ok).1
                  (erase_session-IsValid consumed mac true ok))
          | inl f ↦ elim (Bool-cases (leb max_devices (length m.devices))) [
            | inl full ↦ rw (e, f, full, complete_handshake) (abandon_handshake-IsValid m mac v)
            | inr space ↦
                rw (e, f, space, complete_handshake)
                  (subst (λ x. IsValid (add_session x mac now).0)
                    (sym (erase_session-none consumed mac f))
                    (add_session-IsValid consumed mac now (ground arith)
                      (HasNoMac-session_for mac m.devices f) ok))
          ]
        ]
  ]
