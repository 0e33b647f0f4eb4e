-- ===== src/Sessions/Restoring.antt =====
-- An unproven handshake leaves a session as it was.
use night_mare_network.Base.{
  ℕ, ◌<◌, ◌≡◌, refl, sym, ◌∙◌, ap, true, false, Bytes, bytes_eq, bytes_eq_refl, none, some, List,
  [], ◌∷◌, length, Bool-cases, inl, inr,
}
use night_mare_network.Base.Slots.{modify}
use night_mare_network.Device.{Device}
use night_mare_network.Sessions.{
  DeviceManager, PendingHandshake, suspend, resume, is_pending_for, choose_slot, open_handshake,
  begin_handshake, call_add, call_secure, restore_session, release_session, abandon_handshake,
  pending_for,
}
use night_mare_network.Sessions.Radio.{PeerOps, PeerCall, added}
use night_mare_network.Sessions.Pending.{pending_for-modify_new}
use night_mare_network.Sessions.Table.{session_for, update_first}

resume-suspend : (d : Device) → d.suspended ≡ false → resume (suspend d) ≡ d
unfolding resume suspend
resume-suspend d e = ap (λ s. record d { suspended = s }) (sym e)

update_first-restored :
    (mac : Bytes) (ds : List Device) (d : Device)
    → session_for mac ds ≡ some d
    → d.suspended ≡ false
    → update_first mac resume (update_first mac suspend ds) ≡ ds
unfolding update_first session_for suspend
update_first-restored mac [] d e awake = refl
update_first-restored mac (c ∷ cs) d e awake = elim (Bool-cases (bytes_eq c.mac mac)) [
  | inl y ↦
      let same : some c ≡ some d = rw y at e in
      let calm : c.suspended ≡ false = cc (same, awake) in
      rw (y, y) (ap (λ x. x ∷ cs) (resume-suspend c calm))
  | inr n ↦ rw (n, n) (ap (λ t. c ∷ t) (update_first-restored mac cs d (rw n at e) awake))
]

session_for-suspend :
    (mac : Bytes) (ds : List Device) (d : Device)
    → session_for mac ds ≡ some d
    → session_for mac (update_first mac suspend ds) ≡ some (suspend d)
unfolding update_first session_for suspend
session_for-suspend mac [] d e = cc
session_for-suspend mac (c ∷ cs) d e = elim (Bool-cases (bytes_eq c.mac mac)) [
  | inl y ↦
      let same : some c ≡ some d = rw y at e in
      rw (y, y) (ap (λ o. elim o [ none ↦ none | some x ↦ some (suspend x) ]) same)
  | inr n ↦ rw (n, n) (session_for-suspend mac cs d (rw n at e))
]

module _ (peers : PeerOps) (m : DeviceManager) (mac : Bytes) (i a b c now : ℕ) where
  abbrev entry : PendingHandshake
  entry = record {
    active = true;
    mac = mac;
    client_nonce = a;
    gateway_nonce = c;
    capabilities = b;
    started_at_ms = now;
  }

  opened : DeviceManager
  opened = record m {
    calls = added mac ∷ m.calls;
    devices = update_first mac suspend m.devices;
    pending = modify m.pending i (λ _. entry);
  }

  open_handshake_added :
      peers.add_answer m.calls mac ≡ true
      → open_handshake peers m i mac a b c now ≡ (opened, some i)
  unfolding open_handshake call_add opened
  open_handshake_added y = rw y refl

  begin_handshake-opened :
      choose_slot peers m mac now ≡ (m, some i)
      → peers.add_answer m.calls mac ≡ true
      → begin_handshake peers m mac a b c now ≡ (opened, some i)
  unfolding begin_handshake
  begin_handshake-opened chosen y =
      rw (ap (λ r. r.1) chosen, begin_handshake)
        (ap (λ r. open_handshake peers r.0 i mac a b c now) chosen ∙ open_handshake_added y)

  opened_pending :
      pending_for mac m.pending ≡ none
      → i < length m.pending
      → pending_for mac opened.pending ≡ some i
  unfolding opened is_pending_for
  opened_pending free room =
      pending_for-modify_new mac (λ _. entry) m.pending i free room (bytes_eq_refl mac)

  abandon_handshake-opened :
      (d : Device)
      → pending_for mac m.pending ≡ none
      → i < length m.pending
      → session_for mac m.devices ≡ some d
      → d.suspended ≡ false
      → d.has_session_key ≡ true
      → ((calls : List PeerCall) (key : Bytes) → peers.secure_answer calls mac key ≡ true)
      → (abandon_handshake peers opened mac).devices ≡ m.devices
  unfolding abandon_handshake opened release_session restore_session call_secure suspend
  abandon_handshake-opened d free room s awake key answers =
      rw
        (
          opened_pending free room,
          abandon_handshake,
          session_for-suspend mac m.devices d s,
          key,
          answers (added mac ∷ m.calls) d.session_key,
        )
        (update_first-restored mac m.devices d s awake)

-- A handshake that is begun for a MAC with a session and then abandoned leaves the table of sessions
-- as it was, where no handshake of the MAC ran before, a free slot was there, the session was not
-- suspended and had its key, and the radio adds the peer and takes the key back.
pub begin_handshake_undone :
    (peers : PeerOps) (m : DeviceManager) (mac : Bytes) (i a b c now : ℕ) (d : Device)
    → choose_slot peers m mac now ≡ (m, some i)
    → i < length m.pending
    → pending_for mac m.pending ≡ none
    → session_for mac m.devices ≡ some d
    → d.suspended ≡ false
    → d.has_session_key ≡ true
    → peers.add_answer m.calls mac ≡ true
    → ((calls : List PeerCall) (key : Bytes) → peers.secure_answer calls mac key ≡ true)
    → let r = begin_handshake peers m mac a b c now in
      (r.1 ≡ some i) × ((abandon_handshake peers r.0 mac).devices ≡ m.devices)
begin_handshake_undone peers m mac i a b c now d chosen room free s awake key adds answers =
    rw (begin_handshake-opened peers m mac i a b c now chosen adds)
      (refl, abandon_handshake-opened peers m mac i a b c now d free room s awake key answers)
