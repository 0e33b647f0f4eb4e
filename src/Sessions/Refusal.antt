-- ===== src/Sessions/Refusal.antt =====
-- A CONNECT that cannot be served.
use night_mare_network.Base.{ℕ, ◌≡◌, refl, ◌∙◌, ap, true, false, Bytes, none, some, ◌∷◌}
use night_mare_network.Base.Slots.{modify}
use night_mare_network.Device.{Device}
use night_mare_network.Sessions.{
  DeviceManager, call_add, choose_slot, open_handshake, begin_handshake, abandon_handshake,
  pending_for,
}
use night_mare_network.Sessions.Radio.{PeerOps, added}
use night_mare_network.Sessions.Table.{session_for}
use night_mare_network.Sessions.Pending.{pending_for-modify_cleared}
use night_mare_network.Sessions.Invariant.{IsValid}

abandon_handshake-none :
    (peers : PeerOps) (n : DeviceManager) (mac : Bytes)
    → pending_for mac n.pending ≡ none
    → abandon_handshake peers n mac ≡ n
unfolding abandon_handshake
abandon_handshake-none peers n mac g = rw (g, abandon_handshake) refl

left_behind : DeviceManager → Bytes → ℕ → DeviceManager
left_behind m mac i = record m {
  calls = added mac ∷ m.calls;
  pending = modify m.pending i (λ p. record p { active = false });
}

choose_slot_own :
    (peers : PeerOps) (m : DeviceManager) (mac : Bytes) (i now : ℕ)
    → pending_for mac m.pending ≡ some i
    → choose_slot peers m mac now ≡ (m, some i)
unfolding choose_slot
choose_slot_own peers m mac i now e = rw (e, choose_slot) refl

open_handshake_refused :
    (peers : PeerOps) (m : DeviceManager) (mac : Bytes) (i a b c now : ℕ)
    → peers.add_answer m.calls mac ≡ false
    → open_handshake peers m i mac a b c now ≡ (left_behind m mac i, none)
unfolding open_handshake call_add left_behind
open_handshake_refused peers m mac i a b c now refused = rw refused refl

begin_handshake_refused :
    (peers : PeerOps) (m : DeviceManager) (mac : Bytes) (i a b c now : ℕ)
    → pending_for mac m.pending ≡ some i
    → peers.add_answer m.calls mac ≡ false
    → begin_handshake peers m mac a b c now ≡ (left_behind m mac i, none)
unfolding begin_handshake
begin_handshake_refused peers m mac i a b c now e refused =
    let chosen = choose_slot_own peers m mac i now e in
    rw (ap (λ r. r.1) chosen, begin_handshake)
      (ap (λ r. open_handshake peers r.0 i mac a b c now) chosen
        ∙ open_handshake_refused peers m mac i a b c now refused)

-- A CONNECT from a MAC whose handshake runs already and has suspended its session, where the radio
-- does not make the peer plaintext: the call fails, the handshake is gone, and the session stays
-- suspended. To abandon the handshake afterwards changes nothing, so it does not resume the session.
pub abandon_handshake-begin_handshake :
    (peers : PeerOps) (m : DeviceManager) (mac : Bytes) (i a b c now : ℕ) (d : Device)
    → IsValid m
    → pending_for mac m.pending ≡ some i
    → session_for mac m.devices ≡ some d
    → d.suspended ≡ true
    → peers.add_answer m.calls mac ≡ false
    → let r = begin_handshake peers m mac a b c now in
      (r.1 ≡ none)
      × (pending_for mac r.0.pending ≡ none)
      × (session_for mac r.0.devices ≡ some d)
      × (abandon_handshake peers r.0 mac ≡ r.0)
unfolding left_behind
abandon_handshake-begin_handshake peers m mac i a b c now d v e s paused refused =
    let gone =
      pending_for-modify_cleared mac (λ p. record p { active = false }) m.pending i v.apart e
        refl in
    rw (begin_handshake_refused peers m mac i a b c now e refused)
      (refl, gone, s, abandon_handshake-none peers (left_behind m mac i) mac gone)
