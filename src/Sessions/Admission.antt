-- ===== src/Sessions/Admission.antt =====
-- Which frames `admit` takes for a session's.
use night_mare_network.Base.{
  ◌≡◌, refl, ◌⊎◌, inl, inr, true, false, Bytes, Option, none, some, ◌==◌, ==_iff, Bool-cases,
  Option-cases, ap, subst,
}
use night_mare_network.Frame.{FrameHeader, FrameType, ping, disconnect, frame_type_of}
use night_mare_network.Device.{
  Device, ConnectionState, handshake, authenticated, securing, connected,
}
use night_mare_network.Sessions.{
  DeviceManager, session, Route, decided, needs_session, route, may_secure, state_verdict,
  session_verdict, pending_for, is_some, admit,
}
use night_mare_network.Sessions.Table.{session_for}

-- What a session in a state may send.
abbrev pub MaySend : ConnectionState → Option FrameType → Type 0
MaySend connected t = Unit
MaySend securing t = (t ≡ some ping) ⊎ (t ≡ some disconnect)
MaySend _ t = ⊥

may_secure_sound :
    (t : Option FrameType) → may_secure t ≡ true → (t ≡ some ping) ⊎ (t ≡ some disconnect)
unfolding may_secure
may_secure_sound (some ping) e = inl refl
may_secure_sound (some disconnect) e = inr refl
may_secure_sound none e = cc
may_secure_sound (some FrameType.beacon) e = cc
may_secure_sound (some FrameType.connect) e = cc
may_secure_sound (some FrameType.challenge) e = cc
may_secure_sound (some FrameType.auth) e = cc
may_secure_sound (some FrameType.connack) e = cc
may_secure_sound (some FrameType.pong) e = cc
may_secure_sound (some FrameType.subscribe) e = cc
may_secure_sound (some FrameType.unsubscribe) e = cc
may_secure_sound (some FrameType.message) e = cc
may_secure_sound (some FrameType.last_will) e = cc
may_secure_sound (some FrameType.ack) e = cc
may_secure_sound (some FrameType.error) e = cc

state_verdict-MaySend :
    (s : ConnectionState) (t : Option FrameType) → state_verdict s t ≡ session → MaySend s t
unfolding state_verdict
state_verdict-MaySend connected t e = tt
state_verdict-MaySend securing t e = elim (Bool-cases (may_secure t)) [
  | inl y ↦ may_secure_sound t y
  | inr n ↦ let e' = rw n at e in cc
]
state_verdict-MaySend handshake t e = cc
state_verdict-MaySend authenticated t e = cc

-- What `admit` found where it answers SESSION with the session `d`.
pub record IsAdmitted (m : DeviceManager) (mac : Bytes) (h : FrameHeader) (d : Device)
    : Type 0 where
  pub found : session_for mac m.devices ≡ some d
  pub awake : d.suspended ≡ false
  pub same_cid : h.cid ≡ d.cid
  pub may_send : MaySend d.state (frame_type_of h.frame_type)

session_verdict-IsAdmitted :
    (m : DeviceManager) (mac : Bytes) (h : FrameHeader) (d : Device)
    → session_verdict (session_for mac m.devices) h ≡ (session, some d)
    → IsAdmitted m mac h d
unfolding session_verdict
session_verdict-IsAdmitted m mac h d e = elim (Option-cases (session_for mac m.devices)) [
  | inl n ↦ let e' = rw n at e in cc
  | inr (c, s) ↦
      let e' = rw s at e in
      elim (Bool-cases c.suspended) [
        | inl y ↦ let e'' = rw y at e' in cc
        | inr awake ↦ elim (Bool-cases (h.cid == c.cid)) [
          | inr n ↦ let e'' = rw (awake, n) at e' in cc
          | inl y ↦
              let e'' = rw (awake, y) at e' in
              let same : c ≡ d = cc (e'') in
              subst (IsAdmitted m mac h) same (record {
                found = s;
                awake = awake;
                same_cid = (==_iff h.cid c.cid).0 y;
                may_send =
                    state_verdict-MaySend c.state (frame_type_of h.frame_type) (ap (λ r. r.0) e'');
              })
        ]
      ]
]

-- A frame is taken for the frame of a session only if its sender has that session, no handshake has
-- suspended it, the frame carries its cid, and either the session is CONNECTED, or it is SECURING and
-- the frame is a PING or a DISCONNECT.
pub admit-IsAdmitted :
    (m : DeviceManager) (mac : Bytes) (h : FrameHeader) (d : Device)
    → admit m mac h ≡ (session, some d)
    → IsAdmitted m mac h d
unfolding admit
admit-IsAdmitted m mac h d e =
    at (route (frame_type_of h.frame_type) (is_some (pending_for mac m.pending))) refl
  where
    at :
        (r : Route)
        → route (frame_type_of h.frame_type) (is_some (pending_for mac m.pending)) ≡ r
        → IsAdmitted m mac h d
    at (decided v) q = let e' = rw (q, admit) at e in cc
    at needs_session q = session_verdict-IsAdmitted m mac h d (rw (q, admit) at e)
