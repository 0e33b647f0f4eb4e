-- ===== src/Frame/Accept.antt =====
-- Which packets `validateFrame` accepts, stated without the order of its checks.
use night_mare_network.Base.{
  ℕ, ◌+◌, ◌≤◌, ◌<◌, ◌≡◌, refl, ◌↔◌, true, Bytes, Option, none, some, length, arith, AreBytes,
  AreBytes-get_or,
}
use night_mare_network.Frame.{
  FrameType, beacon, connect, challenge, auth, connack, disconnect, ping, pong, subscribe,
  unsubscribe, message, last_will, ack, error, type_code, frame_type_of, known_type, FrameHeader,
  ok, check_typed, check_type, check_header, validate_frame, parse_header,
}

-- The rules of the protocol for one frame type: its `cid` and its payload's size.
abbrev pub Allowed : FrameType → ℕ → ℕ → Type 0
Allowed beacon cid size = cid ≡ 0
Allowed connect cid size = (cid ≡ 0) × (size ≡ 10)
Allowed challenge cid size = (cid ≡ 0) × (size ≡ 8)
Allowed auth cid size = (cid ≡ 0) × (size ≡ 16)
Allowed connack cid size = (0 < cid) × (size ≡ 6)
Allowed disconnect cid size = (0 < cid) × (size ≡ 0)
Allowed ping cid size = (0 < cid) × (size ≡ 0)
Allowed pong cid size = (0 < cid) × (size ≡ 0)
Allowed subscribe cid size = 0 < cid
Allowed unsubscribe cid size = 0 < cid
Allowed message cid size = 0 < cid
Allowed last_will cid size = 0 < cid
Allowed ack cid size = (0 < cid) × (size ≡ 0)
Allowed error cid size = size ≡ 1

-- Only a MESSAGE may have fragments.
abbrev pub Fragments : FrameType → ℕ → Type 0
Fragments message total = Unit
Fragments _ total = total ≡ 1

pub record IsSound (t : FrameType) (h : FrameHeader) : Type 0 where
  pub typed : h.frame_type ≡ type_code t
  pub in_range : h.frame_index < h.total_frames
  pub fragments : Fragments t h.total_frames
  pub allowed : Allowed t h.cid h.size

pub record IsWellFormed (d : Bytes) : Type 0 where
  pub long_enough : 10 ≤ length d
  pub short_enough : length d ≤ 250
  pub version_zero : (parse_header d).version ≡ 0
  pub whole : (parse_header d).size + 10 ≡ length d
  pub kind : FrameType
  pub sound : IsSound kind (parse_header d)

pub frame_type_of-type_code : (t : FrameType) → frame_type_of (type_code t) ≡ some t
unfolding frame_type_of type_code
frame_type_of-type_code beacon = refl
frame_type_of-type_code _ = refl

known_type-type_code : (t : FrameType) → known_type (type_code t) ≡ true
unfolding known_type type_code
known_type-type_code beacon = refl
known_type-type_code _ = refl

pub type_code_lt : (t : FrameType) → type_code t < 256
unfolding type_code
type_code_lt beacon = omega arith
type_code_lt _ = omega arith

check_typed-IsSound :
    (t : FrameType) (h : FrameHeader)
    → h.frame_type ≡ type_code t
    → check_typed t h ≡ ok
    → IsSound t h
unfolding check_typed
check_typed-IsSound beacon h k e = ground arith
check_typed-IsSound _ h k e = ground arith

IsSound-check_typed : (t : FrameType) (h : FrameHeader) → IsSound t h → check_typed t h ≡ ok
unfolding check_typed
IsSound-check_typed beacon h s = ground arith
IsSound-check_typed _ h s = ground arith

-- The code that a known enumerator came from.
frame_type_of-some : (c : ℕ) {t : FrameType} → c ≤ 13 → frame_type_of c ≡ some t → c ≡ type_code t
unfolding frame_type_of type_code
frame_type_of-some c h e = ground arith

check_type-ok :
    (o : Option FrameType) (h : FrameHeader)
    → check_type o h ≡ ok
    → (t : FrameType) × (o ≡ some t) × (check_typed t h ≡ ok)
unfolding check_type
check_type-ok none h e = cc
check_type-ok (some t) h e = (t, refl, e)

check_header-ok :
    (h : FrameHeader)
    → check_header h ≡ ok
    → (h.frame_type ≤ 13) × (check_type (frame_type_of h.frame_type) h ≡ ok)
unfolding check_header
check_header-ok h e = ground arith

check_header-IsSound : (h : FrameHeader) → check_header h ≡ ok → (t : FrameType) × IsSound t h
check_header-IsSound h e =
    let (small, checked) = check_header-ok h e in
    let (t, known, passed) = check_type-ok (frame_type_of h.frame_type) h checked in
    (t, check_typed-IsSound t h (frame_type_of-some h.frame_type small known) passed)

IsSound-check_header : (t : FrameType) (h : FrameHeader) → IsSound t h → check_header h ≡ ok
unfolding check_header check_type
IsSound-check_header t h s =
    simp (s.typed, known_type-type_code t, frame_type_of-type_code t) (IsSound-check_typed t h s)

accepted-fields :
    (d : Bytes)
    → validate_frame d ≡ ok
    → (parse_header d).version < 256
    → (10 ≤ length d)
      × (length d ≤ 250)
      × ((parse_header d).version ≡ 0)
      × ((parse_header d).size + 10 ≡ length d)
      × (check_header (parse_header d) ≡ ok)
unfolding validate_frame
accepted-fields d e b = ground arith

pub IsWellFormed-validate_frame : (d : Bytes) → IsWellFormed d → validate_frame d ≡ ok
unfolding validate_frame
IsWellFormed-validate_frame d w =
    ground (arith, IsSound-check_header w.kind (parse_header d) w.sound)

-- A packet is accepted exactly when it is well formed: 10 to 250 bytes, version 0, a length field
-- that agrees with the packet, a known type, and the fragment, `cid` and payload rules of the type.
pub validate_frame-IsWellFormed :
    (d : Bytes) → AreBytes d → (validate_frame d ≡ ok) ↔ IsWellFormed d
unfolding parse_header
validate_frame-IsWellFormed d b = (accepted, IsWellFormed-validate_frame d)
  where
    accepted : validate_frame d ≡ ok → IsWellFormed d
    accepted e =
        let fields = accepted-fields d e (AreBytes-get_or d 2 b) in
        let known = check_header-IsSound (parse_header d) fields.4 in
        record {
          long_enough = fields.0;
          short_enough = fields.1;
          version_zero = fields.2;
          whole = fields.3;
          kind = known.0;
          sound = known.1;
        }
