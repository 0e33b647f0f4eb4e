-- ===== src/Broker/Guards.antt =====
-- What a sender without a session or without the network's key can bring about.
use night_mare_network.Base.{
  ℕ, ◌≡◌, ◌≢◌, refl, sym, ap, ◌∙◌, ◌⊎◌, inl, inr, Bool, false, is_empty, Bytes, bytes_eq,
  bytes_eq_iff, Option, none, some, length, get_or, take, arith, Bool-cases, Option-cases,
  length-take,
}
use night_mare_network.Frame.{
  Frame, FrameType, FrameCheck, connect, auth, ok, decode_frame, validate_frame, parse_header,
  empty_frame, frame_type_of,
}
use night_mare_network.Auth.{
  HandshakeContext, auth_proof, derive, hmac_truncated, derive_message, auth_label,
  constant_time_equal, key_size,
}
use night_mare_network.Auth.Compare.{constant_time_equal-bytes_eq}
use night_mare_network.Sessions.{
  DeviceManager, ignore, decided, needs_session, route, session_verdict, admit, pending_for,
  get_pending, is_some, abandon_handshake, release_session, call_removed,
}
use night_mare_network.Sessions.Table.{session_for}
use night_mare_network.Broker.{Broker, Radio, Hooks, RxPacket, auth_failed}
use night_mare_network.Broker.Sending.{send_error, send_to, send_raw_frame}
use night_mare_network.Broker.Handling.{
  handshake_context, proof_ok, handle_auth, abandon, handle_packet, refuse_frame, dispatch,
  count_ignored, count_invalid,
}

-- A handshake frame is a CONNECT or an AUTH.
route-other :
    (t : Option FrameType) (waits : Bool)
    → t ≢ some connect
    → t ≢ some auth
    → (route t waits ≡ decided ignore) ⊎ (route t waits ≡ needs_session)
unfolding route
route-other none waits a b = inr refl
route-other (some connect) waits a b = absurd (a refl)
route-other (some auth) waits a b = absurd (b refl)
route-other (some FrameType.beacon) waits a b = inl refl
route-other (some FrameType.challenge) waits a b = inl refl
route-other (some FrameType.connack) waits a b = inl refl
route-other (some FrameType.disconnect) waits a b = inr refl
route-other (some FrameType.ping) waits a b = inr refl
route-other (some FrameType.pong) waits a b = inr refl
route-other (some FrameType.subscribe) waits a b = inr refl
route-other (some FrameType.unsubscribe) waits a b = inr refl
route-other (some FrameType.message) waits a b = inr refl
route-other (some FrameType.last_will) waits a b = inr refl
route-other (some FrameType.ack) waits a b = inr refl
route-other (some FrameType.error) waits a b = inr refl

admit-stranger :
    (m : DeviceManager) (mac : Bytes) (h : Frame)
    → session_for mac m.devices ≡ none
    → frame_type_of h.header.frame_type ≢ some connect
    → frame_type_of h.header.frame_type ≢ some auth
    → admit m mac h.header ≡ (ignore, none)
unfolding admit session_verdict
admit-stranger m mac h e a b =
    elim (route-other (frame_type_of h.header.frame_type) (is_some (pending_for mac m.pending)) a
      b) [ inl r ↦ rw (r, admit) refl | inr r ↦ rw (r, admit, e) refl ]

refuse-stranger :
    (radio : Radio) (b : Broker) (mac : Bytes) (c : FrameCheck)
    → session_for mac b.manager.devices ≡ none
    → refuse_frame radio b mac c ≡ count_invalid b
unfolding refuse_frame
refuse-stranger radio b mac c e = rw (e, refuse_frame) refl

decode_frame-cases :
    (d : Bytes)
    → ((decode_frame empty_frame d).1 ≢ ok)
      ⊎ (((decode_frame empty_frame d).1 ≡ ok)
          × ((decode_frame empty_frame d).0.header ≡ parse_header d))
unfolding decode_frame
decode_frame-cases d = at (validate_frame d) refl
  where
    at :
        (c : FrameCheck)
        → validate_frame d ≡ c
        → ((decode_frame empty_frame d).1 ≢ ok)
          ⊎ (((decode_frame empty_frame d).1 ≡ ok)
              × ((decode_frame empty_frame d).0.header ≡ parse_header d))
    at ok e = inr (rw (e, decode_frame) (refl, refl))
    at FrameCheck.too_short e = inl (rw (e, decode_frame) (λ f. cc))
    at FrameCheck.bad_length e = inl (rw (e, decode_frame) (λ f. cc))
    at FrameCheck.unsupported_framing e = inl (rw (e, decode_frame) (λ f. cc))
    at FrameCheck.unsupported_protocol e = inl (rw (e, decode_frame) (λ f. cc))
    at FrameCheck.unknown_type e = inl (rw (e, decode_frame) (λ f. cc))
    at FrameCheck.bad_fragment e = inl (rw (e, decode_frame) (λ f. cc))
    at FrameCheck.bad_cid e = inl (rw (e, decode_frame) (λ f. cc))
    at FrameCheck.bad_payload e = inl (rw (e, decode_frame) (λ f. cc))

handle_packet-refused :
    (radio : Radio) (hooks : Hooks) (b : Broker) (p : RxPacket) (nonce now : ℕ)
    → (decode_frame empty_frame p.content).1 ≢ ok
    → handle_packet radio hooks b p nonce now
      ≡ refuse_frame radio b p.mac (decode_frame empty_frame p.content).1
unfolding handle_packet
handle_packet-refused radio hooks b p nonce now n = at (decode_frame empty_frame p.content).1 refl
  where
    at :
        (c : FrameCheck)
        → (decode_frame empty_frame p.content).1 ≡ c
        → handle_packet radio hooks b p nonce now
          ≡ refuse_frame radio b p.mac (decode_frame empty_frame p.content).1
    at ok e = absurd (n e)
    at FrameCheck.too_short e = rw (e, handle_packet) refl
    at FrameCheck.bad_length e = rw (e, handle_packet) refl
    at FrameCheck.unsupported_framing e = rw (e, handle_packet) refl
    at FrameCheck.unsupported_protocol e = rw (e, handle_packet) refl
    at FrameCheck.unknown_type e = rw (e, handle_packet) refl
    at FrameCheck.bad_fragment e = rw (e, handle_packet) refl
    at FrameCheck.bad_cid e = rw (e, handle_packet) refl
    at FrameCheck.bad_payload e = rw (e, handle_packet) refl

-- A packet from a MAC that has no session, and that is not a CONNECT or an AUTH frame, changes one
-- counter and nothing else: no frame is sent, no session, handshake or peer is touched.
pub handle_packet-stranger :
    (radio : Radio) (hooks : Hooks) (b : Broker) (p : RxPacket) (nonce now : ℕ)
    → session_for p.mac b.manager.devices ≡ none
    → frame_type_of (get_or p.content 3 0) ≢ some connect
    → frame_type_of (get_or p.content 3 0) ≢ some auth
    → (handle_packet radio hooks b p nonce now ≡ count_invalid b)
      ⊎ (handle_packet radio hooks b p nonce now ≡ count_ignored b)
unfolding handle_packet dispatch parse_header
handle_packet-stranger radio hooks b p nonce now e a c = elim (decode_frame-cases p.content) [
  | inl n ↦ inl (
      handle_packet-refused radio hooks b p nonce now n
      ∙ refuse-stranger radio b p.mac (decode_frame empty_frame p.content).1 e)
  | inr (y, h) ↦
      let f = (decode_frame empty_frame p.content).0 in
      let typed : f.header.frame_type ≡ get_or p.content 3 0 = cc (h) in
      let a' : frame_type_of f.header.frame_type ≢ some connect = λ g. a (cc (typed, g)) in
      let c' : frame_type_of f.header.frame_type ≢ some auth = λ g. c (cc (typed, g)) in
      inr (rw (y, handle_packet, admit-stranger b.manager p.mac f e a' c') refl)
]

-- A proof is right only where it is the digest's first bytes.
proof_ok-wrong :
    (radio : Radio) (b : Broker) (c : HandshakeContext) (proof : Bytes)
    → ((k m d : Bytes) → radio.hmac k m ≡ some d → length d ≡ 32)
    → length proof ≡ key_size
    → ((d : Bytes)
        → radio.hmac b.psk (derive_message auth_label c) ≡ some d
        → proof ≢ take key_size d)
    → proof_ok radio b c proof ≡ false
unfolding proof_ok auth_proof derive hmac_truncated
proof_ok-wrong radio b c proof sized whole other = elim (Bool-cases (is_empty b.psk)) [
  | inl no_key ↦ rw no_key refl
  | inr key ↦ elim (Option-cases (radio.hmac b.psk (derive_message auth_label c))) [
    | inl failed ↦ rw (key, failed) refl
    | inr (d, made) ↦
        let expected = take key_size d in
        let size : length expected ≡ key_size =
          omega (arith, length-take key_size d, sized b.psk (derive_message auth_label c) d made) in
        let judged : constant_time_equal expected proof key_size ≡ bytes_eq expected proof =
          sym (ap (constant_time_equal expected proof) size)
          ∙ constant_time_equal-bytes_eq expected proof (whole ∙ sym size) in
        rw (key, made)
          (judged ∙ elim (Bool-cases (bytes_eq expected proof)) [
            | inl y ↦ absurd (other d made (sym ((bytes_eq_iff expected proof).0 y)))
            | inr n ↦ n
          ])
  ]
]

abandon_handshake-stranger :
    (radio : Radio) (m : DeviceManager) (mac : Bytes)
    → session_for mac m.devices ≡ none
    → (abandon_handshake radio.peers m mac).devices ≡ m.devices
unfolding abandon_handshake release_session call_removed
abandon_handshake-stranger radio m mac e = elim (Option-cases (pending_for mac m.pending)) [
  | inl f ↦ rw (f, abandon_handshake) refl
  | inr (i, f) ↦ rw (f, abandon_handshake, e) refl
]

send_error-manager :
    (radio : Radio) (b : Broker) (mac : Bytes) (cid id : ℕ)
    → (send_error radio b mac cid id auth_failed).0.manager ≡ b.manager
unfolding send_error send_to send_raw_frame
send_error-manager radio b mac cid id = ground arith

-- Where the proof in an AUTH frame is not the HMAC under the network's key, cut to 16 bytes, of the
-- handshake that runs for its sender, and the sender has no session, the table of sessions stays as
-- it is. Where the HMAC fails there is no such value, and no proof at all is let through. The HMAC
-- gives 32 bytes.
pub handle_auth-wrong_proof :
    (radio : Radio) (b : Broker) (mac : Bytes) (f : Frame) (i now : ℕ)
    → ((k m d : Bytes) → radio.hmac k m ≡ some d → length d ≡ 32)
    → length f.area ≡ 240
    → pending_for mac b.manager.pending ≡ some i
    → ((d : Bytes)
        → radio.hmac b.psk
            (derive_message auth_label (handshake_context b (get_pending b.manager.pending i)))
          ≡ some d
        → take key_size f.area ≢ take key_size d)
    → session_for mac b.manager.devices ≡ none
    → (handle_auth radio b mac f now).manager.devices ≡ b.manager.devices
unfolding handle_auth abandon
handle_auth-wrong_proof radio b mac f i now sized whole waits other e =
    let c = handshake_context b (get_pending b.manager.pending i) in
    let refused =
      proof_ok-wrong radio b c (take key_size f.area) sized
        (omega (arith, length-take key_size f.area, whole)) other in
    let sent = (send_error radio b mac 0 f.header.message_id auth_failed).0 in
    let same : sent.manager ≡ b.manager = send_error-manager radio b mac 0 f.header.message_id in
    let kept =
      abandon_handshake-stranger radio sent.manager mac
        (ap (λ m. session_for mac m.devices) same ∙ e) in
    rw (waits, handle_auth, refused) (kept ∙ ap (λ m. m.devices) same)
