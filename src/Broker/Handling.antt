-- ===== src/Broker/Handling.antt =====
-- The handlers of espBroker.cpp. One reading of the clock serves a whole packet, and `nonce` is what
-- the hardware's random generator gives for it.
use night_mare_network.Base.{
  ℕ, ◌+◌, ◌-◌, ◌%◌, ◌^◌, Bool, true, false, ◌&&◌, if◌then◌else◌, Bytes, is_empty, Option, none,
  some, [], ◌∷◌, ◌++◌, length, take,
}
use night_mare_network.Frame.{
  Frame, FrameType, FrameCheck, connect, challenge, connack, pong, ack, ping, disconnect, subscribe,
  unsubscribe, message, last_will, ok, unsupported_framing, unsupported_protocol, empty_frame,
  frame_type_of, decode_frame, le_bytes, le_value, le16_at,
}
use night_mare_network.Topic.{topic_matches_pattern}
use night_mare_network.Message.{from_raw_data}
use night_mare_network.Reassembly.{Result, complete, feed, drop_sender}
use night_mare_network.Device.{
  Device, ConnectionState, securing, connected, subscribe_to, unsubscribe_from, set_last_will,
  set_assumed_name, mark_seen,
}
use night_mare_network.Auth.{
  HandshakeContext, auth_proof, session_lmk, constant_time_equal, key_size,
}
use night_mare_network.Sessions.{
  PendingHandshake, Verdict, handshake, session, ignore, invalid_session, not_connected,
  pending_for, get_pending, admit, begin_handshake, abandon_handshake, complete_handshake,
  secure_session, end_session,
}
use night_mare_network.Sessions.Table.{session_for, update_first}
use night_mare_network.Broker.{
  Broker, Radio, Hooks, RxPacket, ErrorCode, auth_failed, unsupported_version, invalid_frame,
  rejected, heartbeat_ms,
}
use night_mare_network.Broker.Sending.{send_to, send_error, reply}

unfoldable pub handshake_context : Broker → PendingHandshake → HandshakeContext
handshake_context b p = record {
  client_mac = p.mac;
  gateway_mac = b.own_mac;
  client_nonce = p.client_nonce;
  gateway_nonce = p.gateway_nonce;
}

-- The fields of the packed `ConnectPayload`.
unfoldable pub connect_client_nonce : Frame → ℕ
connect_client_nonce f = le_value 8 f.area

unfoldable pub connect_capabilities : Frame → ℕ
connect_capabilities f = le16_at f.area 8

-- The packed `ConnAckPayload`: no capabilities, and the heartbeat.
unfoldable pub connack_payload : Bytes
unfolding le_bytes
connack_payload = le_bytes 2 0 ++ le_bytes 4 heartbeat_ms

-- A session as it is after a change through its pointer.
unfoldable pub put_session : Broker → Device → Broker
put_session b d = record b {
  manager = record b.manager { devices = update_first d.mac (λ _. d) b.manager.devices };
}

unfoldable pub frame_text : Frame → Bytes
frame_text f = take f.header.size f.area

unfoldable pub after_ping : ConnectionState → ConnectionState
after_ping securing = connected
after_ping s = s

-- `"+/status"`, and the topic without its last seven characters.
abbrev status_filter : Bytes
status_filter = b'+' ∷ b'/' ∷ b's' ∷ b't' ∷ b'a' ∷ b't' ∷ b'u' ∷ b's' ∷ []

unfoldable pub name_from_will : Device → Bytes → Device
name_from_will d topic =
    if is_empty d.assumed_name && topic_matches_pattern topic status_filter
    then set_assumed_name d (take (length topic - 7) topic)
    else d

unfoldable pub is_version_check : FrameCheck → Bool
is_version_check unsupported_framing = true
is_version_check unsupported_protocol = true
is_version_check _ = false

unfoldable pub count_ignored : Broker → Broker
count_ignored b = record b { ignored_frames = (b.ignored_frames + 1) % 2 ^ 32 }

unfoldable pub count_invalid : Broker → Broker
count_invalid b = record b { invalid_frames = (b.invalid_frames + 1) % 2 ^ 32 }

abbrev is_connect : Option FrameType → Bool
is_connect (some connect) = true
is_connect _ = false

module _ (radio : Radio) where
  unfoldable pub abandon : Broker → Bytes → Broker
  abandon b mac = record b { manager = abandon_handshake radio.peers b.manager mac }

  unfoldable pub handle_connect : Broker → Bytes → Frame → ℕ → ℕ → Broker
  unfolding abandon connect_client_nonce connect_capabilities
  handle_connect b mac f nonce now =
      let (m, pending) =
        begin_handshake radio.peers b.manager mac (connect_client_nonce f) (connect_capabilities f)
          nonce now in
      let b' = record b { manager = m } in
      elim pending [
        | none ↦ b'
        | some i ↦
            let (b'', done) =
              send_to radio b' mac challenge f.header.message_id 0 (some (le_bytes 8 nonce)) 8 in
            if done then b'' else abandon b'' mac
      ]

  unfoldable pub proof_ok : Broker → HandshakeContext → Bytes → Bool
  proof_ok b c proof =
      let (expected, made) = auth_proof radio.hmac b.psk c in
      made && constant_time_equal expected proof key_size

  -- Where the session exists: CONNACK, then the key.
  unfoldable pub acknowledge : Broker → Bytes → Device → ℕ → Bytes → Broker
  unfolding connack_payload
  acknowledge b mac d message_id lmk =
      let (b', done) = send_to radio b mac connack message_id d.cid (some connack_payload) 6 in
      if done
      then record b' { manager = (secure_session radio.peers b'.manager d.mac lmk).0 }
      else record b' { manager = end_session b'.manager mac }

  -- Where the proof is right.
  unfoldable pub accept_proof : Broker → Bytes → HandshakeContext → ℕ → ℕ → Broker
  unfolding abandon acknowledge
  accept_proof b mac c message_id now =
      let (lmk, made) = session_lmk radio.hmac b.psk c in
      let (m, device) = complete_handshake radio.peers b.manager mac now in
      if made
      then elim device [
        | none ↦ abandon (record b { manager = m }) mac
        | some d ↦ acknowledge (record b { manager = m }) mac d message_id lmk
      ]
      else abandon b mac

  unfoldable pub handle_auth : Broker → Bytes → Frame → ℕ → Broker
  unfolding abandon proof_ok accept_proof handshake_context
  handle_auth b mac f now = elim (pending_for mac b.manager.pending) [
    | none ↦ b
    | some i ↦
        let c = handshake_context b (get_pending b.manager.pending i) in
        if proof_ok b c (take key_size f.area)
        then accept_proof b mac c f.header.message_id now
        else abandon (send_error radio b mac 0 f.header.message_id auth_failed).0 mac
  ]

  -- `if (ok) reply(ACK) else sendError(REJECTED)`
  unfoldable pub answer : Broker → Device → ℕ → Bool → Broker
  answer b d message_id done =
      if done
      then (reply radio b d ack message_id).0
      else (send_error radio b d.mac d.cid message_id rejected).0

  unfoldable pub refuse_frame : Broker → Bytes → FrameCheck → Broker
  unfolding count_invalid is_version_check
  refuse_frame b mac check = elim (session_for mac b.manager.devices) [
    | none ↦ count_invalid b
    | some d ↦
        if d.suspended
        then count_invalid b
        else (send_error radio (count_invalid b) mac d.cid 0
            (if is_version_check check then unsupported_version else invalid_frame)).0
  ]

module _ (radio : Radio) (hooks : Hooks) where
  unfoldable pub deliver : Broker → Device → Result → Broker
  deliver b d (complete whole) =
      let m = from_raw_data whole in if is_empty m.topic then b else hooks.on_message b d.mac m
  deliver b d _ = b

  unfoldable pub handle_message_frame : Broker → Device → Frame → ℕ → Broker
  unfolding deliver
  handle_message_frame b d f now =
      let (slots, result) = feed b.reassembly d.mac f.header f.area now in
      deliver (record b { reassembly = slots }) d result

  unfoldable pub handle_ping : Broker → Device → ℕ → Broker
  unfolding put_session after_ping
  handle_ping b d message_id =
      (reply radio (put_session b (record d { state = after_ping d.state })) d pong message_id).0

  unfoldable pub handle_disconnect : Broker → Device → Broker
  handle_disconnect b d = record b {
    manager = end_session b.manager d.mac;
    reassembly = drop_sender d.mac b.reassembly;
  }

  unfoldable pub handle_subscribe : Broker → Device → Bytes → ℕ → Broker
  unfolding put_session answer
  handle_subscribe b d filter message_id =
      let (d', done) = subscribe_to d filter in
      let b' = answer radio (put_session b d') d' message_id done in
      if done then hooks.on_subscribe b' d'.mac filter else b'

  unfoldable pub handle_unsubscribe : Broker → Device → Bytes → ℕ → Broker
  unfolding put_session answer
  handle_unsubscribe b d filter message_id =
      let (d', done) = unsubscribe_from d filter in
      answer radio (put_session b d') d' message_id done

  unfoldable pub handle_last_will : Broker → Device → Bytes → ℕ → Broker
  unfolding put_session answer name_from_will
  handle_last_will b d raw message_id =
      let will = from_raw_data raw in
      let (d', done) = set_last_will d will in
      let d'' = if done then name_from_will d' will.topic else d' in
      answer radio (put_session b d'') d'' message_id done

  unfoldable pub handle_session_frame : Broker → Device → Frame → Option FrameType → ℕ → Broker
  unfolding handle_ping handle_disconnect handle_subscribe handle_unsubscribe handle_message_frame
      handle_last_will frame_text
  handle_session_frame b d f (some ping) now = handle_ping b d f.header.message_id
  handle_session_frame b d f (some disconnect) now = handle_disconnect b d
  handle_session_frame b d f (some subscribe) now =
      handle_subscribe b d (frame_text f) f.header.message_id
  handle_session_frame b d f (some unsubscribe) now =
      handle_unsubscribe b d (frame_text f) f.header.message_id
  handle_session_frame b d f (some message) now = handle_message_frame b d f now
  handle_session_frame b d f (some last_will) now =
      handle_last_will b d (frame_text f) f.header.message_id
  handle_session_frame b d f _ now = b

  -- The `switch` on the verdict.
  unfoldable pub dispatch : Broker → Bytes → ℕ → Frame → ℕ → ℕ → Verdict → Option Device → Broker
  unfolding handle_connect handle_auth handle_session_frame count_ignored put_session
  dispatch b mac rssi f nonce now handshake device =
      if is_connect (frame_type_of f.header.frame_type)
      then handle_connect radio b mac f nonce now
      else handle_auth radio b mac f now
  dispatch b mac rssi f nonce now session none = b
  dispatch b mac rssi f nonce now session (some d) =
      let d' = mark_seen d rssi now in
      handle_session_frame (put_session b d') d' f (frame_type_of f.header.frame_type) now
  dispatch b mac rssi f nonce now invalid_session device =
      (send_error radio b mac 0 f.header.message_id ErrorCode.invalid_session).0
  dispatch b mac rssi f nonce now not_connected none = b
  dispatch b mac rssi f nonce now not_connected (some d) =
      (send_error radio b mac d.cid f.header.message_id ErrorCode.not_connected).0
  dispatch b mac rssi f nonce now ignore device = count_ignored b

  unfoldable pub handle_packet : Broker → RxPacket → ℕ → ℕ → Broker
  unfolding dispatch refuse_frame
  handle_packet b p nonce now =
      let (f, check) = decode_frame empty_frame p.content in
      elim check [
        | ok ↦
            let (verdict, device) = admit b.manager p.mac f.header in
            dispatch b p.mac p.rssi f nonce now verdict device
        | other ↦ refuse_frame radio b p.mac other
      ]
