-- ===== src/Broker/Sending.antt =====
-- The sending functions of espBroker.cpp. Every frame goes through `sendRawFrame`; the round trip
-- that it measures is left out.
use night_mare_network.Base.{
  ℕ, zero, suc, ◌+◌, ◌-◌, ◌*◌, ◌/◌, ◌%◌, min, Bool, true, false, not, ◌&&◌, ◌||◌, ◌==◌, ltb,
  if◌then◌else◌, Bytes, bytes_eq, is_empty, Option, none, some, List, [], ◌∷◌, length, drop,
}
use night_mare_network.Frame.{
  Frame, FrameType, message, error, empty_frame, make_frame, max_frame_data_size,
}
use night_mare_network.Message.{Message, to_raw_data}
use night_mare_network.Device.{Device, is_connected, is_subscribed_to}
use night_mare_network.Broker.{Broker, Radio, ErrorCode, error_code, new_message_id}

-- The number of frames for a payload.
unfoldable pub frame_count : ℕ → ℕ
frame_count size = (size + max_frame_data_size - 1) / max_frame_data_size

abbrev pub is_excepted : Option Bytes → Bytes → Bool
is_excepted none mac = false
is_excepted (some other) mac = bytes_eq mac other

module _ (radio : Radio) where
  unfoldable pub send_raw_frame : Broker → Bytes → Frame → Broker × Bool
  send_raw_frame b mac f =
      if ltb max_frame_data_size f.header.size
      then (b, false)
      else (record b { sent = (mac, f) ∷ b.sent }, radio.send_answer b.sent mac f)

  unfoldable pub send_to : Broker → Bytes → FrameType → ℕ → ℕ → Option Bytes → ℕ → Broker × Bool
  unfolding send_raw_frame
  send_to b mac t message_id cid payload size =
      let (f, made) = make_frame empty_frame t message_id cid payload size 0 1 in
      if made then send_raw_frame b mac f else (b, false)

  unfoldable pub send_error : Broker → Bytes → ℕ → ℕ → ErrorCode → Broker × Bool
  unfolding send_to error_code
  send_error b mac cid message_id code =
      send_to b mac error message_id cid (some (error_code code ∷ [])) 1

  unfoldable pub reply : Broker → Device → FrameType → ℕ → Broker × Bool
  unfolding send_to
  reply b d t message_id = send_to b d.mac t message_id d.cid none 0

  -- `espBroker_sendFrame`
  unfoldable pub send_frame : Broker → Option Device → Frame → Broker × Bool
  unfolding send_raw_frame
  send_frame b none f = (b, false)
  send_frame b (some d) f = if is_connected d then send_raw_frame b d.mac f else (b, false)

  -- The loop of `espBroker_sendMessage` from frame `i`, with `left` frames to go.
  unfoldable pub send_fragments : Broker → Device → ℕ → Bytes → ℕ → ℕ → ℕ → Broker × Bool
  unfolding send_frame
  send_fragments b d message_id raw total zero i = (b, true)
  send_fragments b d message_id raw total (suc left) i =
      let offset = i * max_frame_data_size in
      let chunk = min max_frame_data_size (length raw - offset) in
      let (f, made) =
        make_frame empty_frame message message_id d.cid (some (drop offset raw)) chunk (i % 256)
          (total % 256) in
      let (b', done) = send_frame b (some d) f in
      let rest = send_fragments b' d message_id raw total left (suc i) in
      if not made then (b, false) else if not done then (b', false) else rest

  -- `espBroker_sendMessage` to a device that is connected.
  unfoldable pub send_raw_message : Broker → Device → Bytes → Broker × Bool
  unfolding frame_count send_fragments new_message_id
  send_raw_message b d raw =
      let total = frame_count (length raw) in
      let (b', message_id) = new_message_id b in
      if is_empty raw
      then (b, false)
      else if total == 0 || ltb 255 total
      then (b, false)
      else send_fragments b' d message_id raw total total 0

  unfoldable pub send_message : Broker → Option Device → Message → Broker × Bool
  unfolding send_raw_message
  send_message b none m = (b, false)
  send_message b (some d) m =
      if is_connected d then send_raw_message b d (to_raw_data m) else (b, false)

  -- The loop of `espBroker_broadcastMessage`: sending changes no session, so it is over the sessions
  -- that there were.
  unfoldable pub broadcast_to : List Device → Broker → Message → Option Bytes → Bool → Broker × Bool
  unfolding send_message
  broadcast_to [] b m except sent_any = (b, sent_any)
  broadcast_to (d ∷ ds) b m except sent_any =
      let wanted = not (is_excepted except d.mac) && is_connected d && is_subscribed_to d m.topic in
      let (b', done) = send_message b (some d) m in
      let skipped = broadcast_to ds b m except sent_any in
      let served = broadcast_to ds b' m except (sent_any || done) in
      if wanted then served else skipped

  unfoldable pub broadcast_message : Broker → Message → Option Bytes → Broker × Bool
  unfolding broadcast_to
  broadcast_message b m except = broadcast_to b.manager.devices b m except false
