-- ===== src/Examples/Network.antt =====
-- The broker on concrete values.
use night_mare_network.Base.{
  ◌∙◌, sym, ℕ, ◌≡◌, ◌≢◌, refl, ◌⊎◌, true, Bytes, none, some, [], ◌∷◌, length, get_or, replicate,
  take, length-replicate, arith, ap, bytes_eq,
}
use night_mare_network.Frame.{Frame, empty_frame, frame_type_of, le_bytes}
use night_mare_network.Device.{Device, connected, new_device, is_connected}
use night_mare_network.Reassembly.{new_table}
use night_mare_network.Auth.{auth_label, key_size, derive_message}
use night_mare_network.Sessions.Table.{session_for}
use night_mare_network.Sessions.{
  DeviceManager, PendingHandshake, new_manager, pending_for, get_pending, is_pending_for,
}
use night_mare_network.Broker.{Broker, Radio, Hooks, RxPacket}
use night_mare_network.Broker.Sending.{send_raw_message}
use night_mare_network.Broker.Handling.{
  handle_packet, handle_auth, count_invalid, count_ignored, handshake_context,
}
use night_mare_network.Broker.Delivery.{Sends, send_raw_message-Sends}
use night_mare_network.Broker.Guards.{handle_packet-stranger, handle_auth-wrong_proof}

-- Hardware that does what it is asked, with a HMAC of 32 equal bytes.
abbrev hardware : Radio
hardware = record {
  peers = record { add_answer = λ calls mac. true; secure_answer = λ calls mac key. true };
  send_answer = λ sent mac f. true;
  hmac = λ key message. some (replicate 32 (length message));
}

abbrev no_hooks : Hooks
no_hooks = record { on_message = λ b mac m. b; on_subscribe = λ b mac filter. b }

abbrev client_mac : Bytes
client_mac = 1 ∷ 2 ∷ 3 ∷ 4 ∷ 5 ∷ 6 ∷ []

abbrev waiting : PendingHandshake
waiting = record {
  active = true;
  mac = client_mac;
  client_nonce = 7;
  gateway_nonce = 8;
  capabilities = 0;
  started_at_ms = 100;
}

abbrev manager : DeviceManager
manager = record (new_manager 60000 1) { pending = waiting ∷ [] }

abbrev broker : Broker
broker = record {
  psk = 1 ∷ [];
  own_mac = 9 ∷ 9 ∷ 9 ∷ 9 ∷ 9 ∷ 9 ∷ [];
  manager = manager;
  reassembly = new_table;
  next_message_id = 1;
  invalid_frames = 0;
  ignored_frames = 0;
  sent = [];
}

-- A PING from a MAC without a session.
abbrev ping_packet : RxPacket
ping_packet = record {
  mac = client_mac;
  rssi = 200;
  content = 5 ∷ 0 ∷ 0 ∷ 6 ∷ 7 ∷ 0 ∷ 0 ∷ 1 ∷ 0 ∷ 0 ∷ [];
}

handle_packet-stranger_example :
    (handle_packet hardware no_hooks broker ping_packet 5 200 ≡ count_invalid broker)
    ⊎ (handle_packet hardware no_hooks broker ping_packet 5 200 ≡ count_ignored broker)
unfolding frame_type_of new_manager session_for
handle_packet-stranger_example =
    handle_packet-stranger hardware no_hooks broker ping_packet 5 200 refl (λ e. cc) (λ e. cc)

hmac-sized : (k m d : Bytes) → hardware.hmac k m ≡ some d → length d ≡ 32
hmac-sized k m d e = ground (arith, length-replicate {A = ℕ} 32 (length m))

waiting-found : pending_for client_mac broker.manager.pending ≡ some 0
unfolding pending_for is_pending_for bytes_eq
waiting-found = refl

abbrev zero_proof : Frame
zero_proof = record empty_frame { area = replicate 240 0 }

zero_proof-wrong :
    (d : Bytes)
    → hardware.hmac broker.psk (
        derive_message auth_label (handshake_context broker (get_pending broker.manager.pending 0)))
      ≡ some d
    → take key_size zero_proof.area ≢ take key_size d
unfolding derive_message le_bytes handshake_context get_pending
zero_proof-wrong d made e =
    omega
      (arith, ap (λ (x : Bytes). get_or x 0 0) (e ∙ ap (take key_size) (sym (some-injective made))))
  where
    some-injective : {x y : Bytes} → some x ≡ some y → x ≡ y
    some-injective h = cc (h)

no_session : session_for client_mac broker.manager.devices ≡ none
unfolding session_for new_manager
no_session = refl

handle_auth-wrong_proof_example :
    (handle_auth hardware broker client_mac zero_proof 200).manager.devices ≡ broker.manager.devices
handle_auth-wrong_proof_example =
    handle_auth-wrong_proof hardware broker client_mac zero_proof 0 200 hmac-sized
      (length-replicate {A = ℕ} 240 0) waiting-found zero_proof-wrong no_session

abbrev client : Device
client = record (new_device client_mac 1 100) { state = connected }

send_raw_message-Sends_example :
    ((send_raw_message hardware broker client (replicate 500 65)).1 ≡ true)
    × Sends broker
        (send_raw_message hardware broker client (replicate 500 65)).0
        client
        (replicate 500 65)
unfolding is_connected new_device
send_raw_message-Sends_example =
    send_raw_message-Sends hardware broker client (replicate 500 65) (λ sent mac f. refl) refl
      (omega arith) (omega arith) (omega arith)
