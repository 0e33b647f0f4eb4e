-- ===== src/Examples/Wire.antt =====
-- Frames and beacons on concrete values.
use night_mare_network.Base.{ℕ, ◌≡◌, refl, ◌↔◌, ◌≢◌, true, Bytes, some, [], ◌∷◌, length, arith}
use night_mare_network.Frame.{
  ok, message, validate_frame, decode_frame, make_frame, frame_bytes, empty_frame, type_code,
  overwrite, framing_v1, beacon_gateway_id, beacon_generation, beacon_supports,
}
use night_mare_network.Frame.Accept.{IsWellFormed, validate_frame-IsWellFormed}
use night_mare_network.Frame.RoundTrip.{decode_frame-make_frame}
use night_mare_network.Frame.Beacon.{received, beacon-read_back}
use night_mare_network.Auth.{
  HandshakeContext, auth_label, auth_proof, session_lmk, network_pmk, constant_time_equal,
}
use night_mare_network.Auth.Layout.{IsContext, IsTakenOver, derive_message-injective, labels-apart}
use night_mare_network.Auth.Compare.{constant_time_equal-bytes_eq}
use night_mare_network.Base.{bytes_eq}

-- A PING of session 7.
abbrev ping_packet : Bytes
ping_packet = 5 ∷ 0 ∷ 0 ∷ 6 ∷ 7 ∷ 0 ∷ 0 ∷ 1 ∷ 0 ∷ 0 ∷ []

validate_frame-IsWellFormed_example : (validate_frame ping_packet ≡ ok) ↔ IsWellFormed ping_packet
validate_frame-IsWellFormed_example = validate_frame-IsWellFormed ping_packet (omega arith)

-- The second of three fragments.
abbrev chunk : Bytes
chunk = 1 ∷ 2 ∷ 3 ∷ []

decode_frame-make_frame_example :
    ((make_frame empty_frame message 300 9 (some chunk) (length chunk) 1 3).1 ≡ true)
    × (decode_frame empty_frame
          (frame_bytes (make_frame empty_frame message 300 9 (some chunk) (length chunk) 1 3).0)
        ≡ (
          record {
            header = record {
              message_id = 300;
              version = 0;
              frame_type = type_code message;
              cid = 9;
              frame_index = 1;
              total_frames = 3;
              size = length chunk;
            };
            area = overwrite empty_frame.area chunk;
          },
          ok,
        ))
decode_frame-make_frame_example =
    decode_frame-make_frame empty_frame empty_frame message 300 9 chunk 1 3 (omega arith)
      (omega arith) (omega arith) (omega arith) (omega arith) tt (omega arith)

abbrev gateway_id : Bytes
gateway_id = b'g' ∷ b'w' ∷ []

beacon-read_back_example :
    let f = (received empty_frame (some gateway_id) 77).0 in
    ((received empty_frame (some gateway_id) 77).1 ≡ ok)
    × (beacon_gateway_id f 33 ≡ some gateway_id)
    × (beacon_generation f ≡ some 77)
    × (beacon_supports f framing_v1 ≡ true)
beacon-read_back_example =
    beacon-read_back empty_frame gateway_id 77 (omega arith) 33 (omega arith) (omega arith)
      (omega arith)

abbrev sample_context : HandshakeContext
sample_context = record {
  client_mac = 1 ∷ 2 ∷ 3 ∷ 4 ∷ 5 ∷ 6 ∷ [];
  gateway_mac = 9 ∷ 9 ∷ 9 ∷ 9 ∷ 9 ∷ 9 ∷ [];
  client_nonce = 1000;
  gateway_nonce = 2000;
}

sample_context-IsContext : IsContext sample_context
sample_context-IsContext = record {
  client = refl;
  gateway = refl;
  client_fits = omega arith;
  gateway_fits = omega arith;
}

derive_message-injective_example : sample_context ≡ sample_context
derive_message-injective_example =
    derive_message-injective auth_label sample_context sample_context sample_context-IsContext
      sample_context-IsContext refl

labels-apart_example :
    (proof : Bytes) × (lmk : Bytes) × (pmk : Bytes) × (IsTakenOver
        (λ hmac psk. auth_proof hmac psk sample_context)
        proof
      × IsTakenOver (λ hmac psk. session_lmk hmac psk sample_context) lmk
      × IsTakenOver network_pmk pmk
      × (proof ≢ lmk)
      × (proof ≢ pmk)
      × (lmk ≢ pmk))
labels-apart_example =
    labels-apart sample_context sample_context sample_context-IsContext sample_context-IsContext

constant_time_equal-bytes_eq_example :
    constant_time_equal (1 ∷ 2 ∷ []) (1 ∷ 3 ∷ []) (length {A = ℕ} (1 ∷ 2 ∷ []))
    ≡ bytes_eq (1 ∷ 2 ∷ []) (1 ∷ 3 ∷ [])
constant_time_equal-bytes_eq_example = constant_time_equal-bytes_eq (1 ∷ 2 ∷ []) (1 ∷ 3 ∷ []) refl
