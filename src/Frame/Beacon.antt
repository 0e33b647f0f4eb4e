-- ===== src/Frame/Beacon.antt =====
-- What a client reads from the beacon that a gateway broadcasts (`beaconFrame`, `beaconGatewayId`,
-- `beaconGeneration`, `beaconSupports`).
use night_mare_network.Base.{
  ℕ, zero, suc, ◌+◌, ◌/◌, ◌^◌, ◌≤◌, ◌<◌, ◌≡◌, refl, ap, ◌∙◌, true, Bytes, Option, none, some, [],
  ◌∷◌, ◌++◌, append_assoc, length, length-append, drop, take-append_front, drop-append_front, arith,
}
use night_mare_network.Frame.{
  beacon, Frame, FrameCheck, ok, frame_bytes, decode_frame, overwrite, beacon_data, beacon_frame,
  beacon_supports, beacon_gateway_id, beacon_generation, beacon_variable_offsets, le_bytes,
  le_value, empty_frame, framing_v1,
}
use native.Mathlib.Nat.{pow-suc}
use night_mare_network.Frame.RoundTrip.{decode_frame-make_frame}

pub length-le_bytes : (k n : ℕ) → length (le_bytes k n) ≡ k
unfolding le_bytes
length-le_bytes zero n = refl
length-le_bytes (suc k) n = ap suc (length-le_bytes k (n / 256))

-- `k` bytes hold every value below 256 ^ k.
pub le_value-le_bytes :
    (k n : ℕ) (rest : Bytes) → n < 256 ^ k → le_value k (le_bytes k n ++ rest) ≡ n
unfolding le_value le_bytes
le_value-le_bytes zero n rest h = omega arith
le_value-le_bytes (suc k) n rest h =
    omega (arith, le_value-le_bytes k (n / 256) rest (omega (arith, pow-suc 256 k)))

beacon_data_lem :
    (id : Bytes) (generation : ℕ)
    → length id ≤ 64
    → beacon_data (some id) generation ≡ 1 ∷ 0 ∷ length id ∷ (id ++ le_bytes 8 generation)
unfolding beacon_data le_bytes
beacon_data_lem id generation h = ground (arith, length-append (1 ∷ 0 ∷ length id ∷ []) id)

-- A frame whose array holds the beacon's data, and `rest` behind it.
module _ (id : Bytes) (generation : ℕ) (rest : Bytes) (f : Frame)
    (area : f.area ≡ (1 ∷ 0 ∷ length id ∷ id) ++ (le_bytes 8 generation ++ rest))
    (size : f.header.size ≡ 11 + length id) where
  offsets : beacon_variable_offsets f ≡ some (3, length id, 3 + length id)
  unfolding beacon_variable_offsets
  offsets = rw area (ground arith)

  read_id : (n : ℕ) → 1 ≤ length id → length id < n → beacon_gateway_id f n ≡ some id
  unfolding beacon_gateway_id
  read_id n pos room =
      rw (offsets, beacon_gateway_id, area)
        (ground (arith, take-append_front id (le_bytes 8 generation ++ rest) (length id) refl))

  read_no_id : (n : ℕ) → length id ≡ 0 → beacon_gateway_id f n ≡ none
  unfolding beacon_gateway_id
  read_no_id n empty = rw (offsets, beacon_gateway_id) (ground arith)

  read_generation : generation < 2 ^ 64 → beacon_generation f ≡ some generation
  unfolding beacon_generation
  read_generation small =
      rw
        (
          offsets,
          beacon_generation,
          area,
          drop-append_front (1 ∷ 0 ∷ length id ∷ id) (le_bytes 8 generation ++ rest) (3 + length id)
              (omega arith),
        )
        (ground (arith, le_value-le_bytes 8 generation rest small))

  read_version : beacon_supports f framing_v1 ≡ true
  unfolding beacon_supports
  read_version = rw area (ground arith)

-- The frame that a client decodes from a gateway's beacon.
abbrev pub received : Frame → Option Bytes → ℕ → Frame × FrameCheck
received receiver id generation = decode_frame receiver (frame_bytes (beacon_frame id generation))

module _ (receiver : Frame) (id : Bytes) (generation : ℕ) (short : length id ≤ 64) where
  abbrev written : Bytes
  written = beacon_data (some id) generation

  length-written : length written ≡ 11 + length id
  length-written =
      rw (beacon_data_lem id generation short)
        (omega (arith, length-append id (le_bytes 8 generation), length-le_bytes 8 generation))

  received_fields :
      ((received receiver (some id) generation).1 ≡ ok)
      × ((received receiver (some id) generation).0.area ≡ overwrite receiver.area written)
      × ((received receiver (some id) generation).0.header.size ≡ length written)
  unfolding beacon_frame
  received_fields =
      let e =
        decode_frame-make_frame empty_frame receiver beacon 0 0 written 0 1
          (omega (arith, length-written)) (omega arith) (omega arith) (omega arith) (omega arith)
          refl refl in
      (ap (λ r. r.1) e.1, ap (λ r. r.0.area) e.1, ap (λ r. r.0.header.size) e.1)

  abbrev behind : Bytes
  behind = drop (length written) receiver.area

  received_area :
      (received receiver (some id) generation).0.area
      ≡ (1 ∷ 0 ∷ length id ∷ id) ++ (le_bytes 8 generation ++ behind)
  unfolding overwrite
  received_area =
      received_fields.1
      ∙ ap (λ d. d ++ behind) (beacon_data_lem id generation short)
      ∙ append_assoc (1 ∷ 0 ∷ length id ∷ id) (le_bytes 8 generation) behind

  -- A client that receives the beacon of a gateway with an id of 1 to 64 bytes, whose boot
  -- generation fits 64 bits, accepts the packet, and reads back that id into any buffer with room
  -- for it and its end, that generation, and that V1 framing is supported.
  pub beacon-read_back :
      (n : ℕ)
      → 1 ≤ length id
      → length id < n
      → generation < 2 ^ 64
      → let f = (received receiver (some id) generation).0 in
        ((received receiver (some id) generation).1 ≡ ok)
        × (beacon_gateway_id f n ≡ some id)
        × (beacon_generation f ≡ some generation)
        × (beacon_supports f framing_v1 ≡ true)
  beacon-read_back n pos room small =
      let f = (received receiver (some id) generation).0 in
      let size = received_fields.2 ∙ length-written in
      (
        received_fields.0,
        read_id id generation behind f received_area size n pos room,
        read_generation id generation behind f received_area size small,
        read_version id generation behind f received_area size,
      )
