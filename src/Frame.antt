-- ===== src/Frame.antt =====
-- The ESP-NOW wire contract: src/Network/EspNow/NightMareEspNow/Frame.h and Frame.cpp. A received
-- packet is the list of its bytes, so `data == nullptr` is the empty list. `Frame::data` is the
-- whole 240-byte array (`area`), of which `header.length` bytes are meaningful.
pub mod Accept
pub mod Reading
pub mod RoundTrip
pub mod Beacon
use night_mare_network.Base.{
  ℕ, zero, suc, ◌+◌, ◌-◌, ◌*◌, ◌/◌, ◌%◌, Bool, true, false, not, ◌&&◌, ◌||◌, ◌==◌, leb, ltb,
  if◌then◌else◌, Bytes, Option, none, some, [], ◌∷◌, ◌++◌, length, get_or, take, drop, replicate,
}

pub data FrameType : Type 0 where
  beacon connect challenge auth connack disconnect ping pong : FrameType
  subscribe unsubscribe message last_will ack error : FrameType

-- The enumerator's value on the wire.
unfoldable pub type_code : FrameType → ℕ
type_code beacon = 0
type_code connect = 1
type_code challenge = 2
type_code auth = 3
type_code connack = 4
type_code disconnect = 5
type_code ping = 6
type_code pong = 7
type_code subscribe = 8
type_code unsubscribe = 9
type_code message = 10
type_code last_will = 11
type_code ack = 12
type_code error = 13

-- `static_cast<FrameType>`: no enumerator for an unknown code.
unfoldable pub frame_type_of : ℕ → Option FrameType
frame_type_of zero = some beacon
frame_type_of (suc zero) = some connect
frame_type_of (suc (suc zero)) = some challenge
frame_type_of (suc (suc (suc zero))) = some auth
frame_type_of (suc (suc (suc (suc n)))) = from_four n
  where
    from_eight : ℕ → Option FrameType
    from_eight zero = some subscribe
    from_eight (suc zero) = some unsubscribe
    from_eight (suc (suc zero)) = some message
    from_eight (suc (suc (suc zero))) = some last_will
    from_eight (suc (suc (suc (suc zero)))) = some ack
    from_eight (suc (suc (suc (suc (suc zero))))) = some error
    from_eight _ = none

    from_four : ℕ → Option FrameType
    from_four zero = some connack
    from_four (suc zero) = some disconnect
    from_four (suc (suc zero)) = some ping
    from_four (suc (suc (suc zero))) = some pong
    from_four (suc (suc (suc (suc n)))) = from_eight n

pub record FrameHeader : Type 0 where
  pub message_id : ℕ  -- uint16
  pub version : ℕ  -- uint8
  pub frame_type : ℕ  -- uint8
  pub cid : ℕ  -- uint16
  pub frame_index : ℕ  -- uint8
  pub total_frames : ℕ  -- uint8
  pub size : ℕ  -- uint16, `length` in the source

abbrev pub frame_header_size : ℕ
frame_header_size = 10

abbrev pub max_packet_size_v1 : ℕ
max_packet_size_v1 = 250

abbrev pub max_frame_data_size : ℕ
max_frame_data_size = 240

pub record Frame : Type 0 where
  pub header : FrameHeader
  pub area : Bytes

-- `Frame frame{}`
unfoldable pub empty_frame : Frame
empty_frame = record {
  header = record {
    message_id = 0;
    version = 0;
    frame_type = 0;
    cid = 0;
    frame_index = 0;
    total_frames = 0;
    size = 0;
  };
  area = replicate max_frame_data_size 0;
}

-- Masks and shifts of a nibble, as arithmetic.
unfoldable pub make_version : ℕ → ℕ → ℕ
make_version framing protocol = framing % 16 * 16 + protocol % 16

unfoldable pub esp_now_version : ℕ → ℕ
esp_now_version version = version / 16 % 16

unfoldable pub nm_protocol_version : ℕ → ℕ
nm_protocol_version version = version % 16

abbrev pub framing_v1 : ℕ
framing_v1 = 0

abbrev pub protocol_version : ℕ
protocol_version = 0

unfoldable pub current_frame_version : ℕ
unfolding make_version
current_frame_version = make_version framing_v1 protocol_version

-- Little-endian fields, read at an offset and laid out.
unfoldable pub le16_at : Bytes → ℕ → ℕ
le16_at d i = get_or d i 0 + 256 * get_or d (i + 1) 0

unfoldable pub le16_bytes : ℕ → Bytes
le16_bytes n = n % 256 ∷ n / 256 % 256 ∷ []

-- `memcpy(&header, data, FrameHeaderSize)`
unfoldable pub parse_header : Bytes → FrameHeader
unfolding le16_at
parse_header d = record {
  message_id = le16_at d 0;
  version = get_or d 2 0;
  frame_type = get_or d 3 0;
  cid = le16_at d 4;
  frame_index = get_or d 6 0;
  total_frames = get_or d 7 0;
  size = le16_at d 8;
}

unfoldable pub header_bytes : FrameHeader → Bytes
unfolding le16_bytes
header_bytes h =
    le16_bytes h.message_id
    ++ (h.version ∷ h.frame_type ∷ [])
    ++ le16_bytes h.cid
    ++ (h.frame_index ∷ h.total_frames ∷ [])
    ++ le16_bytes h.size

-- The bytes that `esp_now_send` is given: the packed struct, cut at `frameSize`.
unfoldable pub frame_bytes : Frame → Bytes
unfolding header_bytes
frame_bytes f = header_bytes f.header ++ take f.header.size f.area

pub data CidRule : Type 0 where
  must_be_zero must_be_nonzero any : CidRule

unfoldable pub cid_rule : FrameType → CidRule
cid_rule beacon = must_be_zero
cid_rule connect = must_be_zero
cid_rule challenge = must_be_zero
cid_rule auth = must_be_zero
cid_rule error = any
cid_rule _ = must_be_nonzero

-- `none` is the source's -1: variable length.
unfoldable pub fixed_payload_size : FrameType → Option ℕ
fixed_payload_size connect = some 10
fixed_payload_size challenge = some 8
fixed_payload_size auth = some 16
fixed_payload_size connack = some 6
fixed_payload_size disconnect = some 0
fixed_payload_size ping = some 0
fixed_payload_size pong = some 0
fixed_payload_size ack = some 0
fixed_payload_size error = some 1
fixed_payload_size _ = none

unfoldable pub known_type : ℕ → Bool
known_type code = leb code 13

pub data FrameCheck : Type 0 where
  ok too_short bad_length unsupported_framing unsupported_protocol : FrameCheck
  unknown_type bad_fragment bad_cid bad_payload : FrameCheck

unfoldable pub breaks_cid_rule : CidRule → ℕ → Bool
breaks_cid_rule must_be_zero cid = not (cid == 0)
breaks_cid_rule must_be_nonzero cid = cid == 0
breaks_cid_rule any cid = false

unfoldable pub breaks_payload_size : Option ℕ → ℕ → Bool
breaks_payload_size none size = false
breaks_payload_size (some fixed) size = not (size == fixed % 65536)

unfoldable pub is_message : FrameType → Bool
is_message message = true
is_message _ = false

-- The checks of `validateFrame` from `totalFrames` on, where the type is known.
unfoldable pub check_typed : FrameType → FrameHeader → FrameCheck
unfolding is_message cid_rule breaks_cid_rule fixed_payload_size breaks_payload_size
check_typed t h =
    if h.total_frames == 0 || leb h.total_frames h.frame_index
    then bad_fragment
    else if not (is_message t) && not (h.total_frames == 1)
    then bad_fragment
    else if breaks_cid_rule (cid_rule t) h.cid
    then bad_cid
    else if breaks_payload_size (fixed_payload_size t) h.size
    then bad_payload
    else ok

unfoldable pub check_type : Option FrameType → FrameHeader → FrameCheck
check_type none h = unknown_type
check_type (some t) h = check_typed t h

-- Where the version and the length are right.
unfoldable pub check_header : FrameHeader → FrameCheck
unfolding check_type known_type
check_header h =
    if not (known_type h.frame_type)
    then unknown_type
    else check_type (frame_type_of h.frame_type) h

unfoldable pub check_fields : FrameHeader → ℕ → FrameCheck
unfolding esp_now_version nm_protocol_version
check_fields h received =
    if not (esp_now_version h.version == framing_v1)
    then unsupported_framing
    else if not (nm_protocol_version h.version == protocol_version)
    then unsupported_protocol
    else if ltb max_packet_size_v1 received || not (h.size == received - frame_header_size)
    then bad_length
    else check_header h

unfoldable pub validate_frame : Bytes → FrameCheck
unfolding check_fields
validate_frame d =
    if ltb (length d) frame_header_size then too_short else check_fields (parse_header d) (length d)

-- `memcpy` of `src` over the front of an array.
unfoldable pub overwrite : Bytes → Bytes → Bytes
overwrite area src = src ++ drop (length src) area

-- `out` is returned with the result.
unfoldable pub decode_frame : Frame → Bytes → Frame × FrameCheck
unfolding overwrite
decode_frame out d = elim (validate_frame d) [
  | ok ↦
      let h = parse_header d in
      (
        record { header = h; area = overwrite out.area (take h.size (drop frame_header_size d)) },
        ok,
      )
  | other ↦ (out, other)
]

abbrev is_none {ℓ} : {A : Type ℓ} → Option A → Bool
is_none none = true
is_none (some a) = false

abbrev pub or_empty : Option Bytes → Bytes
or_empty none = []
or_empty (some d) = d

-- `payload` is the pointer with what it points to, `none` for `nullptr`.
unfoldable pub make_frame : Frame → FrameType → ℕ → ℕ → Option Bytes → ℕ → ℕ → ℕ → Frame × Bool
unfolding type_code current_frame_version overwrite
make_frame out t message_id cid payload size frame_index total_frames =
    if ltb max_frame_data_size size || (is_none payload && not (size == 0)) then (out, false) else (
      record {
        header = record {
          message_id = message_id;
          version = current_frame_version;
          frame_type = type_code t;
          cid = cid;
          frame_index = frame_index;
          total_frames = total_frames;
          size = size % 65536;
        };
        area = overwrite out.area (take size (or_empty payload));
      },
      true,
    )

-- A 64-bit value in little-endian order, laid out and read at an offset.
unfoldable pub le_bytes : ℕ → ℕ → Bytes
le_bytes zero n = []
le_bytes (suc k) n = (n % 256) ∷ le_bytes k (n / 256)

unfoldable pub le_value : ℕ → Bytes → ℕ
le_value zero d = 0
le_value (suc k) d = get_or d 0 0 + 256 * le_value k (drop 1 d)

-- `beaconFrame`, whose boot generation `esp_fill_random` chose. The array is filled from its front,
-- so what has been written is the list of the first `length` bytes.
abbrev beacon_versions : Bytes
beacon_versions = framing_v1 ∷ []

unfoldable pub beacon_with_id : Bytes → Bytes → Bytes
beacon_with_id written id =
    if leb (length written + 1 + length id) max_frame_data_size
    then written ++ (length id ∷ id)
    else written

unfoldable pub beacon_with_generation : Bytes → ℕ → Bytes
unfolding le_bytes
beacon_with_generation written generation =
    if leb (length written + 8) max_frame_data_size
    then written ++ le_bytes 8 generation
    else written

unfoldable pub announced_id : Bytes → Bytes
announced_id id = if leb (length id) 64 then id else []

unfoldable pub beacon_data : Option Bytes → ℕ → Bytes
unfolding beacon_with_id beacon_with_generation announced_id
beacon_data gateway_id generation =
    beacon_with_generation
      (beacon_with_id (length beacon_versions ∷ beacon_versions)
        (announced_id (or_empty gateway_id)))
      generation

unfoldable pub beacon_frame : Option Bytes → ℕ → Frame
beacon_frame gateway_id generation =
    let written = beacon_data gateway_id generation in
    (make_frame empty_frame beacon 0 0 (some written) (length written) 0 1).0

-- The offsets of `beaconVariableOffsets`: the id's, its length, and the generation's.
unfoldable pub beacon_variable_offsets : Frame → Option (ℕ × ℕ × ℕ)
beacon_variable_offsets f =
    let length_offset = 1 + get_or f.area 0 0 in
    let id_length = get_or f.area length_offset 0 in
    let id_offset = length_offset + 1 in
    if ltb f.header.size 2
    then none
    else if leb f.header.size length_offset
    then none
    else if ltb f.header.size (id_offset + id_length)
    then none
    else some (id_offset, id_length, id_offset + id_length)

-- The loop of `beaconSupports` from index `i`, with `left` more versions listed.
unfoldable pub lists_version : Frame → ℕ → ℕ → ℕ → Bool
lists_version f version zero i = false
lists_version f version (suc left) i =
    ltb (i + 1) f.header.size
    && (get_or f.area (1 + i) 0 == version || lists_version f version left (i + 1))

unfoldable pub beacon_supports : Frame → ℕ → Bool
unfolding lists_version
beacon_supports f version =
    if ltb f.header.size 1 then false else lists_version f version (get_or f.area 0 0) 0

-- `out_size` is the room of the caller's buffer; the result is the string written there.
unfoldable pub beacon_gateway_id : Frame → ℕ → Option Bytes
beacon_gateway_id f out_size = if out_size == 0 then none else elim (beacon_variable_offsets f) [
  | none ↦ none
  | some (id_offset, id_length, generation_offset) ↦
      if id_length == 0 || leb out_size id_length
      then none
      else some (take id_length (drop id_offset f.area))
]

unfoldable pub beacon_generation : Frame → Option ℕ
unfolding le_value
beacon_generation f = elim (beacon_variable_offsets f) [
  | none ↦ none
  | some (id_offset, id_length, generation_offset) ↦
      if ltb f.header.size (generation_offset + 8)
      then none
      else some (le_value 8 (drop generation_offset f.area))
]
