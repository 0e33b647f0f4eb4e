-- ===== src/Broker.antt =====
-- The ESP-NOW broker: src/Gateway/EspNow/espBroker.h and espBroker.cpp. Its static variables are the
-- fields of one record. The gateway task owns them, so a call is a function from state to state.
pub mod Sending
pub mod Handling
pub mod Delivery
pub mod Guards
use night_mare_network.Base.{ℕ, ◌+◌, ◌%◌, ◌==◌, if◌then◌else◌, Bool, Bytes, Option, List}
use night_mare_network.Frame.{Frame}
use night_mare_network.Message.{Message}
use night_mare_network.Reassembly.{Slot}
use night_mare_network.Sessions.{DeviceManager}
use night_mare_network.Sessions.Radio.{PeerOps}

pub record Broker : Type 0 where
  pub psk : Bytes
  pub own_mac : Bytes
  pub manager : DeviceManager
  pub reassembly : List Slot
  pub next_message_id : ℕ  -- uint16
  pub invalid_frames : ℕ  -- uint32
  pub ignored_frames : ℕ  -- uint32
  pub sent : List (Bytes × Frame)  -- the frames given to the radio, newest first

-- What the hardware answers: the peer table, whether a frame goes out within the time, given those
-- before it, and mbedtls's HMAC.
pub record Radio : Type 0 where
  pub peers : PeerOps
  pub send_answer : List (Bytes × Frame) → Bytes → Frame → Bool
  pub hmac : Bytes → Bytes → Option Bytes

-- The two hooks of espBroker.h, which the gateway implements. A device is the MAC of its session.
pub record Hooks : Type 0 where
  pub on_message : Broker → Bytes → Message → Broker
  pub on_subscribe : Broker → Bytes → Bytes → Broker

-- One packet of the queue. The RSSI is the bit pattern of the int8.
pub record RxPacket : Type 0 where
  pub mac : Bytes
  pub rssi : ℕ
  pub content : Bytes

pub data ErrorCode : Type 0 where
  auth_failed unsupported_version invalid_session invalid_frame not_connected rejected : ErrorCode

-- The enumerator's value on the wire.
unfoldable pub error_code : ErrorCode → ℕ
error_code auth_failed = 1
error_code unsupported_version = 2
error_code invalid_session = 3
error_code invalid_frame = 4
error_code not_connected = 5
error_code rejected = 6

abbrev pub heartbeat_ms : ℕ
heartbeat_ms = 15000

-- `newMessageId`: the id and the next one.
unfoldable pub next_id : ℕ → ℕ
next_id id = let next = (id + 1) % 65536 in if next == 0 then 1 else next

unfoldable pub new_message_id : Broker → Broker × ℕ
unfolding next_id
new_message_id b = (record b { next_message_id = next_id b.next_message_id }, b.next_message_id)
