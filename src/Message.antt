-- ===== src/Message.antt =====
-- A broker message and its ESP-NOW encoding: src/Gateway/Broker/Message.h and Message.cpp. A topic
-- is the list of its characters as bytes.
pub mod Codec
use night_mare_network.Base.{
  ℕ, ◌+◌, ◌≡◌, Bool, true, false, not, ◌&&◌, ◌||◌, ◌==◌, ltb, if◌then◌else◌, Bytes, [], ◌∷◌, ◌++◌,
  length, get_or, take, drop, is_empty, bit_and, bit_or,
}
use night_mare_network.Topic.{is_valid_publish_topic}

pub data Direction : Type 0 where
  local_to_remote remote_to_local : Direction

pub record Message : Type 0 where
  pub direction : Direction
  pub topic : Bytes
  pub payload : Bytes
  pub persistent : Bool

-- `Message message;`
unfoldable pub no_message : Message
no_message = record { direction = local_to_remote; topic = []; payload = []; persistent = false }

unfoldable pub from_topic_and_payload : Bytes → Bytes → Bool → Direction → Message
from_topic_and_payload topic payload persistent direction = record {
  direction = direction;
  topic = topic;
  payload = payload;
  persistent = persistent;
}

abbrev pub retained_flag : ℕ
retained_flag = 0x80

abbrev pub topic_length_mask : ℕ
topic_length_mask = 0x3f

-- Both overloads of `fromRawData`: the second takes the buffer's payload over instead of copying.
unfoldable pub from_raw_data : Bytes → Message
unfolding no_message
from_raw_data d =
    let topic_length = bit_and (get_or d 0 0) topic_length_mask in
    if is_empty d
    then no_message
    else if topic_length == 0 || ltb (length d) (1 + topic_length)
    then no_message
    else record {
      direction = local_to_remote;
      topic = take topic_length (drop 1 d);
      payload = drop topic_length (drop 1 d);
      persistent = not (bit_and (get_or d 0 0) retained_flag == 0);
    }

unfoldable pub first_byte : Bool → ℕ → ℕ
first_byte persistent topic_length =
    bit_or (if persistent then retained_flag else 0) (bit_and topic_length topic_length_mask)

unfoldable pub to_raw_data : Message → Bytes
unfolding first_byte
to_raw_data m =
    if is_valid_publish_topic m.topic
    then first_byte m.persistent (length m.topic) ∷ (m.topic ++ m.payload)
    else []
