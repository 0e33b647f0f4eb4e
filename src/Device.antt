-- ===== src/Device.antt =====
-- One ESP-NOW session and what the broker keeps for it: src/Gateway/Broker/Device.h and Device.cpp.
-- The two smoothed floats, `avgRssi_` and `rttMs_` with its flag, are left out: only telemetry
-- reads them. `rssi` is the bit pattern of the int8.
pub mod Subscriptions
use night_mare_network.Base.{
  ℕ, zero, suc, ◌+◌, ◌%◌, ◌^◌, Bool, true, false, not, ◌&&◌, ◌||◌, ◌==◌, ltb, if◌then◌else◌, Bytes,
  bytes_eq, is_empty, Option, none, some, List, [], ◌∷◌, length, replicate,
}
use night_mare_network.Base.Slots.{modify}
use night_mare_network.Topic.{is_valid_publish_topic, topic_matches_pattern, max_topic_length}
use night_mare_network.Message.{Message, no_message}

pub data ConnectionState : Type 0 where
  handshake authenticated securing connected : ConnectionState

pub record Device : Type 0 where
  pub mac : Bytes
  pub cid : ℕ  -- uint16
  pub state : ConnectionState
  pub session_key : Bytes
  pub has_session_key : Bool
  pub suspended : Bool
  pub rssi : ℕ
  pub has_rssi : Bool
  pub rx_frames : ℕ  -- uint32
  pub session_start_ms : ℕ  -- uint64
  pub last_seen_ms : ℕ  -- uint64
  pub subscriptions : List Bytes
  pub last_will : Message
  pub assumed_name : Bytes

abbrev pub max_subscriptions : ℕ
max_subscriptions = 32

abbrev pub session_key_size : ℕ
session_key_size = 16

-- The constructor `Device(address, cid, nowMs)`.
unfoldable pub new_device : Bytes → ℕ → ℕ → Device
new_device mac cid now = record {
  mac = mac;
  cid = cid;
  state = authenticated;
  session_key = replicate session_key_size 0;
  has_session_key = false;
  suspended = false;
  rssi = 0;
  has_rssi = false;
  rx_frames = 0;
  session_start_ms = now;
  last_seen_ms = now;
  subscriptions = replicate max_subscriptions [];
  last_will = no_message;
  assumed_name = [];
}

unfoldable pub any_matches : Bytes → List Bytes → Bool
any_matches topic [] = false
any_matches topic (f ∷ fs) =
    (not (is_empty f) && topic_matches_pattern topic f) || any_matches topic fs

unfoldable pub is_subscribed_to : Device → Bytes → Bool
unfolding any_matches
is_subscribed_to d topic = any_matches topic d.subscriptions

-- What the loop of `subscribeTo` finds: the filter itself, or the first free slot, if any.
pub data Scan : Type 0 where
  already : Scan
  first_free : Option ℕ → Scan

-- `if (subscriptions[i].empty() && freeSlot == MaxSubscriptions) freeSlot = i;`
unfoldable pub keep_free : Option ℕ → Bytes → ℕ → Option ℕ
keep_free (some j) f i = some j
keep_free none f i = if is_empty f then some i else none

-- The loop from index `i`; `free` is `freeSlot`, `none` while it is `MaxSubscriptions`.
unfoldable pub scan : Bytes → List Bytes → ℕ → Option ℕ → Scan
unfolding keep_free
scan topic [] i free = first_free free
scan topic (f ∷ fs) i free =
    let rest = scan topic fs (suc i) (keep_free free f i) in
    if bytes_eq f topic then already else rest

unfoldable pub subscribe_to : Device → Bytes → Device × Bool
unfolding scan
subscribe_to d topic =
    if is_empty topic || ltb max_topic_length (length topic)
    then (d, false)
    else elim (scan topic d.subscriptions 0 none) [
      | already ↦ (d, true)
      | first_free none ↦ (d, false)
      | first_free (some i) ↦
          (record d { subscriptions = modify d.subscriptions i (λ _. topic) }, true)
    ]

-- Clears the first slot that holds the filter.
unfoldable pub clear_filter : Bytes → List Bytes → List Bytes × Bool
clear_filter topic [] = ([], false)
clear_filter topic (f ∷ fs) =
    let (rest, found) = clear_filter topic fs in
    if bytes_eq f topic then ([] ∷ fs, true) else (f ∷ rest, found)

unfoldable pub unsubscribe_from : Device → Bytes → Device × Bool
unfolding clear_filter
unsubscribe_from d topic =
    let (rest, found) = clear_filter topic d.subscriptions in
    if found then (record d { subscriptions = rest }, true) else (d, false)

unfoldable pub set_session_key : Device → Bytes → Device
set_session_key d key = record d { session_key = key; has_session_key = true }

unfoldable pub forget_session_key : Device → Device
forget_session_key d = record d {
  session_key = replicate session_key_size 0;
  has_session_key = false;
}

unfoldable pub mark_seen : Device → ℕ → ℕ → Device
mark_seen d signal now = record d {
  rssi = signal;
  has_rssi = true;
  rx_frames = (d.rx_frames + 1) % 2 ^ 32;
  last_seen_ms = now;
}

unfoldable pub nonempty_filters : List Bytes → List Bytes
nonempty_filters [] = []
nonempty_filters (f ∷ fs) = if is_empty f then nonempty_filters fs else f ∷ nonempty_filters fs

unfoldable pub subscription_list : Device → List Bytes
unfolding nonempty_filters
subscription_list d = nonempty_filters d.subscriptions

unfoldable pub subscription_count : Device → ℕ
unfolding nonempty_filters
subscription_count d = length (nonempty_filters d.subscriptions)

unfoldable pub has_last_will : Device → Bool
has_last_will d = not (is_empty d.last_will.topic)

unfoldable pub set_last_will : Device → Message → Device × Bool
set_last_will d m =
    if is_valid_publish_topic m.topic then (record d { last_will = m }, true) else (d, false)

unfoldable pub clear_last_will : Device → Device
clear_last_will d = record d { last_will = no_message }

unfoldable pub set_assumed_name : Device → Bytes → Device
set_assumed_name d name = record d { assumed_name = name }

abbrev pub is_connected_state : ConnectionState → Bool
is_connected_state connected = true
is_connected_state _ = false

unfoldable pub is_connected : Device → Bool
is_connected d = is_connected_state d.state && not d.suspended
