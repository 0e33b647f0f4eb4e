-- ===== src/Reassembly.antt =====
-- Putting fragments back together: src/Gateway/EspNow/Reassembly.h and Reassembly.cpp. The array of
-- slots is a list, a slot pointer an index into it, and a MAC the list of its six bytes, so that
-- `MacAddress::operator==` is the equality of byte strings.
pub mod Slots
pub mod Feeding
pub mod Streams
pub mod Table
use night_mare_network.Base.{
  ℕ, zero, suc, ◌+◌, ◌%◌, Bool, true, false, not, ◌&&◌, ◌||◌, ◌==◌, ltb, if◌then◌else◌, Bytes,
  bytes_eq, sub64, Option, none, some, List, [], ◌∷◌, ◌++◌, take, replicate,
}
use night_mare_network.Base.Slots.{modify}
use night_mare_network.Frame.{FrameHeader}

pub record Slot : Type 0 where
  pub active : Bool
  pub mac : Bytes
  pub cid : ℕ
  pub message_id : ℕ
  pub next_frame : ℕ  -- uint8
  pub total_frames : ℕ  -- uint8
  pub started_at_ms : ℕ  -- uint64
  pub buffer : Bytes

unfoldable pub empty_slot : Slot
empty_slot = record {
  active = false;
  mac = replicate 6 0;
  cid = 0;
  message_id = 0;
  next_frame = 0;
  total_frames = 0;
  started_at_ms = 0;
  buffer = [];
}

abbrev pub slot_count : ℕ
slot_count = 4

abbrev pub timeout_ms : ℕ
timeout_ms = 5000

unfoldable pub new_table : List Slot
unfolding empty_slot
new_table = replicate slot_count empty_slot

pub data Result : Type 0 where
  complete : Bytes → Result
  incomplete dropped : Result

unfoldable pub is_for : Bytes → ℕ → ℕ → Slot → Bool
is_for mac cid message_id s =
    s.active && (bytes_eq s.mac mac && (s.cid == cid && s.message_id == message_id))

-- `find`: the index of the first slot of a message.
unfoldable pub find : Bytes → ℕ → ℕ → List Slot → Option ℕ
find mac cid message_id [] = none
find mac cid message_id (s ∷ t) =
    if is_for mac cid message_id s
    then some 0
    else elim (find mac cid message_id t) [ none ↦ none | some i ↦ some (suc i) ]

unfoldable pub is_claimable : Bytes → ℕ → ℕ → Slot → Bool
is_claimable mac cid now s =
    not s.active
    || (ltb timeout_ms (sub64 now s.started_at_ms) || (bytes_eq s.mac mac && not (s.cid == cid)))

-- `claim`: the index of the first slot that may be taken over.
unfoldable pub claim : Bytes → ℕ → ℕ → List Slot → Option ℕ
claim mac cid now [] = none
claim mac cid now (s ∷ t) =
    if is_claimable mac cid now s
    then some 0
    else elim (claim mac cid now t) [ none ↦ none | some i ↦ some (suc i) ]

unfoldable pub clear_slot : Slot → Slot
clear_slot s = record s { active = false; buffer = [] }

-- What `feed` writes into the slot that `claim` has cleared.
unfoldable pub start_slot : Bytes → FrameHeader → ℕ → Slot → Slot
unfolding clear_slot
start_slot mac h now s = record (clear_slot s) {
  active = true;
  mac = mac;
  cid = h.cid;
  message_id = h.message_id;
  total_frames = h.total_frames;
  next_frame = 0;
  started_at_ms = now;
}

unfoldable pub get_slot : List Slot → ℕ → Slot
unfolding empty_slot
get_slot [] i = empty_slot
get_slot (s ∷ t) zero = s
get_slot (s ∷ t) (suc i) = get_slot t i

unfoldable pub in_order : FrameHeader → Slot → Bool
in_order h s = h.frame_index == s.next_frame && h.total_frames == s.total_frames

unfoldable pub append_fragment : FrameHeader → Bytes → Slot → Slot
append_fragment h d s = record s {
  buffer = s.buffer ++ take h.size d;
  next_frame = (s.next_frame + 1) % 256;
}

-- The part of `feed` from the test of the order on, at the message's slot.
unfoldable pub consume : List Slot → ℕ → FrameHeader → Bytes → List Slot × Result
unfolding in_order append_fragment clear_slot
consume t i h d =
    let filled = append_fragment h d (get_slot t i) in
    if not (in_order h (get_slot t i))
    then (modify t i clear_slot, dropped)
    else if ltb filled.next_frame filled.total_frames
    then (modify t i (append_fragment h d), incomplete)
    else (modify t i (λ s. clear_slot (append_fragment h d s)), complete filled.buffer)

unfoldable pub begin_message : List Slot → Bytes → FrameHeader → Bytes → ℕ → List Slot × Result
begin_message t mac h d now =
    if not (h.frame_index == 0) then (t, dropped) else elim (claim mac h.cid now t) [
      | none ↦ (t, dropped)
      | some i ↦ consume (modify t i (start_slot mac h now)) i h d
    ]

unfoldable pub feed : List Slot → Bytes → FrameHeader → Bytes → ℕ → List Slot × Result
feed t mac h d now =
    if h.total_frames == 1
    then (t, complete (take h.size d))
    else elim (find mac h.cid h.message_id t) [
      | none ↦ begin_message t mac h d now
      | some i ↦ consume t i h d
    ]

-- `drop`: forget what a sender has in flight.
unfoldable pub drop_sender : Bytes → List Slot → List Slot
unfolding clear_slot
drop_sender mac [] = []
drop_sender mac (s ∷ t) =
    (if s.active && bytes_eq s.mac mac then clear_slot s else s) ∷ drop_sender mac t

unfoldable pub active_count : List Slot → ℕ
active_count [] = 0
active_count (s ∷ t) = (if s.active then 1 else 0) + active_count t
