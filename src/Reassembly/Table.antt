-- ===== src/Reassembly/Table.antt =====
-- What holds of every slot, and what `drop` leaves.
use night_mare_network.Base.{
  ℕ, zero, suc, ◌<◌, ◌≡◌, refl, ap, ◌∙◌, inl, inr, true, false, Bytes, bytes_eq, bytes_eq_iff, none,
  some, List, [], ◌∷◌, arith, if◌then◌else◌, Bool-cases, Option-cases, ◌==◌, ltb, length, All,
}
use night_mare_network.Base.Slots.{modify, length-modify}
use night_mare_network.Frame.{FrameHeader}
use night_mare_network.Reassembly.{
  Slot, append_fragment, feed, begin_message, consume, drop_sender, is_for, find, claim, in_order,
  clear_slot, start_slot, get_slot, slot_count, new_table, empty_slot,
}
use night_mare_network.Reassembly.Slots.{slot_of, get_slot-modify, claim_lem, find-is_for}

-- A slot in use waits for one of its message's frames; a slot that is not in use holds no bytes.
pub record IsSettled (s : Slot) : Type 0 where
  pub waiting : s.active ≡ true → (s.next_frame < s.total_frames) × (s.total_frames < 256)
  pub released : s.active ≡ false → s.buffer ≡ []

pub record IsValid (t : List Slot) : Type 0 where
  pub slots : length t ≡ slot_count
  pub settled : All IsSettled t

All-modify :
    (f : Slot → Slot) (t : List Slot) (i : ℕ)
    → All IsSettled t
    → IsSettled (f (get_slot t i))
    → All IsSettled (modify t i f)
unfolding get_slot
All-modify f [] i a h = tt
All-modify f (s ∷ t) zero a h = (h, a.1)
All-modify f (s ∷ t) (suc i) a h = (a.0, All-modify f t i a.1 h)

empty_slot-IsSettled : IsSettled empty_slot
unfolding empty_slot
empty_slot-IsSettled = ground arith

get_slot-IsSettled : (t : List Slot) (i : ℕ) → All IsSettled t → IsSettled (get_slot t i)
unfolding get_slot
get_slot-IsSettled [] i a = empty_slot-IsSettled
get_slot-IsSettled (s ∷ t) zero a = a.0
get_slot-IsSettled (s ∷ t) (suc i) a = get_slot-IsSettled t i a.1

pub new_table-IsValid : IsValid new_table
unfolding new_table
new_table-IsValid = record {
  slots = refl;
  settled = let e = empty_slot-IsSettled in (e, (e, (e, (e, tt))));
}

clear_slot-IsSettled : (s : Slot) → IsSettled (clear_slot s)
unfolding clear_slot
clear_slot-IsSettled s = ground arith

-- Where the next frame's number is still below the total.
append_fragment-IsSettled :
    (h : FrameHeader) (d : Bytes) (s : Slot)
    → IsSettled s
    → s.active ≡ true
    → ltb (append_fragment h d s).next_frame (append_fragment h d s).total_frames ≡ true
    → IsSettled (append_fragment h d s)
unfolding append_fragment
append_fragment-IsSettled h d s v a l = ground arith

start_slot-active :
    (mac : Bytes) (h : FrameHeader) (now : ℕ) (s : Slot) → (start_slot mac h now s).active ≡ true
unfolding start_slot
start_slot-active mac h now s = refl

is_for-active : (mac : Bytes) (cid id : ℕ) (s : Slot) → is_for mac cid id s ≡ true → s.active ≡ true
unfolding is_for
is_for-active mac cid id s e = ground arith

consume-IsValid :
    (t : List Slot) (i : ℕ) (h : FrameHeader) (d : Bytes)
    → (get_slot t i).active ≡ true
    → IsValid t
    → IsValid (consume t i h d).0
unfolding consume
consume-IsValid t i h d live v =
    let s = get_slot t i in
    elim (Bool-cases (in_order h s)) [
      | inr n ↦ rw n (write clear_slot (clear_slot-IsSettled s))
      | inl y ↦
          elim (Bool-cases
            (ltb (append_fragment h d s).next_frame (append_fragment h d s).total_frames)) [
              | inl more ↦
                  rw (y, more)
                    (write (append_fragment h d) (
                      append_fragment-IsSettled h d s (get_slot-IsSettled t i v.settled) live more))
              | inr done ↦
                  rw (y, done)
                    (write (λ z. clear_slot (append_fragment h d z))
                      (clear_slot-IsSettled (append_fragment h d s)))
            ]
    ]
  where
    write : (f : Slot → Slot) → IsSettled (f (get_slot t i)) → IsValid (modify t i f)
    write f k = record {
      slots = length-modify t i f ∙ v.slots;
      settled = All-modify f t i v.settled k;
    }

start_slot-IsSettled :
    (mac : Bytes) (h : FrameHeader) (now : ℕ) (s : Slot)
    → 0 < h.total_frames
    → h.total_frames < 256
    → IsSettled (start_slot mac h now s)
unfolding start_slot
start_slot-IsSettled mac h now s pos fits = ground arith

begin_message-IsValid :
    (t : List Slot) (mac : Bytes) (h : FrameHeader) (d : Bytes) (now : ℕ)
    → 0 < h.total_frames
    → h.total_frames < 256
    → IsValid t
    → IsValid (begin_message t mac h d now).0
unfolding begin_message
begin_message-IsValid t mac h d now pos fits v = elim (Bool-cases (h.frame_index == 0)) [
  | inr n ↦ rw n v
  | inl z ↦ elim (Option-cases (claim mac h.cid now t)) [
    | inl e ↦ rw (z, e, begin_message) v
    | inr (i, e) ↦
        rw (z, e, begin_message) (consume-IsValid (modify t i start) i h d (started i e) (taken i))
  ]
]
  where
    start : Slot → Slot
    start = start_slot mac h now

    taken : (i : ℕ) → IsValid (modify t i start)
    taken i = record {
      slots = length-modify t i start ∙ v.slots;
      settled =
          All-modify start t i v.settled (start_slot-IsSettled mac h now (get_slot t i) pos fits);
    }

    started :
        (i : ℕ) → claim mac h.cid now t ≡ some i → (get_slot (modify t i start) i).active ≡ true
    started i e =
        ap (λ s. s.active)
          (get_slot-modify start t i (claim_lem mac h.cid h.message_id now t i e).0)
        ∙ start_slot-active mac h now (get_slot t i)

-- `feed` keeps the table valid on every frame whose fragment count is a byte and not 0: four slots,
-- none that waits beyond the last frame, and no bytes held where no message is in flight.
pub feed-IsValid :
    (t : List Slot) (mac : Bytes) (h : FrameHeader) (d : Bytes) (now : ℕ)
    → 0 < h.total_frames
    → h.total_frames < 256
    → IsValid t
    → IsValid (feed t mac h d now).0
unfolding feed
feed-IsValid t mac h d now pos fits v = elim (Bool-cases (h.total_frames == 1)) [
  | inl one ↦ rw one v
  | inr many ↦ elim (Option-cases (find mac h.cid h.message_id t)) [
    | inl e ↦ rw (many, e, feed) (begin_message-IsValid t mac h d now pos fits v)
    | inr (i, e) ↦
        rw (many, e, feed)
          (consume-IsValid t i h d
            (is_for-active mac h.cid h.message_id (get_slot t i)
              (find-is_for mac h.cid h.message_id t i e))
            v)
  ]
]

-- After `drop` a sender has no slot, whatever its session and message; the slots of the messages of
-- other senders are as they were.
pub slot_of-drop_sender :
    (mac other : Bytes) (cid id : ℕ) (t : List Slot)
    → slot_of other cid id (drop_sender mac t)
      ≡ (if bytes_eq other mac then none else slot_of other cid id t)
unfolding slot_of drop_sender is_for
slot_of-drop_sender mac other cid id [] = ground arith
slot_of-drop_sender mac other cid id (s ∷ t) = ground (
  arith,
  bytes_eq_iff s.mac mac,
  bytes_eq_iff s.mac other,
  bytes_eq_iff other mac,
  slot_of-drop_sender mac other cid id t,
)
