-- ===== src/Reassembly/Feeding.antt =====
-- One call of `feed`, seen from the slot of one message.
use night_mare_network.Base.{
  ℕ, ◌+◌, ◌<◌, ◌≡◌, refl, ◌≢◌, sym, ap, ◌∙◌, inl, inr, true, false, Bytes, bytes_eq_iff,
  bytes_eq_refl, none, some, List, [], arith, Bool-cases, Option-cases, ◌==◌, subst,
}
use night_mare_network.Base.Slots.{modify}
use night_mare_network.Frame.{FrameHeader}
use night_mare_network.Reassembly.{
  Slot, complete, incomplete, is_for, find, claim, is_claimable, get_slot, clear_slot, start_slot,
  append_fragment, consume, begin_message, feed,
}
use night_mare_network.Reassembly.Slots.{
  slot_of, find-slot_of, find-none, find-is_for, slot_of-modify_taken, slot_of-modify_found,
  slot_of-modify_other, find-modify_new, claim_lem, get_slot-modify,
}

-- The frame belongs to the message.
abbrev pub IsOf : ℕ → ℕ → FrameHeader → Type 0
IsOf cid id h = (h.cid ≡ cid) × (h.message_id ≡ id) × (h.total_frames ≢ 1)

feed-found :
    (mac : Bytes) (t : List Slot) (h : FrameHeader) (d : Bytes) (now i : ℕ)
    → h.total_frames ≢ 1
    → find mac h.cid h.message_id t ≡ some i
    → feed t mac h d now ≡ consume t i h d
unfolding feed
feed-found mac t h d now i n e = rw (e, feed) (ground arith)

feed-begin :
    (mac : Bytes) (t : List Slot) (h : FrameHeader) (d : Bytes) (now : ℕ)
    → h.total_frames ≢ 1
    → find mac h.cid h.message_id t ≡ none
    → feed t mac h d now ≡ begin_message t mac h d now
unfolding feed
feed-begin mac t h d now n e = rw (e, feed) (ground arith)

module _ (mac : Bytes) (cid id : ℕ) where
  is_for-append_fragment :
      (h : FrameHeader) (d : Bytes) (s : Slot)
      → is_for mac cid id (append_fragment h d s) ≡ is_for mac cid id s
  unfolding is_for append_fragment
  is_for-append_fragment h d s = refl

  is_for-clear_slot : (s : Slot) → is_for mac cid id (clear_slot s) ≡ false
  unfolding is_for clear_slot
  is_for-clear_slot s = refl

  consume_expected :
      (t : List Slot) (i : ℕ) (h : FrameHeader) (d : Bytes)
      → find mac cid id t ≡ some i
      → let s = get_slot t i in
        h.frame_index ≡ s.next_frame
        → h.total_frames ≡ s.total_frames
        → s.total_frames < 256
        → let r = consume t i h d in
          let filled = append_fragment h d s in
          (s.next_frame + 1 < s.total_frames
            → (r.1 ≡ incomplete) × (slot_of mac cid id r.0 ≡ some filled))
          × (s.next_frame + 1 ≡ s.total_frames → r.1 ≡ complete filled.buffer)
  unfolding consume
  consume_expected t i h d e idx tot fits = (
    λ more. ground (
      arith,
      slot_of-modify_found mac cid id (append_fragment h d) t i e
          (is_for-append_fragment h d (get_slot t i) ∙ find-is_for mac cid id t i e),
    ),
    λ last. ground arith,
  )

  -- The fragment that the slot waits for is appended; the last one completes the message.
  pub feed_expected :
      (t : List Slot) (s : Slot) (h : FrameHeader) (d : Bytes) (now : ℕ)
      → slot_of mac cid id t ≡ some s
      → IsOf cid id h
      → h.frame_index ≡ s.next_frame
      → h.total_frames ≡ s.total_frames
      → s.total_frames < 256
      → let r = feed t mac h d now in
        let filled = append_fragment h d s in
        (s.next_frame + 1 < s.total_frames
          → (r.1 ≡ incomplete) × (slot_of mac cid id r.0 ≡ some filled))
        × (s.next_frame + 1 ≡ s.total_frames → r.1 ≡ complete filled.buffer)
  feed_expected t s h d now e (kc, ki, many) idx tot fits =
      let (i, found, at, mine) = find-slot_of mac cid id t s e in
      let found' : find mac h.cid h.message_id t ≡ some i = rw (kc, ki) found in
      rw (feed-found mac t h d now i many found', ← at)
        (consume_expected t i h d found (rw at idx) (rw at tot) (rw at fits))

  -- A change at a slot of another message.
  consume_keeps :
      (t : List Slot) (i : ℕ) (h : FrameHeader) (d : Bytes)
      → is_for mac cid id (get_slot t i) ≡ false
      → slot_of mac cid id (consume t i h d).0 ≡ slot_of mac cid id t
  unfolding consume
  consume_keeps t i h d n = ground (
    arith,
    slot_of-modify_other mac cid id clear_slot t i n (is_for-clear_slot (get_slot t i)),
    slot_of-modify_other mac cid id (append_fragment h d) t i n
        (is_for-append_fragment h d (get_slot t i) ∙ n),
    slot_of-modify_other mac cid id (λ s. clear_slot (append_fragment h d s)) t i n
        (is_for-clear_slot (append_fragment h d (get_slot t i))),
  )

  module _ (other : Bytes) (h : FrameHeader)
      (apart : ¬ ((other ≡ mac) × (h.cid ≡ cid) × (h.message_id ≡ id))) where
    not_ours : (s : Slot) → is_for other h.cid h.message_id s ≡ true → is_for mac cid id s ≡ false
    unfolding is_for
    not_ours s e =
        ground (arith, bytes_eq_iff s.mac mac, bytes_eq_iff s.mac other, bytes_eq_iff other mac)

    start_not_ours : (now : ℕ) (s : Slot) → is_for mac cid id (start_slot other h now s) ≡ false
    unfolding is_for start_slot
    start_not_ours now s = ground (arith, bytes_eq_iff other mac)

    begin_keeps :
        (t : List Slot) (s : Slot) (d : Bytes) (now : ℕ)
        → slot_of mac cid id t ≡ some s
        → is_claimable other h.cid now s ≡ false
        → slot_of mac cid id (begin_message t other h d now).0 ≡ some s
    unfolding begin_message
    begin_keeps t s d now e c = elim (Bool-cases (h.frame_index == 0)) [
      | inr n ↦ rw n e
      | inl z ↦ elim (Option-cases (claim other h.cid now t)) [
        | inl full ↦ rw (z, full, begin_message) e
        | inr (i, at) ↦
            let (room, old) = claim_lem other h.cid id now t i at in
            let taken = modify t i (start_slot other h now) in
            rw (z, at, begin_message)
              (consume_keeps taken i h d (
                  rw (get_slot-modify (start_slot other h now) t i room)
                    (start_not_ours now (get_slot t i)))
                ∙ slot_of-modify_taken mac cid id (is_claimable other h.cid now)
                    (start_slot other h now) t i s e c old (start_not_ours now (get_slot t i)))
      ]
    ]

    -- A frame of another message leaves the slot alone, unless it may take the slot over.
    pub feed_other :
        (t : List Slot) (s : Slot) (d : Bytes) (now : ℕ)
        → slot_of mac cid id t ≡ some s
        → is_claimable other h.cid now s ≡ false
        → slot_of mac cid id (feed t other h d now).0 ≡ some s
    unfolding feed
    feed_other t s d now e c = elim (Bool-cases (h.total_frames == 1)) [
      | inl one ↦ rw one e
      | inr n ↦ elim (Option-cases (find other h.cid h.message_id t)) [
        | inl new ↦ rw (n, new, feed) (begin_keeps t s d now e c)
        | inr (i, at) ↦
            rw (n, at, feed)
              (consume_keeps t i h d
                  (not_ours (get_slot t i) (find-is_for other h.cid h.message_id t i at))
                ∙ e)
      ]
    ]

started_is_for :
    (mac : Bytes) (h : FrameHeader) (now : ℕ) (s : Slot)
    → is_for mac h.cid h.message_id (start_slot mac h now s) ≡ true
unfolding is_for start_slot
started_is_for mac h now s = ground (arith, bytes_eq_refl mac)

started_fields :
    (mac : Bytes) (h : FrameHeader) (now : ℕ) (s : Slot)
    → let z = start_slot mac h now s in
      (z.next_frame ≡ 0)
      × (z.total_frames ≡ h.total_frames)
      × (z.buffer ≡ [])
      × (z.started_at_ms ≡ now)
unfolding start_slot
started_fields mac h now s = (refl, refl, refl, refl)

begin_message-claimed :
    (mac : Bytes) (t : List Slot) (h : FrameHeader) (d : Bytes) (now i : ℕ)
    → h.frame_index ≡ 0
    → claim mac h.cid now t ≡ some i
    → begin_message t mac h d now ≡ consume (modify t i (start_slot mac h now)) i h d
unfolding begin_message
begin_message-claimed mac t h d now i z e = ground arith

-- The first fragment takes over a slot that may be claimed.
pub feed_first :
    (mac : Bytes) (t : List Slot) (h : FrameHeader) (d : Bytes) (now i : ℕ)
    → slot_of mac h.cid h.message_id t ≡ none
    → claim mac h.cid now t ≡ some i
    → h.frame_index ≡ 0
    → 1 < h.total_frames
    → h.total_frames < 256
    → let r = feed t mac h d now in
      (r.1 ≡ incomplete)
      × (slot_of mac h.cid h.message_id r.0
          ≡ some (append_fragment h d (start_slot mac h now (get_slot t i))))
unfolding start_slot
feed_first mac t h d now i free at first many fits =
    let none_yet = find-none mac h.cid h.message_id t free in
    let (room, old) = claim_lem mac h.cid h.message_id now t i at in
    let start = start_slot mac h now in
    let fresh = get_slot-modify start t i room in
    let (zero_next, same_total, _, _) = started_fields mac h now (get_slot t i) in
    let found =
      find-modify_new mac h.cid h.message_id start t i none_yet room
        (started_is_for mac h now (get_slot t i)) in
    let next_zero = ap (λ s. s.next_frame) fresh ∙ zero_next in
    let total_same = ap (λ s. s.total_frames) fresh ∙ same_total in
    rw
      (feed-begin mac t h d now (λ e. absurd (omega arith)) none_yet
        ∙ begin_message-claimed mac t h d now i first at)
      (subst (Began h.cid h.message_id h d) fresh (
        (consume_expected mac h.cid h.message_id (modify t i start) i h d found
            (first ∙ sym next_zero) (sym total_same) (omega arith)).0
          (omega arith)))
  where
    Began : ℕ → ℕ → FrameHeader → Bytes → Slot → Type 0
    Began c m h d s =
        let r = consume (modify t i (start_slot mac h now)) i h d in
        (r.1 ≡ incomplete) × (slot_of mac c m r.0 ≡ some (append_fragment h d s))
