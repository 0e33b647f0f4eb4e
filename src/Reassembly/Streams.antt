-- ===== src/Reassembly/Streams.antt =====
-- A whole message, its fragments among the frames of other messages.
use night_mare_network.Base.{
  ℕ, suc, ◌<◌, ◌≤◌, ◌≡◌, sym, ap, ◌∙◌, true, false, Bytes, bytes_eq_iff, none, some, List, [], ◌∷◌,
  ◌++◌, arith, take, sub64, append_assoc, append-nil, subst,
}
use night_mare_network.Frame.{FrameHeader}
use night_mare_network.Reassembly.{
  Slot, Result, complete, incomplete, is_claimable, append_fragment, feed, timeout_ms, claim,
  start_slot, get_slot,
}
use night_mare_network.Reassembly.Slots.{slot_of}
use night_mare_network.Reassembly.Feeding.{feed_expected, feed_other, feed_first}

-- One frame later the gateway receives it.
pub record Arrival : Type 0 where
  pub mac : Bytes
  pub header : FrameHeader
  pub content : Bytes
  pub now : ℕ

-- The result of the last call of `feed`.
pub run : List Slot → List Arrival → Result → Result
run t [] last = last
run t (a ∷ later) last = let r = feed t a.mac a.header a.content a.now in run r.0 later r.1

pub joined : List Bytes → Bytes
joined [] = []
joined (c ∷ cs) = c ++ joined cs

module _ (mac : Bytes) (cid id total started : ℕ) where
  -- The frame is fragment `i` of the message and holds `chunk`.
  pub record IsFragment (i : ℕ) (chunk : Bytes) (a : Arrival) : Type 0 where
    pub sender : a.mac ≡ mac
    pub session : a.header.cid ≡ cid
    pub message : a.header.message_id ≡ id
    pub index : a.header.frame_index ≡ i
    pub of_total : a.header.total_frames ≡ total
    pub holds : take a.header.size a.content ≡ chunk

  -- A frame of another message: it comes within the timeout, and not from another session of the
  -- same sender.
  pub record IsApart (a : Arrival) : Type 0 where
    pub other : ¬ ((a.mac ≡ mac) × (a.header.cid ≡ cid) × (a.header.message_id ≡ id))
    pub in_time : sub64 a.now started ≤ timeout_ms
    pub same_session : a.mac ≡ mac → a.header.cid ≡ cid

  -- The frames from fragment `i` on: the chunks in order, with frames of other messages between
  -- them, and the last chunk's frame at the end.
  pub data Stream : ℕ → List Bytes → List Arrival → Type 0 where
    last :
        {i : ℕ} {c : Bytes} {a : Arrival}
        → suc i ≡ total
        → IsFragment i c a
        → Stream i (c ∷ []) (a ∷ [])
    next :
        {i : ℕ} {c : Bytes} {cs : List Bytes} {a : Arrival} {later : List Arrival}
        → suc i < total
        → IsFragment i c a
        → Stream (suc i) cs later
        → Stream i (c ∷ cs) (a ∷ later)
    other :
        {i : ℕ} {cs : List Bytes} {a : Arrival} {later : List Arrival}
        → IsApart a
        → Stream i cs later
        → Stream i cs (a ∷ later)

  -- The slot waits for fragment `i` and holds what came before.
  pub record Waits (i : ℕ) (before : Bytes) (s : Slot) : Type 0 where
    pub mac_lem : s.mac ≡ mac
    pub cid_lem : s.cid ≡ cid
    pub active_lem : s.active ≡ true
    pub next_lem : s.next_frame ≡ i
    pub total_lem : s.total_frames ≡ total
    pub started_lem : s.started_at_ms ≡ started
    pub buffer_lem : s.buffer ≡ before

  module _ (many : 1 < total) (fits : total < 256) where
    Waits-append_fragment :
        (i : ℕ) (before chunk : Bytes) (s : Slot) (a : Arrival)
        → suc i ≤ total
        → Waits i before s
        → IsFragment i chunk a
        → Waits (suc i) (before ++ chunk) (append_fragment a.header a.content s)
    unfolding append_fragment
    Waits-append_fragment i before chunk s a more w f = ground arith

    not_claimable :
        (i : ℕ) (before : Bytes) (s : Slot) (a : Arrival)
        → Waits i before s
        → IsApart a
        → is_claimable a.mac a.header.cid a.now s ≡ false
    unfolding is_claimable
    not_claimable i before s a w p = ground (arith, bytes_eq_iff s.mac a.mac, p.in_time)

    expected :
        (i : ℕ) (chunk before : Bytes) (t : List Slot) (s : Slot) (a : Arrival)
        → suc i ≤ total
        → slot_of mac cid id t ≡ some s
        → Waits i before s
        → IsFragment i chunk a
        → let r = feed t a.mac a.header a.content a.now in
          (suc i < total → (slot_of mac cid id r.0 ≡ some (append_fragment a.header a.content s)))
          × (suc i ≡ total → r.1 ≡ complete (before ++ chunk))
    expected i chunk before t s a le at w f =
        let goal = λ (m : Bytes).
          (suc i < total
            → (slot_of mac cid id (feed t m a.header a.content a.now).0
                ≡ some (append_fragment a.header a.content s)))
          × (suc i ≡ total → (feed t m a.header a.content a.now).1 ≡ complete (before ++ chunk)) in
        let step =
          feed_expected mac cid id t s a.header a.content a.now at
            (f.session, f.message, λ e. absurd (omega arith)) (f.index ∙ sym w.next_lem)
            (f.of_total ∙ sym w.total_lem) (omega arith) in
        let whole : (append_fragment a.header a.content s).buffer ≡ before ++ chunk =
          (Waits-append_fragment i before chunk s a le w f).buffer_lem in
        subst goal (sym f.sender)
          (λ m. (step.0 (omega arith)).1, λ e. step.1 (omega arith) ∙ ap complete whole)

    -- From a slot that waits for fragment `i`, the last frame of the stream gives the whole message.
    pub run-Stream :
        (i : ℕ) (cs : List Bytes) (later : List Arrival) (t : List Slot) (s : Slot) (before : Bytes)
        (r : Result)
        → Stream i cs later
        → slot_of mac cid id t ≡ some s
        → Waits i before s
        → run t later r ≡ complete (before ++ joined cs)
    unfolding run joined
    run-Stream i cs later t s before r (last {c} {a} e f) at w =
        (expected i c before t s a (omega arith) at w f).1 e
        ∙ ap (λ x. complete (before ++ x)) (sym (append-nil c))
    run-Stream i cs later t s before r (next {c} {cs = rest} {a} {later = more} m f st) at w =
        run-Stream (suc i) rest more (feed t a.mac a.header a.content a.now).0
          (append_fragment a.header a.content s) (before ++ c)
          (feed t a.mac a.header a.content a.now).1 st
          ((expected i c before t s a (omega arith) at w f).0 m)
          (Waits-append_fragment i before c s a (omega arith) w f)
        ∙ ap complete (append_assoc before c (joined rest))
    run-Stream i cs later t s before r (other {a} {later = more} p st) at w =
        run-Stream i cs more (feed t a.mac a.header a.content a.now).0 s before
          (feed t a.mac a.header a.content a.now).1 st
          (feed_other mac cid id a.mac a.header p.other t s a.content a.now at
            (not_claimable i before s a w p))
          w

started-Waits :
    (mac : Bytes) (cid id total : ℕ) (a : Arrival) (chunk : Bytes) (s : Slot)
    → IsFragment mac cid id total a.now 0 chunk a
    → Waits mac cid id total a.now 1 chunk
        (append_fragment a.header a.content (start_slot a.mac a.header a.now s))
unfolding append_fragment start_slot
started-Waits mac cid id total a chunk s f = ground arith

-- A message of 2 to 255 fragments whose first fragment finds no slot for it and one to take, and
-- whose other fragments follow in order, with frames of other messages anywhere between them:
-- `feed` answers the last fragment with the whole message. The other frames come within the timeout
-- and not from another session of the same sender.
pub feed_whole_message :
    (t : List Slot) (mac : Bytes) (cid id total slot : ℕ) (first : Arrival) (chunk : Bytes)
    (chunks : List Bytes) (later : List Arrival)
    → 1 < total
    → total < 256
    → slot_of mac cid id t ≡ none
    → claim mac cid first.now t ≡ some slot
    → IsFragment mac cid id total first.now 0 chunk first
    → Stream mac cid id total first.now 1 chunks later
    → run t (first ∷ later) incomplete ≡ complete (joined (chunk ∷ chunks))
unfolding run joined
feed_whole_message t mac cid id total slot first chunk chunks later many fits free at f st =
    let h = first.header in
    let start = start_slot first.mac h first.now (get_slot t slot) in
    let r = feed t first.mac h first.content first.now in
    let free' : slot_of first.mac h.cid h.message_id t ≡ none =
      cc (f.sender, f.session, f.message) in
    let at' : claim first.mac h.cid first.now t ≡ some slot = cc (f.sender, f.session) in
    let step =
      feed_first first.mac t h first.content first.now slot free' at' f.index
        (omega (arith, f.of_total)) (omega (arith, f.of_total)) in
    let begun : slot_of mac cid id r.0 ≡ some (append_fragment h first.content start) =
      cc (step.1, f.sender, f.session, f.message) in
    run-Stream mac cid id total first.now many fits 1 chunks later r.0
      (append_fragment h first.content start) chunk r.1 st begun
      (started-Waits mac cid id total first chunk (get_slot t slot) f)
