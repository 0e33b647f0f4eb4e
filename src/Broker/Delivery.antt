-- ===== src/Broker/Delivery.antt =====
-- `espBroker_sendMessage`: the frames of a message.
use night_mare_network.Base.{
  ℕ, zero, suc, if◌then◌else◌, ◌==◌, ◌+◌, ◌-◌, ◌*◌, ◌%◌, ◌≤◌, ◌<◌, min, ◌≡◌, refl, sym, ap, ◌∙◌,
  inl, inr, true, false, Bytes, some, List, [], ◌∷◌, ◌++◌, length, take, drop, arith, Bool-cases,
  length-take, length-drop, take-append-drop, take-append_front, take_all, ltb, leb,
}
use night_mare_network.Frame.{
  Frame, message, type_code, empty_frame, make_frame, current_frame_version, overwrite,
}
use night_mare_network.Device.{Device, is_connected}
use night_mare_network.Broker.{Broker, Radio, next_id, new_message_id}
use night_mare_network.Broker.Sending.{
  frame_count, send_raw_frame, send_frame, send_fragments, send_raw_message,
}

-- Newest first.
pub pushed : Bytes → List Frame → List (Bytes × Frame) → List (Bytes × Frame)
pushed mac [] before = before
pushed mac (f ∷ fs) before = pushed mac fs ((mac, f) ∷ before)

pub contents : List Frame → Bytes
contents [] = []
contents (f ∷ fs) = take f.header.size f.area ++ contents fs

-- One frame of a message.
pub record IsPart (cid id total i : ℕ) (f : Frame) : Type 0 where
  pub is_message : f.header.frame_type ≡ type_code message
  pub session : f.header.cid ≡ cid
  pub of_message : f.header.message_id ≡ id
  pub index : f.header.frame_index ≡ i
  pub of_total : f.header.total_frames ≡ total
  pub fits : f.header.size ≤ 240

-- The frames from number `i` on, up to the last.
pub Numbered : ℕ → ℕ → ℕ → ℕ → List Frame → Type 0
Numbered cid id total i [] = i ≡ total
Numbered cid id total i (f ∷ fs) = IsPart cid id total i f × Numbered cid id total (suc i) fs

-- `raw` left for the radio as the frames of one message to `d`.
pub record Sends (b b' : Broker) (d : Device) (raw : Bytes) : Type 0 where
  pub frames : List Frame
  pub in_order : b'.sent ≡ pushed d.mac frames b.sent
  pub whole : contents frames ≡ raw
  pub numbered : Numbered d.cid b.next_message_id (frame_count (length raw)) 0 frames
  pub advances :
      b'.next_message_id ≡ (if b.next_message_id == 65535 then 1 else suc b.next_message_id)

take-min : (n : ℕ) (xs : Bytes) → take (min n (length xs)) xs ≡ take n xs
take-min n xs = elim (Bool-cases (leb n (length xs))) [
  | inl y ↦ ap (λ k. take k xs) (ground arith)
  | inr h ↦ ground (arith, take_all n xs, take_all (min n (length xs)) xs)
]

drop_empty : (n : ℕ) → drop {A = ℕ} n [] ≡ []
drop_empty zero = refl
drop_empty (suc n) = refl

drop-drop : (n m : ℕ) (xs : Bytes) → drop n (drop m xs) ≡ drop (m + n) xs
drop-drop n zero xs = ap (λ k. drop k xs) (omega arith)
drop-drop n (suc m) [] = drop_empty n ∙ sym (drop_empty (suc m + n))
drop-drop n (suc m) (x ∷ xs) =
    drop-drop n m xs ∙ ap (λ k. drop k (x ∷ xs)) {x = suc (m + n)} {y = suc m + n} (omega arith)

drop_all : (n : ℕ) (xs : Bytes) → length xs ≤ n → drop n xs ≡ []
drop_all zero [] h = refl
drop_all zero (x ∷ xs) h = absurd (omega (arith, h))
drop_all (suc n) [] h = refl
drop_all (suc n) (x ∷ xs) h = drop_all n xs (omega (arith, h))

module _ (radio : Radio) (d : Device) (id total : ℕ) (raw : Bytes) where
  fragment : ℕ → Frame
  unfolding type_code
  fragment i = record {
    header = record {
      message_id = id;
      version = current_frame_version;
      frame_type = type_code message;
      cid = d.cid;
      frame_index = i % 256;
      total_frames = total % 256;
      size = min 240 (length raw - i * 240) % 65536;
    };
    area = overwrite empty_frame.area (take (min 240 (length raw - i * 240)) (drop (i * 240) raw));
  }

  make_frame-fragment :
      (i : ℕ)
      → make_frame empty_frame message id d.cid
          (some (drop (i * 240) raw))
          (min 240 (length raw - i * 240))
          (i % 256)
          (total % 256)
        ≡ (fragment i, true)
  unfolding make_frame fragment
  make_frame-fragment i = ground arith

  fragments : ℕ → ℕ → List Frame
  fragments zero i = []
  fragments (suc left) i = fragment i ∷ fragments left (suc i)

  fragment-IsPart : (i : ℕ) → i < 256 → total < 256 → IsPart d.cid id total i (fragment i)
  unfolding fragment
  fragment-IsPart i h t = record {
    is_message = ground arith;
    session = ground arith;
    of_message = ground arith;
    index = ground arith;
    of_total = ground arith;
    fits = ground arith;
  }

  fragments-Numbered :
      (left i : ℕ) → i + left ≡ total → total < 256 → Numbered d.cid id total i (fragments left i)
  unfolding Numbered fragments
  fragments-Numbered zero i h t = omega (arith, h)
  fragments-Numbered (suc left) i h t =
      (fragment-IsPart i (omega (arith, h)) t, fragments-Numbered left (suc i) (omega (arith, h)) t)

  fragment-content :
      (i : ℕ) → take (fragment i).header.size (fragment i).area ≡ take 240 (drop (i * 240) raw)
  unfolding fragment overwrite
  fragment-content i =
      let rest = drop (i * 240) raw in
      let size = length-drop (i * 240) raw in
      let m = min 240 (length raw - i * 240) in
      let small : m % 65536 ≡ m = omega arith in
      let sized : m ≡ min 240 (length rest) = omega (arith, size) in
      let long : m ≡ length (take m rest) = omega (arith, length-take m rest, size) in
      ap (λ k. take k (fragment i).area) small
      ∙ take-append_front (take m rest) (drop (length (take m rest)) empty_frame.area) m long
      ∙ ap (λ k. take k rest) sized
      ∙ take-min 240 rest

  fragments-contents :
      (left i : ℕ)
      → length raw ≤ (i + left) * 240
      → contents (fragments left i) ≡ drop (i * 240) raw
  unfolding contents fragments
  fragments-contents zero i h = sym (drop_all (i * 240) raw (omega (arith, h)))
  fragments-contents (suc left) i h =
      let next : suc i * 240 ≡ i * 240 + 240 = omega arith in
      let later =
        fragments-contents left (suc i) (omega (arith, h))
        ∙ ap (λ k. drop k raw) next
        ∙ sym (drop-drop 240 (i * 240) raw) in
      rw (fragment-content i, later) (take-append-drop 240 (drop (i * 240) raw))

  fragment_fits : (i : ℕ) → (fragment i).header.size ≤ 240
  unfolding fragment
  fragment_fits i = omega arith

  send_fragments-sent :
      ((sent : List (Bytes × Frame)) (mac : Bytes) (f : Frame)
        → radio.send_answer sent mac f ≡ true)
      → is_connected d ≡ true
      → (left i : ℕ) (b : Broker)
      → ((send_fragments radio b d id raw total left i).1 ≡ true)
        × ((send_fragments radio b d id raw total left i).0.sent
            ≡ pushed d.mac (fragments left i) b.sent)
        × ((send_fragments radio b d id raw total left i).0.next_message_id ≡ b.next_message_id)
  unfolding send_fragments fragments pushed send_frame send_raw_frame
  send_fragments-sent answers up zero i b = (refl, refl, refl)
  send_fragments-sent answers up (suc left) i b =
      let f = fragment i in
      let b' = record b { sent = (d.mac, f) ∷ b.sent } in
      let ih = send_fragments-sent answers up left (suc i) b' in
      let small : ltb 240 f.header.size ≡ false = ground (arith, fragment_fits i) in
      rw (make_frame-fragment i, up, small, answers b.sent d.mac f) ih

next_id_lem : (id : ℕ) → id < 65536 → next_id id ≡ (if id == 65535 then 1 else suc id)
unfolding next_id
next_id_lem id bound = ground arith

send_raw_message_lem :
    (radio : Radio) (b : Broker) (d : Device) (raw : Bytes)
    → 0 < length raw
    → length raw ≤ 61200
    → send_raw_message radio b d raw
      ≡ send_fragments radio
          (new_message_id b).0
          d
          b.next_message_id
          raw
          (frame_count (length raw))
          (frame_count (length raw))
          0
unfolding send_raw_message frame_count new_message_id
send_raw_message_lem radio b d [] some_bytes fits = absurd (omega (arith, some_bytes))
send_raw_message_lem radio b d (c ∷ raw) some_bytes fits = ground arith

-- A message of 1 to 61200 bytes for a connected device, where the radio takes every frame: the call
-- succeeds, and the frames that leave, in order, are numbered from 0 under the broker's next message
-- id and the device's cid, at most 240 bytes each, as many as the header says, and hold the bytes of
-- the message. The broker's next message id, below 65536, then moves on by one, from 65535 to 1.
pub send_raw_message-Sends :
    (radio : Radio) (b : Broker) (d : Device) (raw : Bytes)
    → ((sent : List (Bytes × Frame)) (mac : Bytes) (f : Frame)
        → radio.send_answer sent mac f ≡ true)
    → is_connected d ≡ true
    → 0 < length raw
    → length raw ≤ 61200
    → b.next_message_id < 65536
    → ((send_raw_message radio b d raw).1 ≡ true) × Sends b (send_raw_message radio b d raw).0 d raw
unfolding frame_count new_message_id
send_raw_message-Sends radio b d raw answers up some_bytes fits bound =
    let total = frame_count (length raw) in
    let id = b.next_message_id in
    let b' = (new_message_id b).0 in
    let run = send_fragments-sent radio d id total raw answers up total 0 b' in
    let went : send_raw_message radio b d raw ≡ send_fragments radio b' d id raw total total 0 =
      send_raw_message_lem radio b d raw some_bytes fits in
    let same : b'.sent ≡ b.sent = refl in
    (
      ap (λ r. r.1) went ∙ run.0,
      record {
        frames = fragments radio d id total raw total 0;
        in_order =
            ap (λ r. r.0.sent) went
            ∙ run.1
            ∙ ap (pushed d.mac (fragments radio d id total raw total 0)) same;
        whole = fragments-contents radio d id total raw total 0 (omega (arith, some_bytes, fits));
        numbered =
            fragments-Numbered radio d id total raw total 0 (omega (arith, some_bytes, fits))
              (omega (arith, some_bytes, fits));
        advances = ap (λ r. r.0.next_message_id) went ∙ run.2 ∙ next_id_lem id bound;
      },
    )
