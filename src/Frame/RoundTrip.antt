-- ===== src/Frame/RoundTrip.antt =====
-- What `makeFrame` builds and the radio carries, `decodeFrame` reads back.
use night_mare_network.Base.{
  ℕ, ◌+◌, ◌≤◌, ◌<◌, ◌≡◌, refl, ap, sym, ◌∙◌, Bool, true, Bytes, some, ◌++◌, length, length-append,
  take, drop, take-append_front, drop-append_front, take_all, arith,
}
use night_mare_network.Frame.{
  FrameType, type_code, FrameHeader, Frame, ok, parse_header, header_bytes, frame_bytes,
  decode_frame, make_frame, overwrite, max_frame_data_size,
}
use night_mare_network.Frame.Accept.{
  Allowed, Fragments, IsSound, IsWellFormed, IsWellFormed-validate_frame, type_code_lt,
}
use night_mare_network.Frame.Reading.{Fits, parse_header-header_bytes, length-header_bytes}

-- A frame that holds `payload` in the first bytes of its array.
pub record Carries (t : FrameType) (payload : Bytes) (f : Frame) : Type 0 where
  pub fits : Fits f.header
  pub sound : IsSound t f.header
  pub version_zero : f.header.version ≡ 0
  pub size_payload : f.header.size ≡ length payload
  pub short : length payload ≤ max_frame_data_size
  pub stored : take f.header.size f.area ≡ payload

module _ (t : FrameType) (payload : Bytes) (f : Frame) (c : Carries t payload f) where
  packet : frame_bytes f ≡ header_bytes f.header ++ payload
  unfolding frame_bytes
  packet = rw c.stored

  parsed : parse_header (frame_bytes f) ≡ f.header
  parsed = rw packet (parse_header-header_bytes f.header payload c.fits)

  length-packet : length (frame_bytes f) ≡ 10 + length payload
  length-packet = rw packet (
      length-append (header_bytes f.header) payload
      ∙ ap (λ n. n + length payload) (length-header_bytes f.header))

  read_back : take f.header.size (drop 10 (frame_bytes f)) ≡ payload
  read_back =
      rw
        (
          packet,
          drop-append_front (header_bytes f.header) payload 10 (sym (length-header_bytes f.header)),
        )
        (take_all f.header.size payload (omega (arith, c.size_payload)))

  packet-IsWellFormed : IsWellFormed (frame_bytes f)
  packet-IsWellFormed = record {
    long_enough = rw length-packet (omega arith);
    short_enough = rw length-packet (omega (arith, c.short));
    version_zero = rw parsed c.version_zero;
    whole = rw (parsed, length-packet) (omega (arith, c.size_payload));
    kind = t;
    sound = rw parsed c.sound;
  }

  -- A frame that carries a payload is decoded to the same header and payload; the rest of the
  -- receiver's array is as it was.
  pub decode_frame-frame_bytes :
      (out : Frame)
      → decode_frame out (frame_bytes f)
        ≡ (record { header = f.header; area = overwrite out.area payload }, ok)
  unfolding decode_frame
  decode_frame-frame_bytes out =
      rw (IsWellFormed-validate_frame (frame_bytes f) packet-IsWellFormed, decode_frame)
        (rw (parsed, read_back) refl)

module _ (out receiver : Frame) (t : FrameType) (message_id cid : ℕ) (payload : Bytes)
    (frame_index total_frames : ℕ) (short : length payload ≤ max_frame_data_size) where
  abbrev built : Frame × Bool
  built = make_frame out t message_id cid (some payload) (length payload) frame_index total_frames

  abbrev header : FrameHeader
  header = record {
    message_id = message_id;
    version = 0;
    frame_type = type_code t;
    cid = cid;
    frame_index = frame_index;
    total_frames = total_frames;
    size = length payload;
  }

  pub make_frame-built :
      built ≡ (record { header = header; area = overwrite out.area payload }, true)
  unfolding make_frame
  make_frame-built = ground (arith, take_all (length payload) payload)

  built-Carries :
      message_id < 65536
      → cid < 65536
      → frame_index < total_frames
      → total_frames < 256
      → Fragments t total_frames
      → Allowed t cid (length payload)
      → Carries t payload built.0
  unfolding overwrite
  built-Carries hm hc hi ht fr al = rw make_frame-built (record {
    fits = ground (arith, type_code_lt t);
    sound = record { typed = refl; in_range = hi; fragments = fr; allowed = al };
    version_zero = refl;
    size_payload = refl;
    short = short;
    stored = take-append_front payload (drop (length payload) out.area) (length payload) refl;
  })

  -- `makeFrame` accepts a payload of at most 240 bytes. If the fields fit their types, the fragment
  -- fields are in range and the type's rules on fragments, `cid` and size hold, then the packet
  -- that goes out is decoded to the same header, version 0, and the same payload.
  pub decode_frame-make_frame :
      message_id < 65536
      → cid < 65536
      → frame_index < total_frames
      → total_frames < 256
      → Fragments t total_frames
      → Allowed t cid (length payload)
      → (built.1 ≡ true)
        × (decode_frame receiver (frame_bytes built.0)
            ≡ (record { header = header; area = overwrite receiver.area payload }, ok))
  decode_frame-make_frame hm hc hi ht fr al =
      let carried =
        decode_frame-frame_bytes t payload built.0 (built-Carries hm hc hi ht fr al) receiver in
      (
        ap (λ r. r.1) make_frame-built,
        carried
            ∙ ap (λ r. (record { header = r.0.header; area = overwrite receiver.area payload }, ok))
                make_frame-built,
      )
