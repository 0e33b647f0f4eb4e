-- ===== src/Frame/Reading.antt =====
-- Reading back a header that was laid out.
use night_mare_network.Base.{◌<◌, ◌≡◌, refl, Bytes, ◌++◌, length, arith}
use night_mare_network.Frame.{FrameHeader, parse_header, header_bytes}

-- Every field fits its C++ type.
pub record Fits (h : FrameHeader) : Type 0 where
  pub message_id : h.message_id < 65536
  pub version : h.version < 256
  pub frame_type : h.frame_type < 256
  pub cid : h.cid < 65536
  pub frame_index : h.frame_index < 256
  pub total_frames : h.total_frames < 256
  pub size : h.size < 65536

pub parse_header-header_bytes :
    (h : FrameHeader) (rest : Bytes) → Fits h → parse_header (header_bytes h ++ rest) ≡ h
unfolding parse_header header_bytes
parse_header-header_bytes h rest f = ground arith

pub length-header_bytes : (h : FrameHeader) → length (header_bytes h) ≡ 10
unfolding header_bytes
length-header_bytes h = refl
