-- ===== src/Sessions/Radio.antt =====
-- The calls of `PeerOps`, which the broker makes on ESP-NOW's peer table, and the radio's answers.
use night_mare_network.Base.{Bool, Bytes, List}

pub data PeerCall : Type 0 where
  added removed : Bytes → PeerCall
  secured : Bytes → Bytes → PeerCall

-- An answer depends on the calls made so far, newest first.
pub record PeerOps : Type 0 where
  pub add_answer : List PeerCall → Bytes → Bool
  pub secure_answer : List PeerCall → Bytes → Bytes → Bool
