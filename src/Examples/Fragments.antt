-- ===== src/Examples/Fragments.antt =====
-- Reassembly on concrete values.
use night_mare_network.Base.{
  ℕ, ◌≡◌, refl, Bytes, bytes_eq, if◌then◌else◌, none, List, [], ◌∷◌, length, arith, ap, get_or,
}
use night_mare_network.Frame.{FrameHeader}
use night_mare_network.Reassembly.{
  complete, incomplete, new_table, empty_slot, feed, claim, is_claimable, drop_sender, is_for,
}
use night_mare_network.Reassembly.Slots.{slot_of}
use night_mare_network.Reassembly.Streams.{
  Arrival, IsFragment, last, other, IsApart, run, joined, feed_whole_message,
}
use night_mare_network.Reassembly.Table.{
  IsValid, new_table-IsValid, feed-IsValid, slot_of-drop_sender,
}

abbrev sender : Bytes
sender = 1 ∷ 2 ∷ 3 ∷ 4 ∷ 5 ∷ 6 ∷ []

abbrev stranger : Bytes
stranger = 6 ∷ 5 ∷ 4 ∷ 3 ∷ 2 ∷ 1 ∷ []

abbrev part : ℕ → ℕ → Bytes → FrameHeader
part index total d = record {
  message_id = 8;
  version = 0;
  frame_type = 10;
  cid = 3;
  frame_index = index;
  total_frames = total;
  size = length d;
}

feed-IsValid_example : IsValid (feed new_table sender (part 0 2 (1 ∷ [])) (1 ∷ []) 100).0
feed-IsValid_example =
    feed-IsValid new_table sender (part 0 2 (1 ∷ [])) (1 ∷ []) 100 (omega arith) (omega arith)
      new_table-IsValid

slot_of-drop_sender_example :
    slot_of sender 3 8
      (drop_sender stranger (feed new_table sender (part 0 2 (1 ∷ [])) (1 ∷ []) 100).0)
    ≡ (if bytes_eq sender stranger
        then none
        else slot_of sender 3 8 (feed new_table sender (part 0 2 (1 ∷ [])) (1 ∷ []) 100).0)
slot_of-drop_sender_example =
    slot_of-drop_sender stranger sender 3 8
      (feed new_table sender (part 0 2 (1 ∷ [])) (1 ∷ []) 100).0

-- Two fragments of one message, and between them one of another sender's.
abbrev arrival : Bytes → ℕ → Bytes → ℕ → Arrival
arrival mac index d now = record { mac = mac; header = part index 2 d; content = d; now = now }

abbrev later : List Arrival
later = arrival stranger 0 (9 ∷ []) 110 ∷ arrival sender 1 (3 ∷ []) 120 ∷ []

IsFragment-of :
    (index now : ℕ) (d : Bytes)
    → length d ≡ 1
    → IsFragment sender 3 8 2 100 index d (arrival sender index d now)
IsFragment-of index now [] e = absurd (omega (arith, e))
IsFragment-of index now (x ∷ []) e = record {
  sender = refl;
  session = refl;
  message = refl;
  index = refl;
  of_total = refl;
  holds = refl;
}
IsFragment-of index now (x ∷ y ∷ d) e = absurd (omega (arith, e))

stranger-IsApart : IsApart sender 3 8 2 100 (arrival stranger 0 (9 ∷ []) 110)
stranger-IsApart = record {
  other = λ e. omega (arith, ap (λ (d : Bytes). get_or d 0 0) e.0);
  in_time = omega arith;
  same_session = λ e. refl;
}

feed_whole_message_example :
    run new_table (arrival sender 0 (1 ∷ []) 100 ∷ later) incomplete
    ≡ complete (joined ((1 ∷ []) ∷ (3 ∷ []) ∷ []))
unfolding new_table empty_slot slot_of claim is_claimable is_for
feed_whole_message_example =
    feed_whole_message new_table sender 3 8 2 0 (arrival sender 0 (1 ∷ []) 100) (1 ∷ [])
      ((3 ∷ []) ∷ []) later (omega arith) (omega arith) refl refl
      (IsFragment-of 0 100 (1 ∷ []) refl)
      (other stranger-IsApart (last refl (IsFragment-of 1 120 (3 ∷ []) refl)))
