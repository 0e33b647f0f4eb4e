-- ===== src/Message/Codec.antt =====
-- Encoding and decoding a message.
use night_mare_network.Base.{
  ℕ, zero, ap, get_or, take, suc, ◌+◌, ◌<◌, ◌≡◌, refl, sym, ◌⊎◌, inl, inr, Bool, true, false, not,
  ◌&&◌, ◌||◌, ltb, Bytes, [], ◌∷◌, ◌++◌, length, length-append, take-append-drop, length-take,
  take-append_front, drop-append_front, arith, if◌then◌else◌, Bool-cases, ◌==◌, bit_and,
}
use night_mare_network.Topic.{is_valid_publish_topic}
use night_mare_network.Message.{
  Message, no_message, local_to_remote, from_raw_data, to_raw_data, first_byte, retained_flag,
  topic_length_mask,
}

abbrev pub flag_set : ℕ → Bool
flag_set b = not (bit_and b retained_flag == 0)

-- The two fields of the first byte, for every length of six bits.
abbrev fields_apart : Bool → ℕ → Bool
fields_apart p n =
    (bit_and (first_byte p n) topic_length_mask == n)
    && (if p then flag_set (first_byte p n) else not (flag_set (first_byte p n)))

-- They are read back apart for every length under a bound.
lengths_hold : Bool → ℕ → Bool
lengths_hold flag zero = true
lengths_hold flag (suc bound) = if fields_apart flag bound then lengths_hold flag bound else false

lengths_hold-fields_apart :
    (flag : Bool) (bound size : ℕ)
    → size < bound
    → lengths_hold flag bound ≡ true
    → fields_apart flag size ≡ true
unfolding lengths_hold
lengths_hold-fields_apart flag zero size room all = absurd (omega (arith, room))
lengths_hold-fields_apart flag (suc bound) size room all = elim (Bool-cases (size == bound)) [
  | inl last ↦ ground arith
  | inr before ↦ ground (arith, lengths_hold-fields_apart flag bound size)
]

six_bits : (flag : Bool) → lengths_hold flag 64 ≡ true
unfolding lengths_hold first_byte
six_bits true = refl
six_bits false = refl

first_byte_fields :
    (p : Bool) (n : ℕ)
    → n < 64
    → (bit_and (first_byte p n) topic_length_mask ≡ n) × (flag_set (first_byte p n) ≡ p)
first_byte_fields true n h =
    let apart = lengths_hold-fields_apart true 64 n h (six_bits true) in ground arith
first_byte_fields false n h =
    let apart = lengths_hold-fields_apart false 64 n h (six_bits false) in ground arith

pub valid-length : (t : Bytes) → is_valid_publish_topic t ≡ true → (0 < length t) × (length t < 64)
unfolding is_valid_publish_topic
valid-length [] h = cc
valid-length (x ∷ xs) h = ground arith

abbrev pub arrived : Message → Message
arrived m = record m { direction = local_to_remote }

-- A message whose topic may be published is read back from its encoding, as one that comes from a
-- device: with the same topic, payload and retained flag.
pub from_raw_data-to_raw_data :
    (m : Message)
    → is_valid_publish_topic m.topic ≡ true
    → from_raw_data (to_raw_data m) ≡ arrived m
unfolding to_raw_data from_raw_data
from_raw_data-to_raw_data m h =
    let (pos, short) = valid-length m.topic h in
    let (len, flag) = first_byte_fields m.persistent (length m.topic) short in
    rw (h, len)
      (ground (
        arith,
        flag,
        take-append_front m.topic m.payload (length m.topic) refl,
        drop-append_front m.topic m.payload (length m.topic) refl,
        length-append m.topic m.payload,
      ))

-- Whatever was received, the empty buffer included: either there is no message, and there is no first
-- byte, or the topic's length in it is 0 or runs past the buffer; or the buffer is its first byte, the
-- topic, as long as that byte says, and the payload, with nothing lost, the retained flag is the byte's,
-- and the message comes from a device.
pub from_raw_data_exact :
    (d : Bytes)
    → let m = from_raw_data d in
      let n = bit_and (get_or d 0 0) topic_length_mask in
      ((m ≡ no_message) × ((d ≡ []) ⊎ ((n ≡ 0) ⊎ (length d < 1 + n))))
      ⊎ ((b : ℕ) × (d ≡ b ∷ (m.topic ++ m.payload))
          × (length m.topic ≡ bit_and b topic_length_mask)
          × (0 < length m.topic)
          × (m.persistent ≡ flag_set b)
          × (m.direction ≡ local_to_remote))
unfolding from_raw_data
from_raw_data_exact [] = inl (refl, inl refl)
from_raw_data_exact (b ∷ d) =
    let n = bit_and b topic_length_mask in
    elim (Bool-cases (n == 0 || ltb (length (b ∷ d)) (1 + n))) [
      | inl e ↦ rw e (inl (refl, inr (ground arith)))
      | inr e ↦
          let sized : length (take n d) ≡ n = ground (arith, length-take n d) in
          rw e (
            inr (
              b,
              ap (λ (t : Bytes). b ∷ t) (sym (take-append-drop n d)),
              sized,
              ground (arith, sized),
              refl,
              refl,
            ))
    ]
