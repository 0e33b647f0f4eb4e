-- ===== src/Auth.antt =====
-- Session authentication: src/Network/EspNow/NightMareEspNow/Auth.h and Auth.cpp. HMAC-SHA256 is
-- mbedtls's and a parameter, which gives the digest, or `none` where mbedtls fails. A key that is
-- null is the empty key. What a buffer held before it is filled or wiped is left out.
pub mod Layout
pub mod Compare
use Prim.Native.Nat.{bit_xor}
use night_mare_network.Base.{
  ℕ, zero, suc, Bool, true, false, ◌==◌, ltb, if◌then◌else◌, Bytes, is_empty, Option, none, some,
  [], ◌∷◌, ◌++◌, length, get_or, take, replicate, bit_or,
}
use night_mare_network.Frame.{le_bytes}

pub record HandshakeContext : Type 0 where
  pub client_mac : Bytes
  pub gateway_mac : Bytes
  pub client_nonce : ℕ  -- uint64
  pub gateway_nonce : ℕ  -- uint64

abbrev pub auth_label : Bytes
auth_label = b'N' ∷ b'M' ∷ b'-' ∷ b'A' ∷ b'U' ∷ b'T' ∷ b'H' ∷ []

abbrev pub lmk_label : Bytes
lmk_label = b'N' ∷ b'M' ∷ b'-' ∷ b'L' ∷ b'M' ∷ b'K' ∷ []

abbrev pub pmk_label : Bytes
pmk_label = b'N' ∷ b'M' ∷ b'-' ∷ b'P' ∷ b'M' ∷ b'K' ∷ []

abbrev pub max_label_length : ℕ
max_label_length = 8

abbrev pub mac_size : ℕ
mac_size = 6

-- `ProofSize`, `LmkSize` and `PmkSize`.
abbrev pub key_size : ℕ
key_size = 16

-- The message that `derive` builds behind its label.
unfoldable pub derive_message : Bytes → HandshakeContext → Bytes
unfolding le_bytes
derive_message label c =
    label
    ++ (take mac_size c.client_mac
        ++ (take mac_size c.gateway_mac
            ++ (le_bytes 8 c.client_nonce ++ le_bytes 8 c.gateway_nonce)))

-- The loop of `constantTimeEqual` from index `i`, with `left` bytes to go.
unfoldable pub difference : Bytes → Bytes → ℕ → ℕ → ℕ → ℕ
difference a b zero i so_far = so_far
difference a b (suc left) i so_far =
    difference a b left (suc i) (bit_or so_far (bit_xor (get_or a i 0) (get_or b i 0)))

unfoldable pub constant_time_equal : Bytes → Bytes → ℕ → Bool
unfolding difference
constant_time_equal a b size = difference a b size 0 0 == 0

module _ (hmac : Bytes → Bytes → Option Bytes) where
  -- The bytes written to `out` and the result.
  unfoldable pub hmac_truncated : Bytes → Bytes → ℕ → Bytes × Bool
  hmac_truncated psk message size =
      if is_empty psk then (replicate size 0, false) else elim (hmac psk message) [
        | none ↦ (replicate size 0, false)
        | some digest ↦ (take size digest, true)
      ]

  unfoldable pub derive : Bytes → Bytes → HandshakeContext → ℕ → Bytes × Bool
  unfolding hmac_truncated derive_message
  derive label psk c size =
      if ltb max_label_length (length label)
      then (replicate size 0, false)
      else hmac_truncated psk (derive_message label c) size

  unfoldable pub auth_proof : Bytes → HandshakeContext → Bytes × Bool
  unfolding derive
  auth_proof psk c = derive auth_label psk c key_size

  unfoldable pub session_lmk : Bytes → HandshakeContext → Bytes × Bool
  unfolding derive
  session_lmk psk c = derive lmk_label psk c key_size

  unfoldable pub network_pmk : Bytes → Bytes × Bool
  unfolding hmac_truncated
  network_pmk psk = hmac_truncated psk pmk_label key_size
