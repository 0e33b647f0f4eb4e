-- ===== src/Auth/Layout.antt =====
-- What the HMAC is taken over.
use night_mare_network.Base.{
  ℕ, zero, suc, Bool, Option, ◌+◌, ◌/◌, ◌^◌, ◌<◌, ◌≡◌, ◌≢◌, refl, ap, sym, ◌∙◌, Bytes, [], ◌∷◌,
  ◌++◌, length, take, arith, length-append, length-take,
}
use night_mare_network.Frame.{le_bytes, le_value}
use night_mare_network.Frame.Beacon.{le_value-le_bytes}
use night_mare_network.Auth.{
  HandshakeContext, derive_message, auth_label, lmk_label, pmk_label, mac_size, key_size,
  hmac_truncated, derive, auth_proof, session_lmk, network_pmk,
}

length-le_bytes : (k n : ℕ) → length (le_bytes k n) ≡ k
unfolding le_bytes
length-le_bytes zero n = refl
length-le_bytes (suc k) n = ap suc (length-le_bytes k (n / 256))

append-split : (a b x y : Bytes) → length a ≡ length b → a ++ x ≡ b ++ y → (a ≡ b) × (x ≡ y)
append-split [] [] x y e h = (refl, h)
append-split [] (c ∷ b) x y e h = absurd (omega (arith, e))
append-split (c ∷ a) [] x y e h = absurd (omega (arith, e))
append-split (c ∷ a) (d ∷ b) x y e h =
    let tails : a ++ x ≡ b ++ y = cc (h) in
    let heads : c ≡ d = cc (h) in
    let rest = append-split a b x y (omega (arith, e)) tails in (cc (heads, rest.0), rest.1)

-- The fields have the sizes that their types give them.
pub record IsContext (c : HandshakeContext) : Type 0 where
  pub client : length c.client_mac ≡ mac_size
  pub gateway : length c.gateway_mac ≡ mac_size
  pub client_fits : c.client_nonce < 2 ^ 64
  pub gateway_fits : c.gateway_nonce < 2 ^ 64

le_bytes-injective : (k n m : ℕ) → n < 256 ^ k → m < 256 ^ k → le_bytes k n ≡ le_bytes k m → n ≡ m
le_bytes-injective k n m hn hm e =
    sym (le_value-le_bytes k n [] hn)
    ∙ ap (λ d. le_value k (d ++ [])) e
    ∙ le_value-le_bytes k m [] hm

length-mac : (mac : Bytes) → length mac ≡ mac_size → length (take mac_size mac) ≡ mac_size
length-mac mac h = omega (arith, length-take mac_size mac, h)

take-all : (n : ℕ) (d : Bytes) → length d ≡ n → take n d ≡ d
take-all zero [] h = refl
take-all zero (c ∷ d) h = absurd (omega (arith, h))
take-all (suc n) [] h = refl
take-all (suc n) (c ∷ d) h = ap (λ r. c ∷ r) (take-all n d (omega (arith, h)))

-- The message that the HMAC is taken over determines the whole context: under one label, two
-- contexts with six-byte MACs and 64-bit nonces have the same message only if they are the same.
pub derive_message-injective :
    (label : Bytes) (c c' : HandshakeContext)
    → IsContext c
    → IsContext c'
    → derive_message label c ≡ derive_message label c'
    → c ≡ c'
unfolding derive_message
derive_message-injective label c c' v v' e =
    let behind = append-split label label _ _ refl e in
    let clients =
      append-split (take mac_size c.client_mac) (take mac_size c'.client_mac) _ _
        (length-mac c.client_mac v.client ∙ sym (length-mac c'.client_mac v'.client)) behind.1 in
    let gateways =
      append-split (take mac_size c.gateway_mac) (take mac_size c'.gateway_mac) _ _
        (length-mac c.gateway_mac v.gateway ∙ sym (length-mac c'.gateway_mac v'.gateway))
        clients.1 in
    let nonces =
      append-split (le_bytes 8 c.client_nonce) (le_bytes 8 c'.client_nonce) _ _
        (length-le_bytes 8 c.client_nonce ∙ sym (length-le_bytes 8 c'.client_nonce)) gateways.1 in
    cc (
      take-all mac_size c.client_mac v.client,
      take-all mac_size c'.client_mac v'.client,
      take-all mac_size c.gateway_mac v.gateway,
      take-all mac_size c'.gateway_mac v'.gateway,
      clients.0,
      gateways.0,
      le_bytes-injective 8 c.client_nonce c'.client_nonce v.client_fits v'.client_fits nonces.0,
      le_bytes-injective 8 c.gateway_nonce c'.gateway_nonce v.gateway_fits v'.gateway_fits nonces.1,
    )

length-derive_message :
    (label : Bytes) (c : HandshakeContext)
    → IsContext c
    → length (derive_message label c) ≡ length label + 28
unfolding derive_message
length-derive_message label c v = omega (
  arith,
  length-append label (
      take mac_size c.client_mac
      ++ (take mac_size c.gateway_mac
          ++ (le_bytes 8 c.client_nonce ++ le_bytes 8 c.gateway_nonce))),
  length-append (take mac_size c.client_mac)
      (take mac_size c.gateway_mac ++ (le_bytes 8 c.client_nonce ++ le_bytes 8 c.gateway_nonce)),
  length-append (take mac_size c.gateway_mac)
      (le_bytes 8 c.client_nonce ++ le_bytes 8 c.gateway_nonce),
  length-append (le_bytes 8 c.client_nonce) (le_bytes 8 c.gateway_nonce),
  length-le_bytes 8 c.client_nonce,
  length-le_bytes 8 c.gateway_nonce,
  length-mac c.client_mac v.client,
  length-mac c.gateway_mac v.gateway,
)

-- What a function of the HMAC gives is the truncated HMAC of one message, whatever the HMAC and key.
abbrev pub IsTakenOver : ((Bytes → Bytes → Option Bytes) → Bytes → Bytes × Bool) → Bytes → Type 0
IsTakenOver f message =
    (hmac : Bytes → Bytes → Option Bytes) (psk : Bytes)
    → f hmac psk ≡ hmac_truncated hmac psk message key_size

-- The proof of one handshake, the session key of another or the same, and the network's primary key
-- are the HMAC, cut to 16 bytes, of three messages, and no two of the messages are the same, whatever
-- the contexts with six-byte MACs: the proof that goes over the air is never made as a key is.
pub labels-apart :
    (c c' : HandshakeContext)
    → IsContext c
    → IsContext c'
    → (proof : Bytes) × (lmk : Bytes) × (pmk : Bytes) × (IsTakenOver
          (λ hmac psk. auth_proof hmac psk c)
          proof
        × IsTakenOver (λ hmac psk. session_lmk hmac psk c') lmk
        × IsTakenOver network_pmk pmk
        × (proof ≢ lmk)
        × (proof ≢ pmk)
        × (lmk ≢ pmk))
unfolding auth_proof session_lmk network_pmk derive
labels-apart c c' v v' =
    let sized = length-derive_message auth_label c v in
    let keyed = length-derive_message lmk_label c' v' in
    (
      derive_message auth_label c,
      derive_message lmk_label c',
      pmk_label,
      (
        λ hmac psk. refl,
        λ hmac psk. refl,
        λ hmac psk. refl,
        λ e. omega (arith, sized, keyed, ap (length {A = ℕ}) e),
        λ e. omega (arith, sized, ap (length {A = ℕ}) e),
        λ e. omega (arith, keyed, ap (length {A = ℕ}) e),
      ),
    )
