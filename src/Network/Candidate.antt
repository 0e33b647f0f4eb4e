-- ===== src/Network/Candidate.antt =====
-- What a gateway announces of itself: `GatewayCandidateHandleMessage` of
-- src/Network/GatewayCandidate.cpp. `parse` is ArduinoJson's reading of a document, with the defaults
-- of the fields that are not there.
use night_mare_network.Base.{
  ℕ, ◌-◌, ◌≡◌, refl, Bool, true, false, not, ◌&&◌, ◌||◌, ◌==◌, leb, if◌then◌else◌, if_ind,
  option_ind, Bytes, bytes_eq, bytes_eq_sound, is_empty, Option, none, some, [], ◌∷◌, length, take,
  drop, arith, subst, sym,
}
use night_mare_network.Network.Routing.{Build, GatewayCandidateStatus, Services}
use night_mare_network.Network.State.{Coordinator, Drivers, Owners}
use night_mare_network.Network.Coordinator.{on_connectivity_state_changed}

pub record Announcement : Type 0 where
  pub schema : ℕ
  pub id : Bytes
  pub generation : Bytes
  pub kind : Bytes
  pub says_online : Bool
  pub esp_now : Bool
  pub remote_mqtt : Bool
  pub local_mqtt : Bool
  pub ssid : Bytes
  pub bssid : Bytes
  pub channel : ℕ

-- "/gateway/network", "/status" and "gateway".
abbrev pub gateway_kind : Bytes
gateway_kind = b'g' ∷ b'a' ∷ b't' ∷ b'e' ∷ b'w' ∷ b'a' ∷ b'y' ∷ []

abbrev pub network_suffix : Bytes
network_suffix =
    b'/' ∷ b'g' ∷ b'a' ∷ b't' ∷ b'e' ∷ b'w' ∷ b'a' ∷ b'y' ∷ b'/' ∷ b'n' ∷ b'e' ∷ b't' ∷ b'w' ∷ b'o'
    ∷ b'r' ∷ b'k' ∷ []

abbrev pub status_suffix : Bytes
status_suffix = b'/' ∷ b's' ∷ b't' ∷ b'a' ∷ b't' ∷ b'u' ∷ b's' ∷ []

unfoldable pub ends_with : Bytes → Bytes → Bool
unfolding bytes_eq
ends_with text suffix =
    leb (length suffix) (length text) && bytes_eq (drop (length text - length suffix) text) suffix

unfoldable pub has_slash : Bytes → Bool
has_slash [] = false
has_slash (c ∷ cs) = c == b'/' || has_slash cs

-- What stands before a suffix, if that is a single level.
unfoldable pub level_before : Bytes → Bytes → Option Bytes
unfolding ends_with has_slash
level_before topic suffix =
    let id = take (length topic - length suffix) topic in
    if not (ends_with topic suffix) || leb (length topic) (length suffix)
    then none
    else if has_slash id
    then none
    else some id

unfoldable pub topic_gateway_id : Bytes → Option Bytes
unfolding level_before
topic_gateway_id topic = elim (level_before topic network_suffix) [
  | none ↦ none
  | some id ↦ if leb (length id) 64 then some id else none
]

-- The tests that both kinds of message pass.
unfoldable pub is_announced : Announcement → Bytes → Bool
unfolding bytes_eq
is_announced a id =
    a.schema == 1 && bytes_eq a.id id && not (is_empty a.id) && not (is_empty a.generation)

unfoldable pub candidate_of : Announcement → GatewayCandidateStatus
candidate_of a = record {
  known = a.says_online;
  id = a.id;
  generation = a.generation;
  esp_now_ready = a.esp_now;
  remote_mqtt_ready = a.remote_mqtt;
  local_mqtt_ready = a.local_mqtt;
  ssid = a.ssid;
  bssid = a.bssid;
  channel = a.channel;
}

unfoldable pub take_network :
    GatewayCandidateStatus → Announcement → Bytes → GatewayCandidateStatus × Bool
unfolding is_announced candidate_of
take_network current a id = if is_announced a id then (candidate_of a, true) else (current, false)

-- The status of the candidate's own generation, if it says that the gateway is gone.
unfoldable pub take_status :
    GatewayCandidateStatus → Announcement → Bytes → GatewayCandidateStatus × Bool
unfolding is_announced bytes_eq
take_status current a id =
    if not (is_announced a id) || not (bytes_eq a.kind gateway_kind)
    then (current, false)
    else if bytes_eq current.id a.id
        && bytes_eq current.generation a.generation
        && not a.says_online
    then (record current { known = false }, true)
    else (current, true)

module _ (parse : Bytes → Option Announcement) where
  unfoldable pub handle_announcement :
      GatewayCandidateStatus → Bytes → Bytes → Bool → GatewayCandidateStatus × Bool
  handle_announcement current topic payload retained =
      if not retained then (current, false) else elim (topic_gateway_id topic) [
        | some id ↦ elim (parse payload) [
          | none ↦ (current, false)
          | some a ↦ take_network current a id
        ]
        | none ↦ elim (level_before topic status_suffix) [
          | none ↦ (current, false)
          | some id ↦ elim (parse payload) [
            | none ↦ (current, false)
            | some a ↦ take_status current a id
          ]
        ]
      ]

  -- With the coordinator, which looks at the route again.
  unfoldable pub gateway_candidate_handle_message :
      Drivers → Build → Owners → Services → Coordinator → Bytes → Bytes → Bool → Coordinator × Bool
  gateway_candidate_handle_message drivers build owners services c topic payload retained =
      let (candidate, taken) = handle_announcement c.candidate topic payload retained in
      if taken
      then (
        on_connectivity_state_changed drivers build owners services
            (record c { candidate = candidate }),
        true,
      )
      else (c, false)

-- A candidate that is known has an id, of one level, and a generation.
pub record IsIdentified (candidate : GatewayCandidateStatus) : Type 0 where
  pub id : not candidate.known || not (is_empty candidate.id) ≡ true
  pub level : not candidate.known || not (has_slash candidate.id) ≡ true
  pub generation : not candidate.known || not (is_empty candidate.generation) ≡ true

level_before-has_slash :
    (topic suffix id : Bytes) → level_before topic suffix ≡ some id → has_slash id ≡ false
unfolding level_before
level_before-has_slash topic suffix id e =
    let before = take (length topic - length suffix) topic in
    if_ind (λ (o : Option Bytes). o ≡ some id → has_slash id ≡ false)
      (not (ends_with topic suffix) || leb (length topic) (length suffix)) (λ y f. absurd cc)
      (λ n.
        if_ind (λ (o : Option Bytes). o ≡ some id → has_slash id ≡ false) (has_slash before)
          (λ y f. absurd cc) (λ m f. cc))
      e

topic_gateway_id-has_slash :
    (topic id : Bytes) → topic_gateway_id topic ≡ some id → has_slash id ≡ false
unfolding topic_gateway_id
topic_gateway_id-has_slash topic id e =
    option_ind (λ (o : Option Bytes). o ≡ some id → has_slash id ≡ false)
      (level_before topic network_suffix) (λ f g. absurd cc)
      (λ before f.
        if_ind (λ (o : Option Bytes). o ≡ some id → has_slash id ≡ false) (leb (length before) 64)
          (λ y g. let h = level_before-has_slash topic network_suffix before f in cc)
          (λ n g. absurd cc))
      e

candidate_of-IsIdentified :
    (a : Announcement) (id : Bytes)
    → has_slash id ≡ false
    → is_announced a id ≡ true
    → IsIdentified (candidate_of a)
unfolding is_announced candidate_of
candidate_of-IsIdentified a id s e =
    let same = bytes_eq_sound a.id id (ground arith) in
    let level = subst (λ (k : Bytes). has_slash k ≡ false) (sym same) s in
    record { id = ground arith; level = ground arith; generation = ground arith }

take_network-IsIdentified :
    (current : GatewayCandidateStatus) (a : Announcement) (id : Bytes)
    → IsIdentified current
    → has_slash id ≡ false
    → IsIdentified (take_network current a id).0
unfolding take_network
take_network-IsIdentified current a id v s =
    if_ind (λ (r : GatewayCandidateStatus × Bool). IsIdentified r.0) (is_announced a id)
      (λ y. candidate_of-IsIdentified a id s y) (λ n. v)

take_status-IsIdentified :
    (current : GatewayCandidateStatus) (a : Announcement) (id : Bytes)
    → IsIdentified current
    → IsIdentified (take_status current a id).0
unfolding take_status
take_status-IsIdentified current a id v =
    if_ind (λ (r : GatewayCandidateStatus × Bool). IsIdentified r.0)
      (not (is_announced a id) || not (bytes_eq a.kind gateway_kind)) (λ y. v)
      (λ n.
        if_ind (λ (r : GatewayCandidateStatus × Bool). IsIdentified r.0)
          (bytes_eq current.id a.id
            && bytes_eq current.generation a.generation
            && not a.says_online)
          (λ y. record { id = refl; level = refl; generation = refl }) (λ m. v))

-- Whatever message arrives, a candidate that is known keeps an id of one level, not empty, and a
-- generation.
pub handle_announcement-IsIdentified :
    (parse : Bytes → Option Announcement) (current : GatewayCandidateStatus) (topic payload : Bytes)
    (retained : Bool)
    → IsIdentified current
    → IsIdentified (handle_announcement parse current topic payload retained).0
unfolding handle_announcement
handle_announcement-IsIdentified parse current topic payload retained v =
    if_ind (λ (r : GatewayCandidateStatus × Bool). IsIdentified r.0) (not retained) (λ y. v)
      (λ n.
        option_ind (λ (r : GatewayCandidateStatus × Bool). IsIdentified r.0)
          (topic_gateway_id topic)
          (λ f.
            option_ind (λ (r : GatewayCandidateStatus × Bool). IsIdentified r.0)
              (level_before topic status_suffix) (λ g. v)
              (λ id g.
                option_ind (λ (r : GatewayCandidateStatus × Bool). IsIdentified r.0) (parse payload)
                  (λ h. v) (λ a h. take_status-IsIdentified current a id v)))
          (λ id f.
            option_ind (λ (r : GatewayCandidateStatus × Bool). IsIdentified r.0) (parse payload)
              (λ h. v)
              (λ a h.
                take_network-IsIdentified current a id v (topic_gateway_id-has_slash topic id f))))
