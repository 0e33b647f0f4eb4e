-- ===== src/Network/Routing.antt =====
-- Which connection carries the traffic: src/Network/NmRoutingPolicy.h, the tests of
-- src/Network/NmConnection.cpp that it asks, and the policy of src/Network/GatewayCandidate.cpp.
-- What the services say of themselves in a call is an argument.
use night_mare_network.Base.{
  ℕ, ◌+◌, Bool, true, false, not, ◌&&◌, ◌||◌, ◌==◌, leb, if◌then◌else◌, Bytes, bytes_eq, is_empty,
  List, [], ◌∷◌,
}

pub data ConnectionType : Type 0 where
  auto mqtt esp_now : ConnectionType

pub data MqttProfile : Type 0 where
  remote local : MqttProfile

pub data ConnectivityState : Type 0 where
  stopped starting ready connecting connected suspended failed : ConnectivityState

-- What the build has: NM_ENABLE_MQTT with its routes, and NM_NETWORK_ESPNOW.
pub record Build : Type 0 where
  pub has_mqtt : Bool
  pub has_esp_now : Bool

pub record GatewayCandidateStatus : Type 0 where
  pub known : Bool
  pub id : Bytes
  pub generation : Bytes
  pub esp_now_ready : Bool
  pub remote_mqtt_ready : Bool
  pub local_mqtt_ready : Bool
  pub ssid : Bytes
  pub bssid : Bytes
  pub channel : ℕ

pub record GatewayRadioContext : Type 0 where
  pub ssid : Bytes
  pub bssid : Bytes
  pub channel : ℕ

-- What the services answer, and the identity of the gateway of the ESP-NOW session.
pub record Services : Type 0 where
  pub mqtt_enabled : Bool
  pub esp_now_enabled : Bool
  pub mqtt_profile : MqttProfile
  pub radio_state : ConnectivityState
  pub ip_state : ConnectivityState
  pub mqtt_state : ConnectivityState
  pub esp_now_state : ConnectivityState
  pub radio : GatewayRadioContext
  pub gateway_id : Bytes

unfoldable pub same_connection : ConnectionType → ConnectionType → Bool
same_connection auto auto = true
same_connection mqtt mqtt = true
same_connection esp_now esp_now = true
same_connection _ _ = false

abbrev pub is_connected : ConnectivityState → Bool
is_connected connected = true
is_connected _ = false

-- `std::tolower` of a byte in the C locale.
unfoldable pub to_lower : ℕ → ℕ
to_lower c = if leb b'A' c && leb c b'Z' then c + 32 else c

unfoldable pub equals_ignore_case : Bytes → Bytes → Bool
unfolding to_lower
equals_ignore_case [] [] = true
equals_ignore_case [] (d ∷ ds) = false
equals_ignore_case (c ∷ cs) [] = false
equals_ignore_case (c ∷ cs) (d ∷ ds) = to_lower c == to_lower d && equals_ignore_case cs ds

abbrev pub has_uplink : GatewayCandidateStatus → MqttProfile → Bool
has_uplink candidate remote = candidate.remote_mqtt_ready
has_uplink candidate local = candidate.local_mqtt_ready

unfoldable pub candidate_probable :
    GatewayCandidateStatus → MqttProfile → GatewayRadioContext → Bool
unfolding equals_ignore_case bytes_eq
candidate_probable candidate required radio =
    if not candidate.known || is_empty candidate.id || not candidate.esp_now_ready
    then false
    else if not (has_uplink candidate required)
    then false
    else if candidate.channel == 0 || radio.channel == 0 || not (candidate.channel == radio.channel)
    then false
    else if not (is_empty candidate.bssid) && not (is_empty radio.bssid)
    then equals_ignore_case candidate.bssid radio.bssid
    else not (is_empty candidate.ssid) && bytes_eq candidate.ssid radio.ssid

unfoldable pub matches_authenticated : GatewayCandidateStatus → Bytes → Bool
unfolding bytes_eq
matches_authenticated candidate gateway_id = candidate.known && bytes_eq candidate.id gateway_id

module _ (build : Build) where
  unfoldable pub connection_enabled : ConnectionType → Bool
  connection_enabled auto = false
  connection_enabled mqtt = build.has_mqtt
  connection_enabled esp_now = build.has_esp_now

  unfoldable pub transport_enabled : Services → ConnectionType → Bool
  transport_enabled services auto = false
  transport_enabled services mqtt = build.has_mqtt && services.mqtt_enabled
  transport_enabled services esp_now = build.has_esp_now && services.esp_now_enabled

  unfoldable pub transport_usable : Services → ConnectionType → Bool
  unfolding transport_enabled
  transport_usable services auto = false
  transport_usable services mqtt =
      transport_enabled services mqtt && is_connected services.mqtt_state
  transport_usable services esp_now =
      transport_enabled services esp_now && is_connected services.esp_now_state

  -- ESP-NOW, where it is usable: a node that has MQTT switched on asks what the gateway announced.
  unfoldable pub esp_now_eligible : Services → GatewayCandidateStatus → Bool
  unfolding candidate_probable matches_authenticated
  esp_now_eligible services candidate =
      if build.has_mqtt && build.has_esp_now && services.mqtt_enabled
      then candidate_probable candidate services.mqtt_profile services.radio
        && matches_authenticated candidate services.gateway_id
      else true

  unfoldable pub route_eligible : Services → GatewayCandidateStatus → ConnectionType → Bool
  unfolding transport_usable esp_now_eligible
  route_eligible services candidate connection =
      if not (transport_usable services connection)
      then false
      else if not (same_connection connection esp_now)
      then true
      else esp_now_eligible services candidate

-- The two lambdas of `ResolveNetworkRoute`.
unfoldable pub is_usable : Bool → Bool → ConnectionType → Bool
is_usable mqtt_usable esp_now_usable auto = false
is_usable mqtt_usable esp_now_usable mqtt = mqtt_usable
is_usable mqtt_usable esp_now_usable esp_now = esp_now_usable

unfoldable pub is_eligible : Bool → Bool → Bool → ConnectionType → Bool
unfolding is_usable same_connection
is_eligible mqtt_usable esp_now_usable eligible connection =
    is_usable mqtt_usable esp_now_usable connection
    && (not (same_connection connection esp_now) || eligible)

-- The loop over `fallback`.
unfoldable pub first_eligible :
    (ConnectionType → Bool) → ConnectionType → List ConnectionType → ConnectionType
unfolding same_connection
first_eligible eligible preferred [] = auto
first_eligible eligible preferred (connection ∷ rest) =
    if not (same_connection connection preferred) && eligible connection
    then connection
    else first_eligible eligible preferred rest

unfoldable pub resolve_network_route :
    ConnectionType → ConnectionType → Bool → Bool → Bool → ConnectionType
unfolding is_eligible is_usable first_eligible same_connection
resolve_network_route preferred current mqtt_usable esp_now_usable esp_now_eligible =
    let eligible = is_eligible mqtt_usable esp_now_usable esp_now_eligible in
    if not (same_connection preferred auto) && eligible preferred
    then preferred
    else if is_usable mqtt_usable esp_now_usable current
    then current
    else if not (same_connection preferred auto) && eligible preferred
    then preferred
    else first_eligible eligible preferred (esp_now ∷ mqtt ∷ [])
