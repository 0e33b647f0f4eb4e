-- ===== src/Network/State.antt =====
-- The coordinator's state, and what its calls compute of it: src/Network/NmConnection.cpp.
use night_mare_network.Base.{
  ℕ, zero, suc, Bool, true, false, not, ◌&&◌, ◌||◌, ◌==◌, ltb, if◌then◌else◌, Bytes, is_empty, List,
  [], ◌∷◌, ◌++◌, length,
}
use night_mare_network.Network.Routing.{
  ConnectionType, auto, mqtt, esp_now, ConnectivityState, stopped, starting, ready, connecting,
  connected, suspended, failed, GatewayCandidateStatus, Services,
}

-- STOPPED and CONNECTED are the ones that the coordinator sets.
pub data ConnectionState : Type 0 where
  at_rest online : ConnectionState

pub data DriverCall : Type 0 where
  publishes : ConnectionType → Bytes → Bytes → Bool → DriverCall
  subscribes unsubscribes : ConnectionType → Bytes → DriverCall

pub record DeferredMessage : Type 0 where
  pub active : Bool
  pub topic : Bytes
  pub payload : Bytes
  pub retained : Bool

unfoldable pub no_deferred : DeferredMessage
no_deferred = record { active = false; topic = []; payload = []; retained = false }

pub data NetworkLayer : Type 0 where
  wifi_radio wifi_ip mqtt_layer esp_now_layer : NetworkLayer

pub record NetworkStatusEvent : Type 0 where
  pub layer : NetworkLayer
  pub state : ConnectivityState
  pub previous : ConnectivityState
  pub available : Bool

-- `calls` are the drivers', oldest first, with their answers; `telemetry` counts the requests for it.
pub record Coordinator : Type 0 where
  pub selected : ConnectionType
  pub state : ConnectionState
  pub begun : Bool
  pub preferred : ConnectionType
  pub candidate : GatewayCandidateStatus
  pub deferred : List DeferredMessage
  pub reports : Bool
  pub last_layers : List ConnectivityState
  pub events : List NetworkStatusEvent
  pub telemetry : ℕ
  pub calls : List (DriverCall × Bool)

abbrev pub deferred_capacity : ℕ
deferred_capacity = 5

abbrev pub max_topic_filter_length : ℕ
max_topic_filter_length = 192

-- The answers of the drivers.
abbrev pub Drivers : Type 0
Drivers = List (DriverCall × Bool) → DriverCall → Bool

-- Who is told of a connection before the backlog is sent: the resources, the gateway candidate, the
-- router and the application.
pub record Owners : Type 0 where
  pub subscribe_all : Coordinator → Coordinator
  pub candidate_connected : Coordinator → Coordinator
  pub router_connected : Coordinator → Coordinator
  pub application_connected : Coordinator → Coordinator

abbrev pub is_online : ConnectionState → Bool
is_online at_rest = false
is_online online = true

abbrev pub state_for : ConnectionType → ConnectionState
state_for auto = at_rest
state_for mqtt = online
state_for esp_now = online

abbrev pub same_state : ConnectionState → ConnectionState → Bool
same_state at_rest at_rest = true
same_state online online = true
same_state _ _ = false

-- A text as a C string ends at its first null character.
unfoldable pub c_string : Bytes → Bytes
c_string [] = []
c_string (c ∷ cs) = if c == 0 then [] else c ∷ c_string cs

-- What follows is the end or '/'.
abbrev pub ends_level : Bytes → Bool
ends_level [] = true
ends_level (d ∷ ds) = d == b'/'

-- The scan of `validTopicFilter`: `at_start` says that the character before is none or '/'.
unfoldable pub valid_from : Bool → Bytes → Bool
valid_from at_start [] = true
valid_from at_start (c ∷ cs) =
    let rest = valid_from (c == b'/') cs in
    if ltb c 32
    then false
    else if c == b'+' && not at_start
    then false
    else if c == b'+' && not (ends_level cs)
    then false
    else if c == b'#' && (not at_start || not (is_empty cs))
    then false
    else rest

unfoldable pub valid_topic_filter : Bytes → Bool
unfolding valid_from
valid_topic_filter filter =
    if length filter == 0 || ltb max_topic_filter_length (length filter)
    then false
    else valid_from true filter

-- The first free slot of the backlog takes a message.
unfoldable pub defer_in : List DeferredMessage → DeferredMessage → List DeferredMessage × Bool
defer_in [] message = ([], false)
defer_in (slot ∷ slots) message =
    let (after, kept) = defer_in slots message in
    if slot.active then (slot ∷ after, kept) else (message ∷ slots, true)

unfoldable pub get_deferred : List DeferredMessage → ℕ → DeferredMessage
unfolding no_deferred
get_deferred [] i = no_deferred
get_deferred (slot ∷ slots) zero = slot
get_deferred (slot ∷ slots) (suc i) = get_deferred slots i

unfoldable pub request_telemetry : Coordinator → Coordinator
request_telemetry c = record c { telemetry = suc c.telemetry }

-- The services' layers, in their order; a layer that is not built is stopped.
abbrev pub layers : List NetworkLayer
layers = wifi_radio ∷ wifi_ip ∷ mqtt_layer ∷ esp_now_layer ∷ []

unfoldable pub current_layer_state : Services → NetworkLayer → ConnectivityState
current_layer_state services wifi_radio = services.radio_state
current_layer_state services wifi_ip = services.ip_state
current_layer_state services mqtt_layer = services.mqtt_state
current_layer_state services esp_now_layer = services.esp_now_state

unfoldable pub same_layer_state : ConnectivityState → ConnectivityState → Bool
same_layer_state stopped stopped = true
same_layer_state starting starting = true
same_layer_state ready ready = true
same_layer_state connecting connecting = true
same_layer_state connected connected = true
same_layer_state suspended suspended = true
same_layer_state failed failed = true
same_layer_state _ _ = false

unfoldable pub is_available : NetworkLayer → ConnectivityState → Bool
unfolding same_layer_state
is_available wifi_radio state = same_layer_state state ready
is_available _ state = same_layer_state state connected

-- The events of the layers that moved, oldest first.
unfoldable pub layer_events :
    Services → List NetworkLayer → List ConnectivityState → List NetworkStatusEvent
unfolding current_layer_state same_layer_state is_available
layer_events services [] previous = []
layer_events services (layer ∷ rest) [] = []
layer_events services (layer ∷ rest) (last ∷ previous) =
    let state = current_layer_state services layer in
    let more = layer_events services rest previous in
    if same_layer_state state last
    then more
    else record {
      layer = layer;
      state = state;
      previous = last;
      available = is_available layer state;
    }
      ∷ more

unfoldable pub layer_states : Services → List NetworkLayer → List ConnectivityState
layer_states services [] = []
layer_states services (layer ∷ rest) =
    current_layer_state services layer ∷ layer_states services rest

unfoldable pub report_network_status : Services → Coordinator → Coordinator
unfolding layer_events layer_states
report_network_status services c = record c {
  last_layers = layer_states services layers;
  events = if c.reports then c.events ++ layer_events services layers c.last_layers else c.events;
}

-- `OnNetworkStatus` with a handler.
unfoldable pub on_network_status : Services → Coordinator → Coordinator
unfolding layer_states
on_network_status services c = record c {
  last_layers = layer_states services layers;
  reports = true;
}
