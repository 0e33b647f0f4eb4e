-- ===== src/Examples/Connections.antt =====
-- The coordinator of the connections on concrete values.
use night_mare_network.Base.{
  not, ◌&&◌, leb, length, is_empty, ◌≡◌, refl, true, false, Bytes, [], ◌∷◌, replicate,
}
use night_mare_network.Network.Routing.{
  auto, mqtt, remote, stopped, ready, connected, Build, GatewayCandidateStatus, Services,
  resolve_network_route, transport_usable,
}
use night_mare_network.Network.State.{
  valid_topic_filter, max_topic_filter_length, at_rest, Coordinator, Drivers, Owners, no_deferred,
  deferred_capacity, c_string,
}
use night_mare_network.Network.Coordinator.{publish_text_when_connected, flush_deferred, reevaluate}
use night_mare_network.Network.Switching.{same, reevaluate_twice}
use night_mare_network.Network.Deferral.{route_of}
use night_mare_network.Network.Blocking.{flush_deferred_blocked}
use night_mare_network.Topic.Levels.{levels}
use night_mare_network.Network.Filters.{are_valid, valid_topic_filter-are_valid}

abbrev accepts : Drivers
accepts calls call = true

abbrev both : Build
both = record { has_mqtt = true; has_esp_now = true }

abbrev quiet_owners : Owners
quiet_owners = record {
  subscribe_all = λ c. c;
  candidate_connected = λ c. c;
  router_connected = λ c. c;
  application_connected = λ c. c;
}

abbrev no_candidate : GatewayCandidateStatus
no_candidate = record {
  known = false;
  id = [];
  generation = [];
  esp_now_ready = false;
  remote_mqtt_ready = false;
  local_mqtt_ready = false;
  ssid = [];
  bssid = [];
  channel = 0;
}

-- MQTT is connected.
abbrev services : Services
services = record {
  mqtt_enabled = true;
  esp_now_enabled = false;
  mqtt_profile = remote;
  radio_state = ready;
  ip_state = connected;
  mqtt_state = connected;
  esp_now_state = stopped;
  radio = record { ssid = []; bssid = []; channel = 0 };
  gateway_id = [];
}

-- Begun, with no connection and nothing in the backlog.
abbrev waiting_node : Coordinator
waiting_node = record {
  selected = auto;
  state = at_rest;
  begun = true;
  preferred = auto;
  candidate = no_candidate;
  deferred = replicate deferred_capacity no_deferred;
  reports = false;
  last_layers = [];
  events = [];
  telemetry = 0;
  calls = [];
}

abbrev greeting : Bytes
greeting = b'h' ∷ b'i' ∷ []

reevaluate_twice_example :
    reevaluate accepts both quiet_owners services
      (reevaluate accepts both quiet_owners services waiting_node)
    ≡ reevaluate accepts both quiet_owners services waiting_node
reevaluate_twice_example =
    reevaluate_twice accepts both quiet_owners services waiting_node (record {
      subscribe_all = same;
      candidate_connected = same;
      router_connected = same;
      application_connected = same;
    })

mqtt_found : route_of both services waiting_node ≡ mqtt
unfolding resolve_network_route transport_usable
mqtt_found = refl

flush_deferred_blocked_example :
    ((publish_text_when_connected accepts both waiting_node [] greeting false).1 ≡ true)
    × (flush_deferred accepts both
          (publish_text_when_connected accepts both waiting_node [] greeting false).0
        ≡ (publish_text_when_connected accepts both waiting_node [] greeting false).0)
unfolding c_string no_deferred
flush_deferred_blocked_example =
    flush_deferred_blocked accepts both waiting_node
      (publish_text_when_connected accepts both waiting_node [] greeting false).0 [] greeting false
      no_deferred (replicate 4 no_deferred) refl refl refl refl

-- "a/+/#".
abbrev wide : Bytes
wide = b'a' ∷ b'/' ∷ b'+' ∷ b'/' ∷ b'#' ∷ []

valid_topic_filter-are_valid_example :
    valid_topic_filter wide
    ≡ (not (is_empty wide) && leb (length wide) max_topic_filter_length && are_valid (levels wide))
valid_topic_filter-are_valid_example = valid_topic_filter-are_valid wide
