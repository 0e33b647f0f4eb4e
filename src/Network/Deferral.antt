-- ===== src/Network/Deferral.antt =====
-- `PublishTextWhenConnected` of src/Network/NmConnection.cpp, from the call to the driver.
use night_mare_network.Base.{◌≡◌, Bool, true, Bytes, List, [], ◌++◌, length, All, In}
use night_mare_network.Network.Routing.{
  ConnectionType, mqtt, esp_now, Build, Services, transport_usable, route_eligible,
  resolve_network_route,
}
use night_mare_network.Network.State.{Coordinator, DeferredMessage, Drivers, Owners}
use night_mare_network.Network.Coordinator.{reevaluate}
use night_mare_network.Network.Backlog.{waiting, sends, HasTopic, told, switched}

abbrev pub message_of : Bytes → Bytes → Bool → DeferredMessage
message_of topic payload retained = record {
  active = true;
  topic = topic;
  payload = payload;
  retained = retained;
}

-- A message that found a slot waits in it, and the others wait on.
record Kept (slots : List DeferredMessage) (m : DeferredMessage) (after : List DeferredMessage)
    : Type 0 where
  waits : In m (waiting after)
  size : length after ≡ length slots
  topics : All HasTopic (waiting after)

-- The route that an evaluation finds.
abbrev pub route_of : Build → Services → Coordinator → ConnectionType
route_of build services c =
    resolve_network_route c.preferred c.selected (transport_usable build services mqtt)
      (transport_usable build services esp_now) (route_eligible build services c.candidate esp_now)

-- What is promised of a message, from the state in which it was accepted.
abbrev pub IsSent : Drivers → Build → Owners → Services → DeferredMessage → Coordinator → Type 0
IsSent drivers build owners services m c =
    In m (waiting c.deferred)
    × ((reevaluate drivers build owners services c).calls
        ≡ (told owners (switched c (route_of build services c))).calls
          ++ sends (route_of build services c) (waiting c.deferred))
    × (waiting (reevaluate drivers build owners services c).deferred ≡ [])
