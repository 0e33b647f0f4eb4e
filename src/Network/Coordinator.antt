-- ===== src/Network/Coordinator.antt =====
-- The coordinator's state and calls: src/Network/NmConnection.cpp. A driver answers a call from the
-- calls before it. The owners that are told of a connection, but for the backlog, are functions of
-- the state. A mutex makes each access to the backlog one step.
use night_mare_network.Base.{
  ℕ, zero, suc, Bool, true, false, not, ◌&&◌, ◌||◌, if◌then◌else◌, Bytes, is_empty, [], ◌∷◌, ◌++◌,
}
use night_mare_network.Base.Slots.{modify}
use night_mare_network.Network.Routing.{
  ConnectionType, auto, mqtt, esp_now, Build, Services, same_connection, connection_enabled,
  transport_usable, route_eligible, resolve_network_route,
}
use night_mare_network.Network.State.{
  Coordinator, DriverCall, Drivers, Owners, c_string, defer_in, deferred_capacity, get_deferred,
  is_online, no_deferred, publishes, report_network_status, request_telemetry, same_state,
  state_for, subscribes, unsubscribes, valid_topic_filter,
}

module _ (drivers : Drivers) where
  unfoldable pub call_driver : Coordinator → DriverCall → Coordinator × Bool
  call_driver c call =
      let answer = drivers c.calls call in
      (record c { calls = c.calls ++ ((call, answer) ∷ []) }, answer)

  module _ (build : Build) where
    -- `topic` is a C string, and `payload` is not null.
    unfoldable pub publish : Coordinator → Bytes → Bytes → Bool → Coordinator × Bool
    unfolding call_driver connection_enabled
    publish c topic payload retained =
        if is_empty topic || not (is_online c.state)
        then (c, false)
        else if connection_enabled build c.selected
        then call_driver c (publishes c.selected topic payload retained)
        else (c, false)

    unfoldable pub publish_text : Coordinator → Bytes → Bytes → Bool → Coordinator × Bool
    unfolding publish c_string
    publish_text c topic payload retained = publish c (c_string topic) payload retained

    unfoldable pub subscribe : Coordinator → Bytes → Coordinator × Bool
    unfolding call_driver valid_topic_filter connection_enabled
    subscribe c filter =
        if not (valid_topic_filter filter) || not (is_online c.state)
        then (c, false)
        else if connection_enabled build c.selected
        then call_driver c (subscribes c.selected filter)
        else (c, false)

    unfoldable pub unsubscribe : Coordinator → Bytes → Coordinator × Bool
    unfolding call_driver valid_topic_filter connection_enabled
    unsubscribe c filter =
        if not (valid_topic_filter filter) || not (is_online c.state)
        then (c, false)
        else if connection_enabled build c.selected
        then call_driver c (unsubscribes c.selected filter)
        else (c, false)

    unfoldable pub publish_text_when_connected :
        Coordinator → Bytes → Bytes → Bool → Coordinator × Bool
    unfolding publish_text defer_in
    publish_text_when_connected c topic payload retained =
        let (c', sent) = publish_text c topic payload retained in
        let (slots, kept) =
          defer_in c'.deferred
            (record { active = true; topic = topic; payload = payload; retained = retained }) in
        if sent then (c', true) else (record c' { deferred = slots }, kept)

    -- The loop from slot `i` on, `left` of them.
    unfoldable pub flush_from : ℕ → ℕ → Coordinator → Coordinator
    unfolding get_deferred publish_text no_deferred
    flush_from zero i c = c
    flush_from (suc left) i c =
        let message = get_deferred c.deferred i in
        let (c', sent) = publish_text c message.topic message.payload message.retained in
        let skipped = flush_from left (suc i) c in
        let next =
          flush_from left (suc i)
            (record c' { deferred = modify c'.deferred i (λ _. no_deferred) }) in
        if not message.active then skipped else if sent then next else c'

    unfoldable pub flush_deferred : Coordinator → Coordinator
    unfolding flush_from
    flush_deferred c = flush_from deferred_capacity 0 c

    module _ (owners : Owners) where
      unfoldable pub notify_connected_owners : Coordinator → Coordinator
      unfolding flush_deferred
      notify_connected_owners c = flush_deferred (
          owners.application_connected
            (owners.router_connected (owners.candidate_connected (owners.subscribe_all c))))

      -- The switch itself, with the owners told where a connection is new.
      unfoldable pub switch_to : Coordinator → ConnectionType → Coordinator
      switch_to c connection =
          let moved = record c { selected = connection; state = state_for connection } in
          if c.begun
            && not (same_connection connection auto)
            && (not (same_connection connection c.selected) || not (is_online c.state))
          then notify_connected_owners moved
          else moved

      unfoldable pub activate : Coordinator → ConnectionType → Coordinator
      activate c connection =
          let told = switch_to c connection in
          if not (same_connection connection c.selected) || not (same_state told.state c.state)
          then request_telemetry told
          else told

      unfoldable pub reevaluate_for : Services → Coordinator → ConnectionType → Coordinator
      reevaluate_for services c preference = activate c (
          resolve_network_route preference c.selected (transport_usable build services mqtt)
            (transport_usable build services esp_now)
            (route_eligible build services c.candidate esp_now))

      unfoldable pub reevaluate : Services → Coordinator → Coordinator
      reevaluate services c = reevaluate_for services c c.preferred

      -- `changePreferredConnection`, whose answer says whether the value may be kept.
      unfoldable pub change_preferred_connection :
          Services → Coordinator → ConnectionType → Coordinator × Bool
      change_preferred_connection services c connection =
          if not (same_connection connection auto) && not (connection_enabled build connection)
          then (c, false)
          else (request_telemetry (reevaluate_for services c connection), true)

      unfoldable pub connection_begin : Services → Coordinator → Coordinator
      connection_begin services c =
          let c' = reevaluate services (record c { begun = true }) in
          if same_connection c.selected c'.selected && is_online c.state && is_online c'.state
          then notify_connected_owners c'
          else c'

      -- `OnConnectivityStateChanged`, `OnRadioAvailabilityIngress`
      unfoldable pub on_connectivity_state_changed : Services → Coordinator → Coordinator
      on_connectivity_state_changed services c =
          report_network_status services (request_telemetry (reevaluate services c))
