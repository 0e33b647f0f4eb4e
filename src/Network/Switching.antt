-- ===== src/Network/Switching.antt =====
-- The coordinator of src/Network/NmConnection.cpp settles: asked again about the same services, it
-- does nothing.
use night_mare_network.Base.{
  ℕ, zero, suc, ◌≡◌, refl, sym, ap, ◌∙◌, Bool, true, not, ◌&&◌, ◌||◌, if_ind, Bytes, arith,
}
use night_mare_network.Base.Slots.{modify}
use night_mare_network.Network.Routing.{
  ConnectionType, auto, mqtt, esp_now, Build, Services, same_connection, transport_usable,
  route_eligible, resolve_network_route,
}
use night_mare_network.Network.State.{
  ConnectionState, at_rest, online, Coordinator, Drivers, Owners, is_online, same_state, state_for,
  no_deferred, deferred_capacity, get_deferred, request_telemetry,
}
use night_mare_network.Network.Coordinator.{
  publish, publish_text, call_driver, flush_from, flush_deferred, notify_connected_owners,
  switch_to, activate, reevaluate_for, reevaluate,
}

-- `d` has the route of `c` and what decides on it.
pub record SameRoute (c d : Coordinator) : Type 0 where
  pub selected : d.selected ≡ c.selected
  pub state : d.state ≡ c.state
  pub preferred : d.preferred ≡ c.preferred
  pub candidate : d.candidate ≡ c.candidate

pub same : (c : Coordinator) → SameRoute c c
same c = record { selected = refl; state = refl; preferred = refl; candidate = refl }

pub SameRoute-trans : (c d e : Coordinator) → SameRoute c d → SameRoute d e → SameRoute c e
SameRoute-trans c d e p q = record {
  selected = q.selected ∙ p.selected;
  state = q.state ∙ p.state;
  preferred = q.preferred ∙ p.preferred;
  candidate = q.candidate ∙ p.candidate;
}

-- An owner that is told of a connection does not switch it.
abbrev pub KeepsRoute : (Coordinator → Coordinator) → Type 0
KeepsRoute f = (c : Coordinator) → SameRoute c (f c)

pub record KeepRoute (owners : Owners) : Type 0 where
  pub subscribe_all : KeepsRoute owners.subscribe_all
  pub candidate_connected : KeepsRoute owners.candidate_connected
  pub router_connected : KeepsRoute owners.router_connected
  pub application_connected : KeepsRoute owners.application_connected

resolve_network_route_twice :
    (p c : ConnectionType) (m e g : Bool)
    → resolve_network_route p (resolve_network_route p c m e g) m e g
      ≡ resolve_network_route p c m e g
unfolding resolve_network_route
resolve_network_route_twice p c m e g = ground arith

same_connection_self : (a : ConnectionType) → same_connection a a ≡ true
unfolding same_connection
same_connection_self auto = refl
same_connection_self mqtt = refl
same_connection_self esp_now = refl

online_connection : (a : ConnectionType) → is_online (state_for a) ≡ not (same_connection a auto)
unfolding same_connection
online_connection auto = refl
online_connection mqtt = refl
online_connection esp_now = refl

unmoved :
    (c : Coordinator) (a : ConnectionType) (b : ConnectionState)
    → a ≡ c.selected
    → b ≡ c.state
    → record c { selected = a; state = b } ≡ c
unmoved c a b e f = rw (e, f) refl

same_state_self : (a : ConnectionState) → same_state a a ≡ true
same_state_self at_rest = refl
same_state_self online = refl

module _ (drivers : Drivers) (build : Build) where
  publish_text-SameRoute :
      (c : Coordinator) (topic payload : Bytes) (retained : Bool)
      → SameRoute c (publish_text drivers build c topic payload retained).0
  unfolding publish_text publish call_driver
  publish_text-SameRoute c topic payload retained = record {
    selected = ground arith;
    state = ground arith;
    preferred = ground arith;
    candidate = ground arith;
  }

  flush_from-SameRoute :
      (left i : ℕ) (c : Coordinator) → SameRoute c (flush_from drivers build left i c)
  unfolding flush_from
  flush_from-SameRoute zero i c = same c
  flush_from-SameRoute (suc left) i c =
      let message = get_deferred c.deferred i in
      let sent = publish_text drivers build c message.topic message.payload message.retained in
      let kept = publish_text-SameRoute c message.topic message.payload message.retained in
      let freed = record sent.0 { deferred = modify sent.0.deferred i (λ _. no_deferred) } in
      if_ind (SameRoute c) (not message.active) (λ y. flush_from-SameRoute left (suc i) c)
        (λ n.
          if_ind (SameRoute c) sent.1
            (λ y.
              SameRoute-trans c freed (flush_from drivers build left (suc i) freed)
                (record {
                  selected = kept.selected;
                  state = kept.state;
                  preferred = kept.preferred;
                  candidate = kept.candidate;
                })
                (flush_from-SameRoute left (suc i) freed))
            (λ m. kept))

  module _ (owners : Owners) (keep : KeepRoute owners) where
    notify-SameRoute :
        (c : Coordinator) → SameRoute c (notify_connected_owners drivers build owners c)
    unfolding notify_connected_owners flush_deferred
    notify-SameRoute c =
        let c1 = owners.subscribe_all c in
        let c2 = owners.candidate_connected c1 in
        let c3 = owners.router_connected c2 in
        let c4 = owners.application_connected c3 in
        SameRoute-trans c c4 _
          (SameRoute-trans c c2 c4
            (SameRoute-trans c c1 c2 (keep.subscribe_all c) (keep.candidate_connected c1))
            (SameRoute-trans c2 c3 c4 (keep.router_connected c2) (keep.application_connected c3)))
          (flush_from-SameRoute deferred_capacity 0 c4)

    switch_to-SameRoute :
        (c : Coordinator) (connection : ConnectionType)
        → SameRoute
            (record c { selected = connection; state = state_for connection })
            (switch_to drivers build owners c connection)
    unfolding switch_to
    switch_to-SameRoute c connection =
        let moved = record c { selected = connection; state = state_for connection } in
        if_ind (SameRoute moved)
          (c.begun
            && not (same_connection connection auto)
            && (not (same_connection connection c.selected) || not (is_online c.state)))
          (λ y. notify-SameRoute moved) (λ n. same moved)

    -- The connection is the one that was asked for, and the state follows it.
    activate-SameRoute :
        (c : Coordinator) (connection : ConnectionType)
        → SameRoute
            (record c { selected = connection; state = state_for connection })
            (activate drivers build owners c connection)
    unfolding activate request_telemetry
    activate-SameRoute c connection =
        let moved = record c { selected = connection; state = state_for connection } in
        let told = switch_to drivers build owners c connection in
        let kept = switch_to-SameRoute c connection in
        if_ind (SameRoute moved)
          (not (same_connection connection c.selected) || not (same_state told.state c.state))
          (λ y. record {
            selected = kept.selected;
            state = kept.state;
            preferred = kept.preferred;
            candidate = kept.candidate;
          })
          (λ n. kept)

    -- A connection that is already active: nothing is told and nothing asked.
    activate_again :
        (c : Coordinator) (connection : ConnectionType)
        → c.selected ≡ connection
        → c.state ≡ state_for connection
        → activate drivers build owners c connection ≡ c
    unfolding activate switch_to
    activate_again c connection s t =
        let e : same_connection connection c.selected ≡ true =
          rw s (same_connection_self connection) in
        let on : is_online c.state ≡ not (same_connection connection auto) =
          rw t (online_connection connection) in
        let moved = record c { selected = connection; state = state_for connection } in
        let here : moved ≡ c = unmoved c connection (state_for connection) (sym s) (sym t) in
        let quiet =
          if_ind (λ (d : Coordinator). d ≡ c)
            (c.begun
              && not (same_connection connection auto)
              && (not (same_connection connection c.selected) || not (is_online c.state)))
            (λ y. absurd (ground arith)) (λ n. here) in
        if_ind (λ (d : Coordinator). d ≡ c)
          (not (same_connection connection c.selected)
            || not (same_state (switch_to drivers build owners c connection).state c.state))
          (λ y. absurd (
            ground (
              arith,
              ap (λ (d : Coordinator). same_state d.state c.state) quiet,
              same_state_self c.state,
            )))
          (λ n. quiet)

-- Whatever the services say, a second evaluation of the route with the same answers changes nothing:
-- no connection is switched, no owner told, no message sent. The owners that are told of a connection
-- do not switch it themselves.
pub reevaluate_twice :
    (drivers : Drivers) (build : Build) (owners : Owners) (services : Services) (c : Coordinator)
    → KeepRoute owners
    → reevaluate drivers build owners services (reevaluate drivers build owners services c)
      ≡ reevaluate drivers build owners services c
unfolding reevaluate reevaluate_for
reevaluate_twice drivers build owners services c keep =
    let route =
      resolve_network_route c.preferred c.selected (transport_usable build services mqtt)
        (transport_usable build services esp_now)
        (route_eligible build services c.candidate esp_now) in
    let kept = activate-SameRoute drivers build owners keep c route in
    let d = activate drivers build owners c route in
    let same_route : resolve_network_route d.preferred d.selected
          (transport_usable build services mqtt) (transport_usable build services esp_now)
          (route_eligible build services d.candidate esp_now)
        ≡ route =
      rw (kept.preferred, kept.selected, kept.candidate)
        (resolve_network_route_twice c.preferred c.selected (transport_usable build services mqtt)
          (transport_usable build services esp_now)
          (route_eligible build services c.candidate esp_now)) in
    ap (activate drivers build owners d) same_route
    ∙ activate_again drivers build owners keep d route kept.selected kept.state
