-- ===== src/Network/Backlog.antt =====
-- The backlog of src/Network/NmConnection.cpp: what is kept while there is no connection is sent when
-- there is one.
use night_mare_network.Base.{
  ℕ, suc, ◌≡◌, refl, sym, ap, ◌∙◌, subst, Bool, true, false, not, ◌&&◌, ◌||◌, if◌then◌else◌, if_ind,
  is_empty, List, [], ◌∷◌, ◌++◌, append-nil, append_assoc, length, length-append, All, arith,
  Bool-cases, inl, inr,
}
use night_mare_network.Base.Slots.{modify}
use night_mare_network.Network.Routing.{
  ConnectionType, auto, Build, same_connection, connection_enabled,
}
use night_mare_network.Network.State.{
  at_rest, online, Coordinator, DriverCall, publishes, DeferredMessage, Drivers, Owners, is_online,
  same_state, state_for, no_deferred, deferred_capacity, c_string, get_deferred, request_telemetry,
}
use night_mare_network.Network.Coordinator.{
  publish, publish_text, call_driver, flush_from, flush_deferred, notify_connected_owners,
  switch_to, activate,
}
use night_mare_network.Network.Switching.{SameRoute}

-- The messages that wait, in the order of their slots.
abbrev pub waiting : List DeferredMessage → List DeferredMessage
waiting [] = []
waiting (slot ∷ slots) = if slot.active then slot ∷ waiting slots else waiting slots

-- The driver's calls that publish them, each accepted.
abbrev pub sends : ConnectionType → List DeferredMessage → List (DriverCall × Bool)
sends connection [] = []
sends connection (m ∷ ms) =
    (publishes connection (c_string m.topic) m.payload m.retained, true) ∷ sends connection ms

abbrev pub freed : List DeferredMessage → List DeferredMessage
freed [] = []
freed (slot ∷ slots) = (if slot.active then no_deferred else slot) ∷ freed slots

-- The topic is not empty as a C string.
abbrev pub HasTopic : DeferredMessage → Type 0
HasTopic m = is_empty (c_string m.topic) ≡ false

get_deferred-append :
    (here slots : List DeferredMessage) (slot : DeferredMessage)
    → get_deferred (here ++ (slot ∷ slots)) (length here) ≡ slot
unfolding get_deferred
get_deferred-append [] slots slot = refl
get_deferred-append (h ∷ here) slots slot = get_deferred-append here slots slot

set_deferred-append :
    (here slots : List DeferredMessage) (slot new : DeferredMessage)
    → modify (here ++ (slot ∷ slots)) (length here) (λ _. new) ≡ (here ++ (new ∷ [])) ++ slots
set_deferred-append [] slots slot new = refl
set_deferred-append (h ∷ here) slots slot new = ap (◌∷◌ h) (set_deferred-append here slots slot new)

pub waiting_empty :
    (slot : DeferredMessage) (slots : List DeferredMessage)
    → slot.active ≡ false
    → waiting (slot ∷ slots) ≡ waiting slots
waiting_empty slot slots n = rw n refl

pub waiting_full :
    (slot : DeferredMessage) (slots : List DeferredMessage)
    → slot.active ≡ true
    → waiting (slot ∷ slots) ≡ slot ∷ waiting slots
waiting_full slot slots y = rw y refl

module _ (drivers : Drivers) (build : Build) where
  flush_from_end : (i : ℕ) (c : Coordinator) → flush_from drivers build 0 i c ≡ c
  unfolding flush_from
  flush_from_end i c = refl

  flush_from_skip :
      (left i : ℕ) (c : Coordinator) (slot : DeferredMessage)
      → get_deferred c.deferred i ≡ slot
      → slot.active ≡ false
      → flush_from drivers build (suc left) i c ≡ flush_from drivers build left (suc i) c
  unfolding flush_from
  flush_from_skip left i c slot at n =
      let off : (get_deferred c.deferred i).active ≡ false = ap DeferredMessage.active at ∙ n in
      rw off refl

  flush_from_send :
      (left i : ℕ) (c d : Coordinator) (slot : DeferredMessage)
      → get_deferred c.deferred i ≡ slot
      → slot.active ≡ true
      → publish_text drivers build c slot.topic slot.payload slot.retained ≡ (d, true)
      → flush_from drivers build (suc left) i c
        ≡ flush_from drivers build left
            (suc i)
            (record d { deferred = modify d.deferred i (λ _. no_deferred) })
  unfolding flush_from
  flush_from_send left i c d slot at y e =
      let on : (get_deferred c.deferred i).active ≡ true = ap DeferredMessage.active at ∙ y in
      let e' =
        subst
          (λ (m : DeferredMessage).
            publish_text drivers build c m.topic m.payload m.retained ≡ (d, true))
          (sym at) e in
      rw (on, e') refl

  module _
      (takes : (calls : List (DriverCall × Bool)) (call : DriverCall)
        → drivers calls call ≡ true) where
    -- A message with a topic goes to the driver of the active connection.
    publish_text-sends :
        (c : Coordinator) (m : DeferredMessage)
        → HasTopic m
        → c.state ≡ online
        → connection_enabled build c.selected ≡ true
        → publish_text drivers build c m.topic m.payload m.retained
          ≡ (record c { calls = c.calls ++ sends c.selected (m ∷ []) }, true)
    unfolding publish_text publish call_driver
    publish_text-sends c m t on e =
        let call = publishes c.selected (c_string m.topic) m.payload m.retained in
        rw (t, on, e, takes c.calls call) refl

    -- What the turns from a slot on leave.
    abbrev Sent : Coordinator → List DeferredMessage → List DeferredMessage → Coordinator → Type 0
    Sent c here slots d =
        (d.calls ≡ c.calls ++ sends c.selected (waiting slots)) × (d.deferred ≡ here ++ freed slots)

    module _ (here slots : List DeferredMessage) (slot : DeferredMessage) (c : Coordinator)
        (d : c.deferred ≡ here ++ (slot ∷ slots)) where
      slot_at : get_deferred c.deferred (length here) ≡ slot
      slot_at = ap (λ l. get_deferred l (length here)) d ∙ get_deferred-append here slots slot

      one_on : (new : DeferredMessage) → length (here ++ (new ∷ [])) ≡ suc (length here)
      one_on new = omega (arith, length-append here (new ∷ []))

      -- The turn of an empty slot, from those behind it.
      empty_turn :
          slot.active ≡ false
          → Sent c
              (here ++ (slot ∷ []))
              slots
              (flush_from drivers build (length slots) (length (here ++ (slot ∷ []))) c)
          → Sent c here
              (slot ∷ slots)
              (flush_from drivers build (suc (length slots)) (length here) c)
      empty_turn n rest =
          let (calls, deferred) =
            subst
              (λ (k : ℕ).
                Sent c (here ++ (slot ∷ [])) slots (flush_from drivers build (length slots) k c))
              (one_on slot) rest in
          subst (Sent c here (slot ∷ slots))
            (sym (flush_from_skip (length slots) (length here) c slot slot_at n))
            (
              calls ∙ ap (λ ms. c.calls ++ sends c.selected ms) (sym (waiting_empty slot slots n)),
              deferred
                  ∙ append_assoc here (slot ∷ []) (freed slots)
                  ∙ ap (λ (b : Bool). here ++ ((if b then no_deferred else slot) ∷ freed slots))
                      (sym n),
            )

      -- The coordinator after the slot's message is sent and the slot freed.
      abbrev after_sending : Coordinator
      after_sending = record c {
        calls = c.calls ++ sends c.selected (slot ∷ []);
        deferred = modify c.deferred (length here) (λ _. no_deferred);
      }

      full_turn :
          slot.active ≡ true
          → HasTopic slot
          → c.state ≡ online
          → connection_enabled build c.selected ≡ true
          → Sent after_sending (here ++ (no_deferred ∷ [])) slots (
              flush_from drivers build
                (length slots)
                (length (here ++ (no_deferred ∷ [])))
                after_sending)
          → Sent c here
              (slot ∷ slots)
              (flush_from drivers build (suc (length slots)) (length here) c)
      full_turn y topic on e rest =
          let (calls, deferred) =
            subst
              (λ (k : ℕ).
                Sent after_sending (here ++ (no_deferred ∷ [])) slots
                  (flush_from drivers build (length slots) k after_sending))
              (one_on no_deferred) rest in
          subst (Sent c here (slot ∷ slots))
            (sym (
              flush_from_send (length slots) (length here) c _ slot slot_at y
                (publish_text-sends c slot topic on e)))
            (rw y (
              calls
                  ∙ append_assoc c.calls (sends c.selected (slot ∷ []))
                      (sends c.selected (waiting slots)),
              deferred ∙ append_assoc here (no_deferred ∷ []) (freed slots),
            ))

    flush_from-Sent :
        (slots here : List DeferredMessage) (c : Coordinator)
        → c.state ≡ online
        → connection_enabled build c.selected ≡ true
        → c.deferred ≡ here ++ slots
        → All HasTopic (waiting slots)
        → Sent c here slots (flush_from drivers build (length slots) (length here) c)
    flush_from-Sent [] here c on e d topics =
        subst (Sent c here []) (sym (flush_from_end (length here) c)) (sym (append-nil c.calls), d)
    flush_from-Sent (slot ∷ slots) here c on e d topics = elim (Bool-cases slot.active) [
      | inr n ↦ empty_turn here slots slot c d n (
          flush_from-Sent slots (here ++ (slot ∷ [])) c on e
            (d ∙ sym (append_assoc here (slot ∷ []) slots))
            (subst (All HasTopic) (waiting_empty slot slots n) topics))
      | inl y ↦
          let (topic, more) = subst (All HasTopic) (waiting_full slot slots y) topics in
          full_turn here slots slot c d y topic on e (
            flush_from-Sent slots (here ++ (no_deferred ∷ [])) (after_sending here slots slot c d)
              on e
              (ap (λ l. modify l (length here) (λ _. no_deferred)) d
                ∙ set_deferred-append here slots slot no_deferred)
              more)
    ]

pub waiting-freed : (slots : List DeferredMessage) → waiting (freed slots) ≡ []
unfolding no_deferred
waiting-freed [] = refl
waiting-freed (slot ∷ slots) = elim (Bool-cases slot.active) [
  | inl y ↦
      ap (λ (b : Bool). waiting ((if b then no_deferred else slot) ∷ freed slots)) y
      ∙ waiting-freed slots
  | inr n ↦
      ap (λ (b : Bool). waiting ((if b then no_deferred else slot) ∷ freed slots)) n
      ∙ waiting_empty slot (freed slots) n
      ∙ waiting-freed slots
]

-- The owners that are told before the backlog is sent.
abbrev pub told : Owners → Coordinator → Coordinator
told owners c =
    owners.application_connected
      (owners.router_connected (owners.candidate_connected (owners.subscribe_all c)))

-- The coordinator as it switches.
abbrev pub switched : Coordinator → ConnectionType → Coordinator
switched c connection = record c { selected = connection; state = state_for connection }

module _ (drivers : Drivers) (build : Build) (owners : Owners)
    (takes : (calls : List (DriverCall × Bool)) (call : DriverCall) → drivers calls call ≡ true)
    (keep : (d : Coordinator) → SameRoute d (told owners d))
    (holds : (d : Coordinator) → (told owners d).deferred ≡ d.deferred) (c : Coordinator)
    (room : length c.deferred ≡ deferred_capacity)
    (topics : All HasTopic (waiting c.deferred)) where
  -- What a new connection leaves.
  abbrev Delivered : ConnectionType → Coordinator → Type 0
  Delivered connection d =
      (d.calls
        ≡ (told owners (switched c connection)).calls ++ sends connection (waiting c.deferred))
      × (d.deferred ≡ freed c.deferred)

  notify-Delivered :
      (connection : ConnectionType)
      → state_for connection ≡ online
      → connection_enabled build connection ≡ true
      → Delivered connection (notify_connected_owners drivers build owners (switched c connection))
  unfolding notify_connected_owners flush_deferred
  notify-Delivered connection on e =
      let o = told owners (switched c connection) in
      let kept = keep (switched c connection) in
      let held = holds (switched c connection) in
      let sent =
        flush_from-Sent drivers build takes c.deferred [] o (kept.state ∙ on)
          (ap (connection_enabled build) kept.selected ∙ e) held topics in
      let (calls, deferred) =
        subst (λ (n : ℕ). Sent drivers build takes o [] c.deferred (flush_from drivers build n 0 o))
          room sent in
      (calls ∙ ap (λ a. o.calls ++ sends a (waiting c.deferred)) kept.selected, deferred)

  pub activate-Delivered :
      (connection : ConnectionType)
      → same_connection connection auto ≡ false
      → state_for connection ≡ online
      → connection_enabled build connection ≡ true
      → c.begun ≡ true
      → c.state ≡ at_rest
      → Delivered connection (activate drivers build owners c connection)
  unfolding activate switch_to request_telemetry
  activate-Delivered connection some on e begun rest =
      let off : is_online c.state ≡ false = ap is_online rest in
      let sent =
        if_ind (Delivered connection)
          (c.begun
            && not (same_connection connection auto)
            && (not (same_connection connection c.selected) || not (is_online c.state)))
          {y = switched c connection} (λ y. notify-Delivered connection on e)
          (λ n. absurd (ground arith)) in
      if_ind (Delivered connection)
        (not (same_connection connection c.selected)
          || not (same_state (switch_to drivers build owners c connection).state c.state))
        (λ y. sent) (λ n. sent)
