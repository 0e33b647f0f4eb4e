-- ===== src/Network/Blocking.antt =====
-- A message that the backlog of src/Network/NmConnection.cpp takes and never sends.
use night_mare_network.Base.{
  ℕ, suc, ◌≡◌, refl, sym, ap, ◌∙◌, subst, Bool, true, false, Bytes, is_empty, List, ◌∷◌,
}
use night_mare_network.Network.Routing.{Build}
use night_mare_network.Network.State.{
  Coordinator, DeferredMessage, Drivers, c_string, defer_in, get_deferred,
}
use night_mare_network.Network.Coordinator.{
  publish, publish_text, publish_text_when_connected, flush_from, flush_deferred,
}
use night_mare_network.Network.Deferral.{message_of}

untitled :
    (drivers : Drivers) (build : Build) (c : Coordinator) (topic payload : Bytes) (retained : Bool)
    → is_empty (c_string topic) ≡ true
    → publish_text drivers build c topic payload retained ≡ (c, false)
unfolding publish_text publish
untitled drivers build c topic payload retained t = rw t refl

accepted_untitled :
    (drivers : Drivers) (build : Build) (c : Coordinator) (topic payload : Bytes) (retained : Bool)
    (slot : DeferredMessage) (slots : List DeferredMessage)
    → c.deferred ≡ slot ∷ slots
    → slot.active ≡ false
    → is_empty (c_string topic) ≡ true
    → ((publish_text_when_connected drivers build c topic payload retained).1 ≡ true)
      × ((publish_text_when_connected drivers build c topic payload retained).0.deferred
          ≡ message_of topic payload retained ∷ slots)
unfolding publish_text_when_connected defer_in
accepted_untitled drivers build c topic payload retained slot slots e n t =
    rw (untitled drivers build c topic payload retained t, e, n) (refl, refl)

flush_from_stuck :
    (drivers : Drivers) (build : Build) (d : Coordinator) (m : DeferredMessage) (left i : ℕ)
    → get_deferred d.deferred i ≡ m
    → m.active ≡ true
    → is_empty (c_string m.topic) ≡ true
    → flush_from drivers build (suc left) i d ≡ d
unfolding flush_from
flush_from_stuck drivers build d m left i at a t =
    let on : (get_deferred d.deferred i).active ≡ true = ap DeferredMessage.active at ∙ a in
    let failed =
      subst
        (λ (k : DeferredMessage).
          publish_text drivers build d k.topic k.payload k.retained ≡ (d, false))
        (sym at) (untitled drivers build d m.topic m.payload m.retained t) in
    rw (on, failed) refl

first_deferred :
    (d : Coordinator) (m : DeferredMessage) (slots : List DeferredMessage)
    → d.deferred ≡ m ∷ slots
    → get_deferred d.deferred 0 ≡ m
unfolding get_deferred
first_deferred d m slots e = rw e refl

flush_deferred_stuck :
    (drivers : Drivers) (build : Build) (d : Coordinator) (m : DeferredMessage)
    (slots : List DeferredMessage)
    → d.deferred ≡ m ∷ slots
    → m.active ≡ true
    → is_empty (c_string m.topic) ≡ true
    → flush_deferred drivers build d ≡ d
unfolding flush_deferred
flush_deferred_stuck drivers build d m slots e a t =
    flush_from_stuck drivers build d m 4 0 (first_deferred d m slots e) a t

-- A message whose topic is empty, where the first slot is free, is accepted, with a connection or
-- without, and from then on the backlog is not sent: a flush of it stops at this message, whatever
-- waits behind it and whatever the drivers would take.
pub flush_deferred_blocked :
    (drivers : Drivers) (build : Build) (c d : Coordinator) (topic payload : Bytes)
    (retained : Bool) (slot : DeferredMessage) (slots : List DeferredMessage)
    → c.deferred ≡ slot ∷ slots
    → slot.active ≡ false
    → is_empty (c_string topic) ≡ true
    → d.deferred ≡ (publish_text_when_connected drivers build c topic payload retained).0.deferred
    → ((publish_text_when_connected drivers build c topic payload retained).1 ≡ true)
      × (flush_deferred drivers build d ≡ d)
flush_deferred_blocked drivers build c d topic payload retained slot slots e n t same =
    let m = message_of topic payload retained in
    let (accepted, first) =
      accepted_untitled drivers build c topic payload retained slot slots e n t in
    (accepted, flush_deferred_stuck drivers build d m slots (same ∙ first) refl t)
