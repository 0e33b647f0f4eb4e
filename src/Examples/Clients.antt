-- ===== src/Examples/Clients.antt =====
-- Subscriptions and sessions on concrete values.
use night_mare_network.Base.{
  ℕ, ◌≡◌, refl, ◌||◌, true, Bytes, some, List, [], ◌∷◌, length, arith, suc, bytes_eq,
}
use night_mare_network.Topic.{topic_matches_pattern}
use night_mare_network.Device.{
  Device, new_device, is_subscribed_to, subscribe_to, unsubscribe_from, clear_filter, scan,
  keep_free,
}
use night_mare_network.Device.Subscriptions.{
  HasFilters, holds, new_device-HasFilters, is_subscribed_to-subscribe_to, subscribe_to-HasFilters,
  Unsubscribed, unsubscribe_from_lem,
}
use night_mare_network.Sessions.{allocate_cid}
use night_mare_network.Sessions.Radio.{PeerOps}
use night_mare_network.Sessions.Cids.{IsFree, allocate_cid_total}
use night_mare_network.Sessions.Steps.{Call, begins, completes, secures, expires}

abbrev client_mac : Bytes
client_mac = 1 ∷ 2 ∷ 3 ∷ 4 ∷ 5 ∷ 6 ∷ []

abbrev client : Device
client = new_device client_mac 1 100

-- "a/+" and "a/b".
abbrev filter : Bytes
filter = b'a' ∷ b'/' ∷ b'+' ∷ []

abbrev topic : Bytes
topic = b'a' ∷ b'/' ∷ b'b' ∷ []

subscribe_to-first : (subscribe_to client filter).1 ≡ true
unfolding subscribe_to new_device scan keep_free bytes_eq
subscribe_to-first = refl

is_subscribed_to-subscribe_to_example :
    is_subscribed_to (subscribe_to client filter).0 topic
    ≡ (topic_matches_pattern topic filter || is_subscribed_to client topic)
is_subscribed_to-subscribe_to_example =
    is_subscribed_to-subscribe_to client filter topic subscribe_to-first

subscribe_to-HasFilters_example : HasFilters (subscribe_to client filter).0
subscribe_to-HasFilters_example =
    subscribe_to-HasFilters client filter (new_device-HasFilters client_mac 1 100)

unsubscribe_from_lem_example :
    let d = (subscribe_to client filter).0 in
    ((unsubscribe_from d filter).1 ≡ holds filter d.subscriptions)
    × Unsubscribed filter topic d (unsubscribe_from d filter)
unsubscribe_from_lem_example =
    unsubscribe_from_lem (subscribe_to client filter).0 filter topic
      (subscribe_to-HasFilters client filter (new_device-HasFilters client_mac 1 100))

-- The empty filter of a new device, which has none.
unsubscribe_from_empty : (unsubscribe_from client []).1 ≡ true
unfolding unsubscribe_from clear_filter new_device bytes_eq
unsubscribe_from_empty = refl

allocate_cid_total_example :
    (c : ℕ) × (after : ℕ) × (allocate_cid (suc (length (client ∷ []))) 1 (client ∷ [])
      ≡ some (c, after))
    × IsFree c after (client ∷ [])
allocate_cid_total_example =
    allocate_cid_total 1 (client ∷ []) (omega arith) (omega arith) (omega arith)

-- A radio that does what it is asked.
abbrev willing : PeerOps
willing = record { add_answer = λ calls mac. true; secure_answer = λ calls mac key. true }

abbrev visit : List Call
visit =
    begins client_mac 5 0 6 100
    ∷ completes client_mac 200
    ∷ secures client_mac []
    ∷ expires 70000
    ∷ []
