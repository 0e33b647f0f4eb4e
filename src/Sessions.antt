-- ===== src/Sessions.antt =====
-- The gateway's session table: `espDeviceManager` of src/Gateway/EspNow/espDeviceManager.h and
-- espDeviceManager.cpp. The radio's peer table is not under src/: `PeerOps` answers each call from
-- the calls made before it, and the manager keeps the list of those, newest first. Both `add` and
-- `secure` are set, as `espBroker_init` sets them. A `Device *` is the MAC of its session, which no
-- other session has; a `PendingHandshake *` is an index.
pub mod Radio
pub mod Table
pub mod Cids
pub mod Pending
pub mod Invariant
pub mod Steps
pub mod Admission
pub mod Refusal
pub mod Restoring
use night_mare_network.Base.{
  ℕ, zero, suc, ◌+◌, ◌-◌, ◌%◌, Bool, true, false, not, ◌&&◌, ◌||◌, ◌==◌, ltb, leb, if◌then◌else◌,
  Bytes, bytes_eq, is_empty, sub64, Option, none, some, List, [], ◌∷◌, ◌++◌, length, replicate,
}
use night_mare_network.Base.Slots.{modify}
use night_mare_network.Frame.{
  FrameType, FrameHeader, connect, auth, beacon, challenge, connack, ping, disconnect,
  frame_type_of,
}
use night_mare_network.Device.{
  Device, ConnectionState, authenticated, securing, connected, new_device, forget_session_key,
  set_session_key, is_connected, has_last_will, subscription_count,
}
use Radio.{PeerCall, added, secured, removed, PeerOps}
use Table.{session_for, session_by_cid, erase_first, update_first}

pub record PendingHandshake : Type 0 where
  pub active : Bool
  pub mac : Bytes
  pub client_nonce : ℕ  -- uint64
  pub gateway_nonce : ℕ  -- uint64
  pub capabilities : ℕ  -- uint16
  pub started_at_ms : ℕ  -- uint64

-- `EspNowAuth::wipe` leaves zeros.
unfoldable pub wiped : PendingHandshake
wiped = record {
  active = false;
  mac = replicate 6 0;
  client_nonce = 0;
  gateway_nonce = 0;
  capabilities = 0;
  started_at_ms = 0;
}

pub record DeviceManager : Type 0 where
  pub devices : List Device
  pub pending : List PendingHandshake
  pub session_timeout_ms : ℕ
  pub next_cid : ℕ  -- uint16
  pub calls : List PeerCall

abbrev pub max_devices : ℕ
max_devices = 16

abbrev pub max_pending : ℕ
max_pending = 3

abbrev pub handshake_timeout_ms : ℕ
handshake_timeout_ms = 5000

abbrev pub securing_timeout_ms : ℕ
securing_timeout_ms = 5000

unfoldable pub new_manager : ℕ → ℕ → DeviceManager
unfolding wiped
new_manager session_timeout first_cid = record {
  devices = [];
  pending = replicate max_pending wiped;
  session_timeout_ms = session_timeout;
  next_cid = if first_cid == 0 then 1 else first_cid;
  calls = [];
}

pub data Verdict : Type 0 where
  handshake session ignore invalid_session not_connected : Verdict

unfoldable pub is_pending_for : Bytes → PendingHandshake → Bool
is_pending_for mac p = p.active && bytes_eq p.mac mac

-- `pendingFor`: the index of the handshake of a MAC.
unfoldable pub pending_for : Bytes → List PendingHandshake → Option ℕ
unfolding is_pending_for
pending_for mac [] = none
pending_for mac (p ∷ ps) =
    if is_pending_for mac p
    then some 0
    else elim (pending_for mac ps) [ none ↦ none | some i ↦ some (suc i) ]

abbrev pub is_some {ℓ} : {A : Type ℓ} → Option A → Bool
is_some none = false
is_some (some a) = true

-- The first `switch` of `admit`: frames that need no session.
pub data Route : Type 0 where
  decided : Verdict → Route
  needs_session : Route

unfoldable pub route : Option FrameType → Bool → Route
route (some connect) waits = decided handshake
route (some auth) waits = decided (if waits then handshake else ignore)
route (some beacon) waits = decided ignore
route (some challenge) waits = decided ignore
route (some connack) waits = decided ignore
route _ waits = needs_session

unfoldable pub may_secure : Option FrameType → Bool
may_secure (some ping) = true
may_secure (some disconnect) = true
may_secure _ = false

-- The second `switch`, on the session's state.
unfoldable pub state_verdict : ConnectionState → Option FrameType → Verdict
unfolding may_secure
state_verdict connected t = session
state_verdict securing t = if may_secure t then session else not_connected
state_verdict _ t = not_connected

unfoldable pub session_verdict : Option Device → FrameHeader → Verdict × Option Device
unfolding state_verdict
session_verdict none h = (ignore, none)
session_verdict (some d) h =
    if d.suspended
    then (ignore, none)
    else if not (h.cid == d.cid)
    then (invalid_session, some d)
    else (state_verdict d.state (frame_type_of h.frame_type), some d)

unfoldable pub admit : DeviceManager → Bytes → FrameHeader → Verdict × Option Device
unfolding route session_verdict
admit m mac h = elim (route (frame_type_of h.frame_type) (is_some (pending_for mac m.pending))) [
  | decided v ↦ (v, none)
  | needs_session ↦ session_verdict (session_for mac m.devices) h
]

unfoldable pub call_removed : DeviceManager → Bytes → DeviceManager
call_removed m mac = record m { calls = removed mac ∷ m.calls }

unfoldable pub erase_session : DeviceManager → Bytes → Bool → DeviceManager
unfolding call_removed
erase_session m mac keep_peer = elim (session_for mac m.devices) [
  | none ↦ m
  | some d ↦
      let m' = record m { devices = erase_first mac m.devices } in
      if keep_peer then m' else call_removed m' mac
]

abbrev pub end_session : DeviceManager → Bytes → DeviceManager
end_session m mac = erase_session m mac false

unfoldable pub resume : Device → Device
resume d = record d { suspended = false }

unfoldable pub suspend : Device → Device
suspend d = record d { suspended = true }

unfoldable pub get_pending : List PendingHandshake → ℕ → PendingHandshake
unfolding wiped
get_pending [] i = wiped
get_pending (p ∷ ps) zero = p
get_pending (p ∷ ps) (suc i) = get_pending ps i

unfoldable pub is_stale : ℕ → PendingHandshake → Bool
is_stale now p = p.active && ltb handshake_timeout_ms (sub64 now p.started_at_ms)

-- The loop of `beginHandshake` for a slot that is free or has timed out.
unfoldable pub free_pending : ℕ → List PendingHandshake → Option ℕ
unfolding is_stale
free_pending now [] = none
free_pending now (p ∷ ps) =
    if not p.active || is_stale now p
    then some 0
    else elim (free_pending now ps) [ none ↦ none | some i ↦ some (suc i) ]

-- `allocateCid`: a free cid and the next `nextCid`. The source loops without a bound.
unfoldable pub allocate_cid : ℕ → ℕ → List Device → Option (ℕ × ℕ)
allocate_cid zero next ds = none
allocate_cid (suc fuel) next ds =
    let after = if (next + 1) % 65536 == 0 then 1 else (next + 1) % 65536 in
    let rest = allocate_cid fuel after ds in
    if not (next == 0) && not (is_some (session_by_cid next ds)) then some (next, after) else rest

-- A new session at the end of the table. `none` of `allocate_cid` does not occur.
unfoldable pub add_session : DeviceManager → Bytes → ℕ → DeviceManager × Option Device
add_session m mac now = elim (allocate_cid (suc (length m.devices)) m.next_cid m.devices) [
  | none ↦ (m, none)
  | some (cid, after) ↦
      let d = new_device mac cid now in
      (record m { devices = m.devices ++ d ∷ []; next_cid = after }, some d)
]

unfoldable pub begin_securing : Bytes → Device → Device
unfolding set_session_key
begin_securing lmk d = record (set_session_key d lmk) { state = securing }

unfoldable pub is_lost : DeviceManager → ℕ → Device → Bool
is_lost m now d =
    not d.suspended
    && ltb (if is_connected d then m.session_timeout_ms else securing_timeout_ms)
        (sub64 now d.last_seen_ms)

unfoldable pub device_at : List Device → ℕ → Option Device
device_at [] i = none
device_at (d ∷ ds) zero = some d
device_at (d ∷ ds) (suc i) = device_at ds i

unfoldable pub fires_will : Device → Bool
fires_will d = is_connected d && has_last_will d

-- The body of the second loop of `expire`: the sessions for which `onLost` is called, and the manager.
unfoldable pub expire_one : ℕ → Option Device → DeviceManager → DeviceManager × List Device
unfolding is_lost fires_will
expire_one now none m = (m, [])
expire_one now (some d) m =
    if is_lost m now d then (end_session m d.mac, if fires_will d then d ∷ [] else []) else (m, [])

-- That loop, down from index `i - 1`.
unfoldable pub expire_sessions : ℕ → ℕ → DeviceManager → DeviceManager × List Device
unfolding expire_one device_at
expire_sessions now zero m = (m, [])
expire_sessions now (suc i) m =
    let (m', lost) = expire_one now (device_at m.devices i) m in
    let (m'', more) = expire_sessions now i m' in (m'', lost ++ more)

module _ (peers : PeerOps) where
  unfoldable pub call_add : DeviceManager → Bytes → DeviceManager × Bool
  call_add m mac = (record m { calls = added mac ∷ m.calls }, peers.add_answer m.calls mac)

  unfoldable pub call_secure : DeviceManager → Bytes → Bytes → DeviceManager × Bool
  call_secure m mac key =
      (record m { calls = secured mac key ∷ m.calls }, peers.secure_answer m.calls mac key)

  -- A suspended session gets its key back on the peer, or ends. Without a key `secure` is not called.
  unfoldable pub restore_session : DeviceManager → Bytes → Device → DeviceManager
  unfolding call_secure erase_session resume
  restore_session m mac d =
      let (m', done) = call_secure m mac d.session_key in
      if not d.has_session_key
      then erase_session m mac false
      else if done
      then record m' { devices = update_first mac resume m'.devices }
      else erase_session m' mac false

  -- What `abandonHandshake` does once the entry is wiped.
  unfoldable pub release_session : DeviceManager → Bytes → Option Device → DeviceManager
  unfolding restore_session call_removed
  release_session m mac none = call_removed m mac
  release_session m mac (some d) = if d.suspended then restore_session m mac d else m

  unfoldable pub abandon_handshake : DeviceManager → Bytes → DeviceManager
  unfolding release_session wiped
  abandon_handshake m mac = elim (pending_for mac m.pending) [
    | none ↦ m
    | some i ↦
        release_session (record m { pending = modify m.pending i (λ _. wiped) }) mac
          (session_for mac m.devices)
  ]

  -- The slot for a handshake: the MAC's own, or one that is free or is freed by abandoning it.
  unfoldable pub choose_slot : DeviceManager → Bytes → ℕ → DeviceManager × Option ℕ
  unfolding get_pending
  choose_slot m mac now = elim (pending_for mac m.pending) [
    | some i ↦ (m, some i)
    | none ↦ elim (free_pending now m.pending) [
      | none ↦ (m, none)
      | some i ↦
          let old = get_pending m.pending i in
          (if old.active then abandon_handshake m old.mac else m, some i)
    ]
  ]

  -- The rest of `beginHandshake`, with the slot at index `i`.
  unfoldable pub open_handshake :
      DeviceManager → ℕ → Bytes → ℕ → ℕ → ℕ → ℕ → DeviceManager × Option ℕ
  unfolding call_add suspend
  open_handshake m i mac client_nonce capabilities gateway_nonce now =
      let (m', done) = call_add m mac in
      if done
      then (
        record m' {
          devices = update_first mac suspend m'.devices;
          pending = modify m'.pending i (λ _. record {
            active = true;
            mac = mac;
            client_nonce = client_nonce;
            gateway_nonce = gateway_nonce;
            capabilities = capabilities;
            started_at_ms = now;
          });
        },
        some i,
      )
      else (record m' { pending = modify m'.pending i (λ p. record p { active = false }) }, none)

  -- `none` is the null pointer.
  unfoldable pub begin_handshake : DeviceManager → Bytes → ℕ → ℕ → ℕ → ℕ → DeviceManager × Option ℕ
  unfolding choose_slot open_handshake
  begin_handshake m mac client_nonce capabilities gateway_nonce now =
      let (m', slot) = choose_slot m mac now in
      elim slot [
        | none ↦ (m', none)
        | some i ↦ open_handshake m' i mac client_nonce capabilities gateway_nonce now
      ]

  unfoldable pub complete_handshake : DeviceManager → Bytes → ℕ → DeviceManager × Option Device
  unfolding add_session wiped
  complete_handshake m mac now = elim (pending_for mac m.pending) [
    | none ↦ (m, none)
    | some i ↦
        let consumed = record m { pending = modify m.pending i (λ _. wiped) } in
        if not (is_some (session_for mac m.devices)) && leb max_devices (length m.devices)
        then (abandon_handshake m mac, none)
        else add_session (erase_session consumed mac true) mac now
  ]

  -- `device` is the session of `mac`.
  unfoldable pub secure_session : DeviceManager → Bytes → Bytes → DeviceManager × Bool
  unfolding call_secure begin_securing
  secure_session m mac lmk =
      let (m', done) = call_secure m mac lmk in
      if done
      then (record m' { devices = update_first mac (begin_securing lmk) m'.devices }, true)
      else (end_session m' mac, false)

  -- The first loop of `expire`, at the entries from `i` on, `left` of them.
  unfoldable pub expire_pending : ℕ → ℕ → ℕ → DeviceManager → DeviceManager
  unfolding get_pending is_stale
  expire_pending zero i now m = m
  expire_pending (suc left) i now m =
      let p = get_pending m.pending i in
      expire_pending left (suc i) now (if is_stale now p then abandon_handshake m p.mac else m)

  unfoldable pub expire : DeviceManager → ℕ → DeviceManager × List Device
  unfolding expire_pending expire_sessions
  expire m now =
      let m' = expire_pending max_pending 0 now m in expire_sessions now (length m'.devices) m'

unfoldable pub reset : DeviceManager → DeviceManager
unfolding wiped
reset m = record m { devices = []; pending = replicate max_pending wiped }

unfoldable pub has_connected_device_named : List Device → Bytes → Bool
has_connected_device_named [] name = false
has_connected_device_named (d ∷ ds) name =
    (is_connected d && bytes_eq d.assumed_name name) || has_connected_device_named ds name

unfoldable pub subscriber_count : List Device → ℕ
subscriber_count [] = 0
subscriber_count (d ∷ ds) =
    (if is_connected d && ltb 0 (subscription_count d) then 1 else 0) + subscriber_count ds

unfoldable pub pending_count : List PendingHandshake → ℕ
pending_count [] = 0
pending_count (p ∷ ps) = (if p.active then 1 else 0) + pending_count ps
