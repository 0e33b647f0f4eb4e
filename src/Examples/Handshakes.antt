-- ===== src/Examples/Handshakes.antt =====
-- Handshakes and sessions on concrete values.
use night_mare_network.Base.{
  ◌≡◌, refl, true, false, ltb, Bytes, bytes_eq, none, some, List, [], ◌∷◌, length, arith,
}
use night_mare_network.Frame.{FrameHeader, frame_type_of}
use night_mare_network.Device.{Device, securing, new_device, set_session_key}
use night_mare_network.Sessions.{
  session, new_manager, wiped, pending_for, is_pending_for, free_pending, is_stale, get_pending,
  choose_slot, call_add, suspend, open_handshake, begin_handshake, abandon_handshake, allocate_cid,
  add_session, erase_session, complete_handshake, call_secure, begin_securing, secure_session,
  route, may_secure, state_verdict, session_verdict, admit,
}
use night_mare_network.Sessions.Radio.{PeerOps}
use night_mare_network.Sessions.Table.{session_for, find_cid, session_by_cid, update_first}
use night_mare_network.Sessions.Steps.{Call, begins, completes, secures, step, run, run-IsValid}
use night_mare_network.Sessions.Admission.{IsAdmitted, admit-IsAdmitted}
use night_mare_network.Sessions.Restoring.{begin_handshake_undone}
use night_mare_network.Sessions.Refusal.{abandon_handshake-begin_handshake}

abbrev client_mac : Bytes
client_mac = 1 ∷ 2 ∷ 3 ∷ 4 ∷ 5 ∷ 6 ∷ []

-- A radio that adds a peer twice and then no more.
abbrev failing : PeerOps
failing = record {
  add_answer = λ calls mac. ltb (length calls) 2;
  secure_answer = λ calls mac key. true;
}

-- A session, and a second handshake that has suspended it.
abbrev again : List Call
again = begins client_mac 5 0 6 100 ∷ completes client_mac 200 ∷ begins client_mac 7 0 8 300 ∷ []

abbrev paused : Device
paused = record (new_device client_mac 1 200) { suspended = true }

again_pending : pending_for client_mac (run failing (new_manager 60000 1) again).pending ≡ some 0
unfolding run step new_manager wiped begin_handshake choose_slot open_handshake call_add
    complete_handshake add_session allocate_cid erase_session pending_for is_pending_for
    free_pending is_stale get_pending session_for session_by_cid find_cid update_first suspend
    new_device bytes_eq
again_pending = refl

again_session :
    session_for client_mac (run failing (new_manager 60000 1) again).devices ≡ some paused
unfolding run step new_manager wiped begin_handshake choose_slot open_handshake call_add
    complete_handshake add_session allocate_cid erase_session pending_for is_pending_for
    free_pending is_stale get_pending session_for session_by_cid find_cid update_first suspend
    new_device bytes_eq
again_session = refl

again_refused :
    failing.add_answer (run failing (new_manager 60000 1) again).calls client_mac ≡ false
unfolding run step new_manager wiped begin_handshake choose_slot open_handshake call_add
    complete_handshake add_session allocate_cid erase_session pending_for is_pending_for
    free_pending is_stale get_pending session_for session_by_cid find_cid update_first suspend
    new_device bytes_eq
again_refused = refl

abandon_handshake-begin_handshake_example :
    let m = run failing (new_manager 60000 1) again in
    let r = begin_handshake failing m client_mac 9 0 10 400 in
    (r.1 ≡ none)
    × (pending_for client_mac r.0.pending ≡ none)
    × (session_for client_mac r.0.devices ≡ some paused)
    × (abandon_handshake failing r.0 client_mac ≡ r.0)
abandon_handshake-begin_handshake_example =
    abandon_handshake-begin_handshake failing (run failing (new_manager 60000 1) again) client_mac 0
      9 0 10 400 paused (run-IsValid failing 60000 1 again (omega arith)) again_pending
      again_session refl again_refused

-- A session that waits for its encrypted PING.
abbrev visit : List Call
visit = begins client_mac 5 0 6 100 ∷ completes client_mac 200 ∷ secures client_mac (7 ∷ []) ∷ []

abbrev ping_header : FrameHeader
ping_header = record {
  message_id = 4;
  version = 0;
  frame_type = 6;
  cid = 1;
  frame_index = 0;
  total_frames = 1;
  size = 0;
}

abbrev secured_device : Device
secured_device = record (new_device client_mac 1 200) {
  session_key = 7 ∷ [];
  has_session_key = true;
  state = securing;
}

ping_session :
    admit (run failing (new_manager 60000 1) visit) client_mac ping_header
    ≡ (session, some secured_device)
unfolding run step new_manager wiped begin_handshake choose_slot open_handshake call_add
    complete_handshake add_session allocate_cid erase_session pending_for is_pending_for
    free_pending is_stale get_pending session_for session_by_cid find_cid update_first suspend
    new_device bytes_eq secure_session call_secure begin_securing set_session_key admit route
    may_secure state_verdict session_verdict frame_type_of
ping_session = refl

admit-IsAdmitted_example :
    IsAdmitted (run failing (new_manager 60000 1) visit) client_mac ping_header secured_device
admit-IsAdmitted_example =
    admit-IsAdmitted (run failing (new_manager 60000 1) visit) client_mac ping_header secured_device
      ping_session

abbrev willing : PeerOps
willing = record { add_answer = λ calls mac. true; secure_answer = λ calls mac key. true }

visit-choose_slot :
    choose_slot willing (run willing (new_manager 60000 1) visit) client_mac 300
    ≡ (run willing (new_manager 60000 1) visit, some 0)
unfolding run step new_manager wiped begin_handshake choose_slot open_handshake call_add
    complete_handshake add_session allocate_cid erase_session pending_for is_pending_for
    free_pending is_stale get_pending session_for session_by_cid find_cid update_first suspend
    new_device bytes_eq secure_session call_secure begin_securing set_session_key
visit-choose_slot = refl

visit-length : length (run willing (new_manager 60000 1) visit).pending ≡ 3
unfolding run step new_manager wiped begin_handshake choose_slot open_handshake call_add
    complete_handshake add_session allocate_cid erase_session pending_for is_pending_for
    free_pending is_stale get_pending session_for session_by_cid find_cid update_first suspend
    new_device bytes_eq secure_session call_secure begin_securing set_session_key
visit-length = refl

visit-pending_for : pending_for client_mac (run willing (new_manager 60000 1) visit).pending ≡ none
unfolding run step new_manager wiped begin_handshake choose_slot open_handshake call_add
    complete_handshake add_session allocate_cid erase_session pending_for is_pending_for
    free_pending is_stale get_pending session_for session_by_cid find_cid update_first suspend
    new_device bytes_eq secure_session call_secure begin_securing set_session_key
visit-pending_for = refl

visit-session_for :
    session_for client_mac (run willing (new_manager 60000 1) visit).devices ≡ some secured_device
unfolding run step new_manager wiped begin_handshake choose_slot open_handshake call_add
    complete_handshake add_session allocate_cid erase_session pending_for is_pending_for
    free_pending is_stale get_pending session_for session_by_cid find_cid update_first suspend
    new_device bytes_eq secure_session call_secure begin_securing set_session_key
visit-session_for = refl

begin_handshake_undone_example :
    let m = run willing (new_manager 60000 1) visit in
    let r = begin_handshake willing m client_mac 9 0 10 300 in
    (r.1 ≡ some 0) × ((abandon_handshake willing r.0 client_mac).devices ≡ m.devices)
unfolding new_device
begin_handshake_undone_example =
    begin_handshake_undone willing (run willing (new_manager 60000 1) visit) client_mac 0 9 0 10 300
      secured_device visit-choose_slot (omega (arith, visit-length)) visit-pending_for
      visit-session_for refl refl refl (λ calls key. refl)
