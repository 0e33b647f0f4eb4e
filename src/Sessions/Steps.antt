-- ===== src/Sessions/Steps.antt =====
-- Every call keeps the session table valid, and so does every sequence of calls.
use night_mare_network.Base.{
  ℕ, zero, suc, ◌<◌, ◌≡◌, refl, ◌∙◌, ◌⊎◌, inl, inr, Bool, true, false, if◌then◌else◌, Bytes, Option,
  none, some, List, [], ◌∷◌, length, arith, Bool-cases, Option-cases,
}
use night_mare_network.Device.{Device}
use night_mare_network.Sessions.{
  DeviceManager, PendingHandshake, wiped, new_manager, pending_for, free_pending, get_pending,
  is_pending_for, is_stale, max_pending, erase_session, call_removed, suspend, call_add,
  call_secure, restore_session, release_session, abandon_handshake, choose_slot, open_handshake,
  begin_handshake, complete_handshake, secure_session, expire_pending, expire_one, expire_sessions,
  expire, reset, device_at,
}
use night_mare_network.Sessions.Radio.{PeerOps, added}
use night_mare_network.Sessions.Pending.{pending_for-modify-none}
use night_mare_network.Sessions.Invariant.{
  IsValid, never, new_manager-IsValid, calls-IsValid, update-IsValid, suspend-keeps,
  set_pending-IsValid, erase_session-IsValid, abandon_handshake-IsValid, secure_session-IsValid,
  complete_handshake-IsValid,
}

erase_session-pending :
    (m : DeviceManager) (mac : Bytes) (keep : Bool) → (erase_session m mac keep).pending ≡ m.pending
unfolding erase_session call_removed
erase_session-pending m mac keep = ground arith

choose_of {ℓ} :
    (P : DeviceManager → Type ℓ) (b : Bool) (x y : DeviceManager)
    → P x
    → P y
    → P (if b then x else y)
choose_of P true x y p q = p
choose_of P false x y p q = q

module _ (peers : PeerOps) where
  release_session-pending :
      (m : DeviceManager) (mac : Bytes) (o : Option Device)
      → (release_session peers m mac o).pending ≡ m.pending
  unfolding release_session restore_session call_removed call_secure
  release_session-pending m mac none = refl
  release_session-pending m mac (some d) = ground (
    arith,
    erase_session-pending m mac false,
    erase_session-pending (call_secure peers m mac d.session_key).0 mac false,
  )

  -- Abandoning a handshake starts none.
  pub abandon_handshake-pending_none :
      (m : DeviceManager) (mac other : Bytes)
      → pending_for mac m.pending ≡ none
      → pending_for mac (abandon_handshake peers m other).pending ≡ none
  unfolding abandon_handshake wiped is_pending_for
  abandon_handshake-pending_none m mac other e = elim (Option-cases (pending_for other m.pending)) [
    | inl f ↦ rw (f, abandon_handshake) e
    | inr (i, f) ↦
        rw (f, abandon_handshake, release_session-pending)
          (pending_for-modify-none mac (λ _. wiped) m.pending i e refl)
  ]

  open_handshake-IsValid :
      (m : DeviceManager) (i : ℕ) (mac : Bytes) (a b c now : ℕ)
      → (pending_for mac m.pending ≡ none) ⊎ (pending_for mac m.pending ≡ some i)
      → IsValid m
      → IsValid (open_handshake peers m i mac a b c now).0
  unfolding open_handshake call_add
  open_handshake-IsValid m i mac a b c now own v =
      let entry : PendingHandshake = record {
        active = true;
        mac = mac;
        client_nonce = a;
        gateway_nonce = c;
        capabilities = b;
        started_at_ms = now;
      } in
      let called = calls-IsValid m (added mac ∷ m.calls) v in
      elim (Bool-cases (peers.add_answer m.calls mac)) [
        | inl y ↦ rw y (
            update-IsValid _ mac suspend suspend-keeps
              (set_pending-IsValid _ i (λ _. entry) (λ _. own) called))
        | inr n ↦ rw n (set_pending-IsValid _ i (λ p. record p { active = false }) (λ e. cc) called)
      ]

  choose_slot-IsValid :
      (m : DeviceManager) (mac : Bytes) (now : ℕ)
      → IsValid m
      → IsValid (choose_slot peers m mac now).0
        × ((i : ℕ)
            → (choose_slot peers m mac now).1 ≡ some i
            → (pending_for mac (choose_slot peers m mac now).0.pending ≡ none)
              ⊎ (pending_for mac (choose_slot peers m mac now).0.pending ≡ some i))
  unfolding choose_slot
  choose_slot-IsValid m mac now v = elim (Option-cases (pending_for mac m.pending)) [
    | inr (i, e) ↦ rw (e, choose_slot) (v, λ j f. inr (e ∙ f))
    | inl e ↦ elim (Option-cases (free_pending now m.pending)) [
      | inl f ↦ rw (e, f, choose_slot) (v, λ j g. cc)
      | inr (i, f) ↦
          let old = get_pending m.pending i in
          rw (e, f, choose_slot)
            (
              choose_of IsValid old.active (abandon_handshake peers m old.mac) m
                  (abandon_handshake-IsValid peers m old.mac v) v,
              λ j g. inl (
                  choose_of (λ x. pending_for mac x.pending ≡ none) old.active
                    (abandon_handshake peers m old.mac) m
                    (abandon_handshake-pending_none m mac old.mac e) e),
            )
    ]
  ]

  pub begin_handshake-IsValid :
      (m : DeviceManager) (mac : Bytes) (a b c now : ℕ)
      → IsValid m
      → IsValid (begin_handshake peers m mac a b c now).0
  unfolding begin_handshake
  begin_handshake-IsValid m mac a b c now v =
      let chosen = choose_slot peers m mac now in
      let (ok, own) = choose_slot-IsValid m mac now v in
      elim (Option-cases chosen.1) [
        | inl e ↦ rw (e, begin_handshake) ok
        | inr (i, e) ↦
            rw (e, begin_handshake) (open_handshake-IsValid chosen.0 i mac a b c now (own i e) ok)
      ]

  expire_pending-IsValid :
      (left i now : ℕ) (m : DeviceManager) → IsValid m → IsValid (expire_pending peers left i now m)
  unfolding expire_pending
  expire_pending-IsValid zero i now m v = v
  expire_pending-IsValid (suc left) i now m v =
      let p = get_pending m.pending i in
      expire_pending-IsValid left (suc i) now _ (
        choose_of IsValid (is_stale now p) (abandon_handshake peers m p.mac) m
          (abandon_handshake-IsValid peers m p.mac v) v)

expire_one-IsValid :
    (now : ℕ) (o : Option Device) (m : DeviceManager) → IsValid m → IsValid (expire_one now o m).0
unfolding expire_one
expire_one-IsValid now none m v = v
expire_one-IsValid now (some d) m v = ground (arith, erase_session-IsValid m d.mac false v)

expire_sessions-IsValid :
    (now i : ℕ) (m : DeviceManager) → IsValid m → IsValid (expire_sessions now i m).0
unfolding expire_sessions
expire_sessions-IsValid now zero m v = v
expire_sessions-IsValid now (suc i) m v =
    expire_sessions-IsValid now i (expire_one now (device_at m.devices i) m).0
      (expire_one-IsValid now (device_at m.devices i) m v)

-- The calls that change the table.
pub data Call : Type 0 where
  begins : Bytes → ℕ → ℕ → ℕ → ℕ → Call
  abandons : Bytes → Call
  completes : Bytes → ℕ → Call
  secures : Bytes → Bytes → Call
  ends : Bytes → Call
  expires : ℕ → Call
  resets : Call

unfoldable pub step : PeerOps → DeviceManager → Call → DeviceManager
step peers m (begins mac a b c now) = (begin_handshake peers m mac a b c now).0
step peers m (abandons mac) = abandon_handshake peers m mac
step peers m (completes mac now) = (complete_handshake peers m mac now).0
step peers m (secures mac lmk) = (secure_session peers m mac lmk).0
step peers m (ends mac) = erase_session m mac false
step peers m (expires now) = (expire peers m now).0
step peers m resets = reset m

unfoldable pub run : PeerOps → DeviceManager → List Call → DeviceManager
run peers m [] = m
run peers m (c ∷ cs) = run peers (step peers m c) cs

reset-IsValid : (m : DeviceManager) → IsValid m → IsValid (reset m)
unfolding reset wiped
reset-IsValid m v = record {
  room = omega arith;
  distinct = tt;
  with_cids = tt;
  next_pos = v.next_pos;
  next_fits = v.next_fits;
  slots = refl;
  apart = (λ e. absurd (never e), (λ e. absurd (never e), (λ e. absurd (never e), tt)));
}

step-IsValid :
    (peers : PeerOps) (m : DeviceManager) (c : Call) → IsValid m → IsValid (step peers m c)
unfolding step expire
step-IsValid peers m (begins mac a b c now) v = begin_handshake-IsValid peers m mac a b c now v
step-IsValid peers m (abandons mac) v = abandon_handshake-IsValid peers m mac v
step-IsValid peers m (completes mac now) v = complete_handshake-IsValid peers m mac now v
step-IsValid peers m (secures mac lmk) v = secure_session-IsValid peers m mac lmk v
step-IsValid peers m (ends mac) v = erase_session-IsValid m mac false v
step-IsValid peers m (expires now) v =
    expire_sessions-IsValid now (length (expire_pending peers max_pending 0 now m).devices)
      (expire_pending peers max_pending 0 now m)
      (expire_pending-IsValid peers max_pending 0 now m v)
step-IsValid peers m resets v = reset-IsValid m v

run_from-IsValid :
    (peers : PeerOps) (m : DeviceManager) (cs : List Call) → IsValid m → IsValid (run peers m cs)
unfolding run
run_from-IsValid peers m [] v = v
run_from-IsValid peers m (c ∷ cs) v =
    run_from-IsValid peers (step peers m c) cs (step-IsValid peers m c v)

pub run-IsValid :
    (peers : PeerOps) (timeout first : ℕ) (cs : List Call)
    → first < 65536
    → IsValid (run peers (new_manager timeout first) cs)
run-IsValid peers timeout first cs h =
    run_from-IsValid peers (new_manager timeout first) cs (new_manager-IsValid timeout first h)
