-- ===== src/Vault/Retain.antt =====
-- What the vault promises: the invariant of its entries, and what `retainMessage` changes.
use night_mare_network.Base.{
  ℕ, ◌+◌, ◌%◌, ◌^◌, ◌<◌, min, ◌≡◌, refl, ◌≢◌, sym, ◌∙◌, ◌⊎◌, inl, inr, ◌↔◌, true, false, ◌&&◌, ◌==◌,
  if◌then◌else◌, Bytes, bytes_eq, bytes_eq_iff, bytes_eq_refl, bytes_eq_sound, Option, none, some,
  List, [], ◌∷◌, ◌++◌, length, length-take, take, arith, Bool-cases, subst, append-nil,
  append_assoc, In,
}
use night_mare_network.Topic.{is_valid_publish_topic, topic_matches_pattern}
use night_mare_network.Message.{Message, Direction}
use night_mare_network.Vault.Map.{
  lookup, upsert, erase, IsSorted, lookup-upsert, lookup-After, lookup-erase, upsert-IsSorted,
  erase-IsSorted,
}
use night_mare_network.Vault.{
  MessageVault, RetainedEntry, empty_vault, bump_version, entry_for, replaced, remove_retained,
  replace_retained, retain_message, collect, get_messages_for_topic,
}

-- An entry is retained under its own topic, which may be published, and has a payload.
pub record IsKept (k : Bytes) (e : RetainedEntry) : Type 0 where
  pub keyed : e.message.topic ≡ k
  pub valid : is_valid_publish_topic k ≡ true
  pub persistent : e.message.persistent ≡ true
  pub nonempty : 0 < length e.message.payload

abbrev AllKept : List (Bytes × RetainedEntry) → Type 0
AllKept [] = Unit {0}
AllKept ((k, e) ∷ m) = IsKept k e × AllKept m

-- The entries are in the order of their topics, no topic twice, each properly kept; the version is
-- a uint32 and not 0.
pub record IsValid (v : MessageVault) : Type 0 where
  pub sorted : IsSorted v.retained
  pub kept : AllKept v.retained
  pub version_pos : 0 < v.version
  pub version_fits : v.version < 2 ^ 32

pub empty_vault-IsValid : IsValid empty_vault
unfolding empty_vault
empty_vault-IsValid = record {
  sorted = tt;
  kept = tt;
  version_pos = omega arith;
  version_fits = omega arith;
}

bump_version_lem :
    (v : ℕ)
    → 0 < v
    → v < 2 ^ 32
    → (0 < bump_version v) × (bump_version v < 2 ^ 32) × (bump_version v ≢ v)
unfolding bump_version
bump_version_lem v p h = ground arith

AllKept-upsert :
    (k : Bytes) (e : RetainedEntry) (m : List (Bytes × RetainedEntry))
    → IsKept k e
    → AllKept m
    → AllKept (upsert k e m)
unfolding upsert
AllKept-upsert k e [] h a = (h, tt)
AllKept-upsert k e ((j, w) ∷ m) h a = ground (arith, AllKept-upsert k e m h a.1)

AllKept-erase : (k : Bytes) (m : List (Bytes × RetainedEntry)) → AllKept m → AllKept (erase k m)
unfolding erase
AllKept-erase k [] a = tt
AllKept-erase k ((j, w) ∷ m) a = ground (arith, AllKept-erase k m a.1)

remove_retained-IsValid :
    (v : MessageVault) (t : Bytes) → IsValid v → IsValid (remove_retained v t).0
unfolding remove_retained
remove_retained-IsValid v t h = ground (
  arith,
  erase-IsSorted t v.retained h.sorted,
  AllKept-erase t v.retained h.kept,
  bump_version_lem v.version,
)

replace_retained-IsValid :
    (v : MessageVault) (t p : Bytes) (d : Direction) (now : ℕ)
    → is_valid_publish_topic t ≡ true
    → 0 < length p
    → IsValid v
    → IsValid (replace_retained v t p d now).0
unfolding replace_retained
replace_retained-IsValid v t p d now ok pos h =
    let entry = replaced (entry_for (lookup t v.retained)) t p d now in
    let kept : IsKept t entry = record {
      keyed = refl;
      valid = ok;
      persistent = refl;
      nonempty = pos;
    } in
    let version = bump_version_lem v.version h.version_pos h.version_fits in
    record {
      sorted = upsert-IsSorted t entry v.retained h.sorted;
      kept = AllKept-upsert t entry v.retained kept h.kept;
      version_pos = version.0;
      version_fits = version.1;
    }

-- `retainMessage` keeps the vault valid, whatever it is given.
pub retain_message-IsValid :
    (v : MessageVault) (t p : Bytes) (n : ℕ) (d : Direction) (now : ℕ)
    → IsValid v
    → IsValid (retain_message v t p n d now).0
unfolding retain_message
retain_message-IsValid v t p n d now h = elim (Bool-cases (is_valid_publish_topic t)) [
  | inr bad ↦ rw bad h
  | inl ok ↦ rw ok (elim (Bool-cases (min n (length p) == 0)) [
    | inl e ↦ rw e (remove_retained-IsValid v t h)
    | inr d' ↦ rw d' (
        replace_retained-IsValid v t (take (min n (length p)) p) d now ok
          (ground (arith, length-take (min n (length p)) p)) h)
  ])
]

-- The counter of an entry, from 0 where there is none.
abbrev pub revisions_of : Option RetainedEntry → ℕ
revisions_of none = 0
revisions_of (some e) = e.revisions

-- What is retained under `j` after a message for `t` with `n` bytes of the payload `p`.
abbrev pub retained_after :
    MessageVault → Bytes → Bytes → ℕ → Direction → ℕ → Bytes → Option RetainedEntry
retained_after v t p n d now j =
    let size = min n (length p) in
    if is_valid_publish_topic t && bytes_eq t j
    then (if size == 0
        then none
        else some (record {
          message = record { direction = d; topic = t; payload = take size p; persistent = true };
          updated_at_ms = now;
          revisions = (revisions_of (lookup t v.retained) + 1) % 2 ^ 32;
        }))
    else lookup j v.retained

remove_retained-lookup :
    (v : MessageVault) (t j : Bytes)
    → IsValid v
    → lookup j (remove_retained v t).0.retained
      ≡ (if bytes_eq t j then none else lookup j v.retained)
unfolding remove_retained
remove_retained-lookup v t j h =
    ground (arith, lookup-erase t j v.retained h.sorted, bytes_eq_iff t j)

replaced-entry_for :
    (old : Option RetainedEntry) (t p : Bytes) (d : Direction) (now : ℕ)
    → replaced (entry_for old) t p d now ≡ (record {
      message = record { direction = d; topic = t; payload = p; persistent = true };
      updated_at_ms = now;
      revisions = (revisions_of old + 1) % 2 ^ 32;
    })
unfolding replaced entry_for
replaced-entry_for none t p d now = refl
replaced-entry_for (some e) t p d now = refl

-- After `retainMessage` on topic `t`, a lookup of `t` gives an entry with the first `n` bytes of the
-- payload, marked retained, with the direction and the time of the call, and with the counter of the
-- entry that was there, or 0 if there was none, plus one modulo 2^32; if there are no such bytes, it
-- gives nothing.
-- Every other topic, and every topic if `t` may not be published, gives what it gave before.
pub lookup-retain_message :
    (v : MessageVault) (t p : Bytes) (n : ℕ) (d : Direction) (now : ℕ) (j : Bytes)
    → IsValid v
    → lookup j (retain_message v t p n d now).0.retained ≡ retained_after v t p n d now j
unfolding retain_message replace_retained
lookup-retain_message v t p n d now j h =
    let size = min n (length p) in
    let entry = replaced (entry_for (lookup t v.retained)) t (take size p) d now in
    elim (Bool-cases (is_valid_publish_topic t)) [
      | inr bad ↦ rw bad refl
      | inl ok ↦ rw ok (elim (Bool-cases (size == 0)) [
        | inl e ↦ rw e (remove_retained-lookup v t j h)
        | inr d' ↦
            rw (d', ← replaced-entry_for (lookup t v.retained) t (take size p) d now)
              (lookup-upsert t j entry v.retained)
      ])
    ]

-- The result of `retainMessage` is true exactly when the version changes; if it is false, the vault
-- is as it was.
pub retain_message-version :
    (v : MessageVault) (t p : Bytes) (n : ℕ) (d : Direction) (now : ℕ)
    → IsValid v
    → let r = retain_message v t p n d now in
      ((r.1 ≡ true) ↔ (r.0.version ≢ v.version)) × (r.1 ≡ false → r.0 ≡ v)
unfolding retain_message remove_retained replace_retained
retain_message-version v t p n d now h =
    let b = bump_version_lem v.version h.version_pos h.version_fits in ground arith

abbrev matching : Bytes → List (Bytes × RetainedEntry) → List Message
matching filter [] = []
matching filter ((k, e) ∷ m) =
    if topic_matches_pattern k filter then e.message ∷ matching filter m else matching filter m

collect-matching :
    (filter : Bytes) (m : List (Bytes × RetainedEntry)) (output : List Message)
    → (collect filter m output).0 ≡ output ++ matching filter m
unfolding collect
collect-matching filter [] output = sym (append-nil output)
collect-matching filter ((k, e) ∷ m) output = elim (Bool-cases (topic_matches_pattern k filter)) [
  | inl y ↦ rw y (
      collect-matching filter m (output ++ e.message ∷ [])
      ∙ append_assoc output (e.message ∷ []) (matching filter m))
  | inr n ↦ rw n (collect-matching filter m output)
]

abbrev pub IsSource :
    Bytes → List (Bytes × RetainedEntry) → Message → Bytes → RetainedEntry → Type 0
IsSource filter m a k e =
    (lookup k m ≡ some e) × (topic_matches_pattern k filter ≡ true) × (a ≡ e.message)

matching-IsSource :
    (filter : Bytes) (m : List (Bytes × RetainedEntry)) (a : Message)
    → IsSorted m
    → In a (matching filter m)
    → (k : Bytes) × (e : RetainedEntry) × IsSource filter m a k e
unfolding lookup
matching-IsSource filter [] a s h = absurd h
matching-IsSource filter ((i, w) ∷ m) a s h = elim (Bool-cases (topic_matches_pattern i filter)) [
  | inl y ↦ elim (front y h) [
    | inl e ↦ (i, w, (ground (arith, bytes_eq_refl i), y, e))
    | inr r ↦ behind (matching-IsSource filter m a s.1 r)
  ]
  | inr n ↦ behind (matching-IsSource filter m a s.1 (skip n h))
]
  where
    front :
        topic_matches_pattern i filter ≡ true
        → In a (matching filter ((i, w) ∷ m))
        → (a ≡ w.message) ⊎ In a (matching filter m)
    front y h =
        subst (λ b. In a (if b then w.message ∷ matching filter m else matching filter m)) y h

    skip :
        topic_matches_pattern i filter ≡ false
        → In a (matching filter ((i, w) ∷ m))
        → In a (matching filter m)
    skip n h =
        subst (λ b. In a (if b then w.message ∷ matching filter m else matching filter m)) n h

    behind :
        (k : Bytes) × (e : RetainedEntry) × IsSource filter m a k e
        → (k : Bytes) × (e : RetainedEntry) × IsSource filter ((i, w) ∷ m) a k e
    behind (k, e, (found, hit, same)) =
        (k, e, (ground (arith, bytes_eq_iff i k, lookup-After i m s.0), hit, same))

matching_complete :
    (filter : Bytes) (m : List (Bytes × RetainedEntry)) (k : Bytes) (e : RetainedEntry)
    → lookup k m ≡ some e
    → topic_matches_pattern k filter ≡ true
    → In e.message (matching filter m)
unfolding lookup
matching_complete filter [] k e h p = cc
matching_complete filter ((i, w) ∷ m) k e h p = elim (Bool-cases (bytes_eq i k)) [
  | inl y ↦ rw (bytes_eq_sound i k y, p) (inl (ground arith))
  | inr n ↦ elim (Bool-cases (topic_matches_pattern i filter)) [
    | inl q ↦ rw q (inr (matching_complete filter m k e (ground arith) p))
    | inr q ↦ rw q (matching_complete filter m k e (ground arith) p)
  ]
]

-- `getMessagesForTopic` finds exactly the retained messages whose topics match the filter: each one
-- that it gives is retained under such a topic, and each one retained under such a topic is given.
pub get_messages_for_topic-exact :
    (v : MessageVault) (filter : Bytes) (a : Message)
    → IsValid v
    → In a (get_messages_for_topic v filter []).0
      ↔ ((k : Bytes) × (e : RetainedEntry) × IsSource filter v.retained a k e)
unfolding get_messages_for_topic
get_messages_for_topic-exact v filter a h = rw (collect-matching filter v.retained []) (
  matching-IsSource filter v.retained a h.sorted,
  λ s.
      subst (λ x. In x (matching filter v.retained)) (sym s.2.2)
        (matching_complete filter v.retained s.0 s.1 s.2.0 s.2.1),
)
