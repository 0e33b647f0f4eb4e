-- ===== src/Vault.antt =====
-- The retained messages: `MessageVault` of src/Gateway/Broker/Message.h and Message.cpp. The
-- `std::map` is the list of its entries in the order of their keys. The mutex makes each call one
-- step, so a call is a function of the vault.
pub mod Map
pub mod Retain
use night_mare_network.Base.{
  ℕ, ◌+◌, ◌%◌, ◌^◌, min, ◌≡◌, Bool, true, false, ◌||◌, ◌==◌, if◌then◌else◌, Bytes, Option, none,
  some, List, [], ◌∷◌, ◌++◌, length, take,
}
use night_mare_network.Topic.{is_valid_publish_topic, topic_matches_pattern}
use night_mare_network.Message.{Message, Direction, no_message}
use Map.{lookup, upsert, erase}

pub record RetainedEntry : Type 0 where
  pub message : Message
  pub updated_at_ms : ℕ
  pub revisions : ℕ  -- uint32

pub record MessageVault : Type 0 where
  pub version : ℕ  -- uint32
  pub retained : List (Bytes × RetainedEntry)

unfoldable pub empty_vault : MessageVault
empty_vault = record { version = 1; retained = [] }

-- `if (++version_ == 0) version_ = 1;`
unfoldable pub bump_version : ℕ → ℕ
bump_version v = let next = (v + 1) % 2 ^ 32 in if next == 0 then 1 else next

-- The entry that `retained[topic]` refers to, made if it is not there.
unfoldable pub entry_for : Option RetainedEntry → RetainedEntry
entry_for none = record { message = no_message; updated_at_ms = 0; revisions = 0 }
entry_for (some e) = e

abbrev is_some {ℓ} : {A : Type ℓ} → Option A → Bool
is_some none = false
is_some (some a) = true

unfoldable pub replaced : RetainedEntry → Bytes → Bytes → Direction → ℕ → RetainedEntry
replaced e topic payload direction now = record {
  message = record { direction = direction; topic = topic; payload = payload; persistent = true };
  updated_at_ms = now;
  revisions = (e.revisions + 1) % 2 ^ 32;
}

unfoldable pub remove_retained : MessageVault → Bytes → MessageVault × Bool
unfolding bump_version
remove_retained v topic =
    if is_some (lookup topic v.retained)
    then (record { version = bump_version v.version; retained = erase topic v.retained }, true)
    else (v, false)

unfoldable pub replace_retained : MessageVault → Bytes → Bytes → Direction → ℕ → MessageVault × Bool
unfolding bump_version entry_for replaced
replace_retained v topic payload direction now =
    let entry = replaced (entry_for (lookup topic v.retained)) topic payload direction now in
    (record { version = bump_version v.version; retained = upsert topic entry v.retained }, true)

unfoldable pub retain_message :
    MessageVault → Bytes → Bytes → ℕ → Direction → ℕ → MessageVault × Bool
unfolding remove_retained replace_retained
retain_message v topic payload payload_length direction now =
    let size = min payload_length (length payload) in
    if is_valid_publish_topic topic
    then (if size == 0
        then remove_retained v topic
        else replace_retained v topic (take size payload) direction now)
    else (v, false)

-- The loop of `getMessagesForTopic`, which appends to `output`.
unfoldable pub collect : Bytes → List (Bytes × RetainedEntry) → List Message → List Message × Bool
collect filter [] output = (output, false)
collect filter ((k, e) ∷ m) output =
    let hit = topic_matches_pattern k filter in
    let (result, found) = collect filter m (if hit then output ++ e.message ∷ [] else output) in
    (result, hit || found)

unfoldable pub get_messages_for_topic : MessageVault → Bytes → List Message → List Message × Bool
unfolding collect
get_messages_for_topic v filter output = collect filter v.retained output

abbrev entries : List (Bytes × RetainedEntry) → List RetainedEntry
entries [] = []
entries ((k, e) ∷ m) = e ∷ entries m

-- The copy, the number of entries, and the version of the copy.
unfoldable pub snapshot : MessageVault → List RetainedEntry → List RetainedEntry × ℕ × ℕ
snapshot v output = (output ++ entries v.retained, length v.retained, v.version)

unfoldable pub size : MessageVault → ℕ
size v = length v.retained
