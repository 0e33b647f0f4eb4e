-- ===== src/Examples/Store.antt =====
-- Topics, messages and the retained messages on concrete values.
use night_mare_network.Base.{
  get_or, ◌+◌, ℕ, ◌<◌, ◌≡◌, ◌≢◌, refl, ◌↔◌, ◌⊎◌, true, false, Bytes, [], ◌∷◌, ◌++◌, length, bit_and,
}
use night_mare_network.Base.{get_or, ◌+◌, In}
use night_mare_network.Topic.{
  topic_matches_pattern, is_reserved, level, is_valid_publish_topic, has_no_special,
}
use night_mare_network.Topic.Levels.{levels, Fits}
use night_mare_network.Topic.Matching.{NoWildcard, topic_matches_pattern-Fits}
use night_mare_network.Message.{
  Message, local_to_remote, remote_to_local, no_message, from_raw_data, to_raw_data,
  topic_length_mask,
}
use night_mare_network.Message.Codec.{
  arrived, flag_set, from_raw_data-to_raw_data, from_raw_data_exact,
}
use night_mare_network.Vault.{
  MessageVault, RetainedEntry, empty_vault, retain_message, get_messages_for_topic,
}
use night_mare_network.Vault.Map.{lookup}
use night_mare_network.Vault.Retain.{
  IsValid, IsSource, empty_vault-IsValid, retained_after, retain_message-IsValid,
  lookup-retain_message, retain_message-version, get_messages_for_topic-exact,
}

-- "a/b" and "a/+".
abbrev topic : Bytes
topic = b'a' ∷ b'/' ∷ b'b' ∷ []

abbrev filter : Bytes
filter = b'a' ∷ b'/' ∷ b'+' ∷ []

topic_matches_pattern-Fits_example : (topic_matches_pattern topic filter ≡ true) ↔ (
    (topic ≢ [])
    × (filter ≢ [])
    × Fits (levels topic) (levels filter)
    × (is_reserved topic ≡ true → NoWildcard (level filter)))
topic_matches_pattern-Fits_example = topic_matches_pattern-Fits topic filter

abbrev sample : Message
sample = record {
  direction = remote_to_local;
  topic = topic;
  payload = 4 ∷ 5 ∷ [];
  persistent = true;
}

from_raw_data-to_raw_data_example : from_raw_data (to_raw_data sample) ≡ arrived sample
unfolding is_valid_publish_topic has_no_special
from_raw_data-to_raw_data_example = from_raw_data-to_raw_data sample refl

abbrev received : Bytes
received = 129 ∷ 97 ∷ 5 ∷ []

from_raw_data_exact_example :
    let m = from_raw_data received in
    let n = bit_and (get_or received 0 0) topic_length_mask in
    ((m ≡ no_message) × ((received ≡ []) ⊎ ((n ≡ 0) ⊎ (length received < 1 + n))))
    ⊎ ((b : ℕ) × (received ≡ b ∷ (m.topic ++ m.payload))
        × (length m.topic ≡ bit_and b topic_length_mask)
        × (0 < length m.topic)
        × (m.persistent ≡ flag_set b)
        × (m.direction ≡ local_to_remote))
from_raw_data_exact_example = from_raw_data_exact received

-- The vault with one retained message.
abbrev one_retained : MessageVault
one_retained = (retain_message empty_vault topic (1 ∷ 2 ∷ []) 2 local_to_remote 50).0

one_retained-IsValid : IsValid one_retained
one_retained-IsValid =
    retain_message-IsValid empty_vault topic (1 ∷ 2 ∷ []) 2 local_to_remote 50 empty_vault-IsValid

retain_message-IsValid_example :
    IsValid (retain_message one_retained topic [] 0 local_to_remote 60).0
retain_message-IsValid_example =
    retain_message-IsValid one_retained topic [] 0 local_to_remote 60 one_retained-IsValid

lookup-retain_message_example :
    lookup topic (retain_message one_retained topic (7 ∷ []) 1 local_to_remote 60).0.retained
    ≡ retained_after one_retained topic (7 ∷ []) 1 local_to_remote 60 topic
lookup-retain_message_example =
    lookup-retain_message one_retained topic (7 ∷ []) 1 local_to_remote 60 topic
      one_retained-IsValid

retain_message-version_example :
    let r = retain_message one_retained topic (7 ∷ []) 1 local_to_remote 60 in
    ((r.1 ≡ true) ↔ (r.0.version ≢ one_retained.version)) × (r.1 ≡ false → r.0 ≡ one_retained)
retain_message-version_example =
    retain_message-version one_retained topic (7 ∷ []) 1 local_to_remote 60 one_retained-IsValid

get_messages_for_topic-exact_example :
    In sample (get_messages_for_topic one_retained filter []).0
    ↔ ((k : Bytes) × (e : RetainedEntry) × IsSource filter one_retained.retained sample k e)
get_messages_for_topic-exact_example =
    get_messages_for_topic-exact one_retained filter sample one_retained-IsValid
