-- ===== src/Topic.antt =====
-- Topics and subscription filters: src/Gateway/Broker/Topic.h and Topic.cpp. The offsets `t` and
-- `f` of the matching loop are kept as the suffixes of the topic and the filter that they point to.
pub mod Levels
pub mod Matching
use night_mare_network.Base.{
  ℕ, zero, suc, ◌+◌, Bool, true, false, not, ◌&&◌, ◌||◌, ◌==◌, ltb, if◌then◌else◌, Bytes, Option,
  none, some, [], ◌∷◌, length, bytes_eq, is_empty,
}

abbrev pub max_topic_length : ℕ
max_topic_length = 63

unfoldable pub has_no_special : Bytes → Bool
has_no_special [] = true
has_no_special (c ∷ cs) = if c == b'+' || c == b'#' || c == 0 then false else has_no_special cs

unfoldable pub is_valid_publish_topic : Bytes → Bool
unfolding has_no_special
is_valid_publish_topic topic =
    if is_empty topic || ltb max_topic_length (length topic) then false else has_no_special topic

-- The level up to the next '/', `substr(f, filterEnd - f)`.
unfoldable pub level : Bytes → Bytes
level [] = []
level (c ∷ cs) = if c == b'/' then [] else c ∷ level cs

-- What follows that '/'; `none` where `find` gives `npos`, on the last level.
unfoldable pub next_levels : Bytes → Option Bytes
next_levels [] = none
next_levels (c ∷ cs) = if c == b'/' then some cs else next_levels cs

abbrev pub hash : Bytes
hash = b'#' ∷ []

abbrev pub plus : Bytes
plus = b'+' ∷ []

-- `filter.substr(filterEnd) == "/#"`, where the rest behind `filterEnd` is a '/' and `rest`.
unfoldable pub ends_in_hash : Option Bytes → Bool
ends_in_hash none = false
ends_in_hash (some rest) = bytes_eq rest hash

abbrev pub is_none {ℓ} : {A : Type ℓ} → Option A → Bool
is_none none = true
is_none (some a) = false

-- Where one level of the filter has fitted one level of the topic: done, or what is left of both.
pub data Advance : Type 0 where
  stop : Bool → Advance
  go_on : Bytes → Bytes → Advance

unfoldable pub advance : Option Bytes → Option Bytes → Advance
unfolding ends_in_hash
advance none none = stop true
advance none (some f) = stop (ends_in_hash (some f))
advance (some t) none = stop false
advance (some t) (some f) = go_on t f

-- Whether a filter level other than "#" takes a topic level.
unfoldable pub level_fits : Bool → Bytes → Bytes → Bool
level_fits barred t f = if bytes_eq f plus then not barred else bytes_eq f t

-- The loop, one round for each level of the filter; `barred` is `firstLevel && reservedTopic`.
unfoldable pub match_levels : ℕ → Bool → Bytes → Bytes → Bool
unfolding level next_levels advance level_fits
match_levels zero barred t f = false
match_levels (suc fuel) barred t f =
    if bytes_eq (level f) hash
    then is_none (next_levels f) && not barred
    else if not (level_fits barred (level t) (level f))
    then false
    else elim (advance (next_levels t) (next_levels f)) [
      | stop result ↦ result
      | go_on t' f' ↦ match_levels fuel false t' f'
    ]

unfoldable pub is_reserved : Bytes → Bool
is_reserved [] = false
is_reserved (c ∷ cs) = c == b'$'

unfoldable pub topic_matches_pattern : Bytes → Bytes → Bool
unfolding match_levels is_reserved
topic_matches_pattern topic filter =
    if is_empty topic || is_empty filter
    then false
    else match_levels (suc (length filter)) (is_reserved topic) topic filter
