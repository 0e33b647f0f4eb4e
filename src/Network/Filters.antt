-- ===== src/Network/Filters.antt =====
-- The filters that `validTopicFilter` of src/Network/NmConnection.cpp takes, against MQTT's rules on
-- lists of levels.
use night_mare_network.Base.{
  ℕ, ◌≡◌, refl, sym, ap, ◌∙◌, Bool, true, false, not, ◌&&◌, ◌||◌, ◌==◌, ltb, leb, if◌then◌else◌,
  Bytes, bytes_eq, is_empty, List, [], ◌∷◌, length, arith, Bool-cases, inl, inr,
}
use night_mare_network.Topic.{hash, plus}
use night_mare_network.Topic.Levels.{levels}
use night_mare_network.Network.State.{
  ends_level, valid_from, valid_topic_filter, max_topic_filter_length,
}

-- No control character and no wildcard.
abbrev pub is_plain : Bytes → Bool
is_plain [] = true
is_plain (c ∷ cs) = not (ltb c 32) && not (c == b'+') && not (c == b'#') && is_plain cs

-- "+" may be any level and "#" the last; the other levels are plain.
abbrev pub are_valid : List Bytes → Bool
are_valid [] = true
are_valid (l ∷ []) = is_plain l || bytes_eq l plus || bytes_eq l hash
are_valid (l ∷ (m ∷ ms)) = (is_plain l || bytes_eq l plus) && are_valid (m ∷ ms)

-- Inside a level only plain characters may follow.
abbrev inside_valid : List Bytes → Bool
inside_valid [] = true
inside_valid (l ∷ []) = is_plain l
inside_valid (l ∷ (m ∷ ms)) = is_plain l && are_valid (m ∷ ms)

-- What one character adds, from what the scan says of the rest.
abbrev scan_one : Bool → ℕ → Bool → Bool → Bool → Bool
scan_one at_start c ends last rest =
    if ltb c 32
    then false
    else if c == b'+' && not at_start
    then false
    else if c == b'+' && not ends
    then false
    else if c == b'#' && (not at_start || not last)
    then false
    else rest

-- The first level of a text, and what the scan asks of it.
shape :
    (s : Bytes)
    → (l : Bytes) × (ls : List Bytes) × (levels s ≡ l ∷ ls)
      × (ends_level s ≡ is_empty l)
      × (is_empty s ≡ (is_empty l && is_empty ls))
unfolding levels
shape [] = ([], [], refl, refl, refl)
shape (c ∷ cs) = elim (Bool-cases (c == b'/')) [
  | inl y ↦ let (l, ls, e, f, g) = shape cs in ([], levels cs, rw y refl, y, sym (ap is_empty e))
  | inr n ↦ let (l, ls, e, f, g) = shape cs in (c ∷ l, ls, rw (n, e) refl, n, refl)
]

split_scan :
    (at_start : Bool) (l : Bytes) (ls : List Bytes)
    → scan_one at_start b'/' (is_empty l) (is_empty l && is_empty ls) (are_valid (l ∷ ls))
      ≡ are_valid ([] ∷ (l ∷ ls))
split_scan at_start l ls = ground arith

split_inside :
    (l : Bytes) (ls : List Bytes)
    → scan_one false b'/' (is_empty l) (is_empty l && is_empty ls) (are_valid (l ∷ ls))
      ≡ inside_valid ([] ∷ (l ∷ ls))
split_inside l ls = ground arith

start_scan :
    (c : ℕ) (l : Bytes) (ls : List Bytes)
    → (c == b'/') ≡ false
    → scan_one true c (is_empty l) (is_empty l && is_empty ls) (inside_valid (l ∷ ls))
      ≡ are_valid ((c ∷ l) ∷ ls)
unfolding bytes_eq
start_scan c [] [] n = ground arith
start_scan c [] (m ∷ ms) n = ground arith
start_scan c (x ∷ l) [] n = ground arith
start_scan c (x ∷ l) (m ∷ ms) n = ground arith

inside_scan :
    (c : ℕ) (l : Bytes) (ls : List Bytes)
    → (c == b'/') ≡ false
    → scan_one false c (is_empty l) (is_empty l && is_empty ls) (inside_valid (l ∷ ls))
      ≡ inside_valid ((c ∷ l) ∷ ls)
inside_scan c l [] n = ground arith
inside_scan c l (m ∷ ms) n = ground arith

abbrev Scans : Bytes → Type 0
Scans s =
    (valid_from true s ≡ are_valid (levels s)) × (valid_from false s ≡ inside_valid (levels s))

valid_from-scan_one :
    (at_start : Bool) (c : ℕ) (cs : Bytes)
    → valid_from at_start (c ∷ cs)
      ≡ scan_one at_start c (ends_level cs) (is_empty cs) (valid_from (c == b'/') cs)
unfolding valid_from
valid_from-scan_one at_start c cs = refl

module _ (c : ℕ) (cs l : Bytes) (ls : List Bytes) (e : levels cs ≡ l ∷ ls)
    (f : ends_level cs ≡ is_empty l) (g : is_empty cs ≡ (is_empty l && is_empty ls)) where
  scan_as :
      (at_start v : Bool)
      → valid_from (c == b'/') cs ≡ v
      → valid_from at_start (c ∷ cs)
        ≡ scan_one at_start c (is_empty l) (is_empty l && is_empty ls) v
  scan_as at_start v w =
      valid_from-scan_one at_start c cs
      ∙ ap (λ b. scan_one at_start c b (is_empty cs) (valid_from (c == b'/') cs)) f
      ∙ ap (λ b. scan_one at_start c (is_empty l) b (valid_from (c == b'/') cs)) g
      ∙ ap (scan_one at_start c (is_empty l) (is_empty l && is_empty ls)) w

  levels_split : (c == b'/') ≡ true → levels (c ∷ cs) ≡ [] ∷ (l ∷ ls)
  unfolding levels
  levels_split y = rw (y, e) refl

  levels_go_on : (c == b'/') ≡ false → levels (c ∷ cs) ≡ (c ∷ l) ∷ ls
  unfolding levels
  levels_go_on n = rw (n, e) refl

  slash : (c == b'/') ≡ true → c ≡ b'/'
  slash y = ground arith

  next_scan : Scans cs → Scans (c ∷ cs)
  next_scan s = elim (Bool-cases (c == b'/')) [
    | inl y ↦
        let w = ap (λ b. valid_from b cs) y ∙ s.0 ∙ ap are_valid e in
        (
          scan_as true (are_valid (l ∷ ls)) w
              ∙ ap
                  (λ k.
                    scan_one true k (is_empty l) (is_empty l && is_empty ls) (are_valid (l ∷ ls)))
                  (slash y)
              ∙ split_scan true l ls
              ∙ ap are_valid (sym (levels_split y)),
          scan_as false (are_valid (l ∷ ls)) w
              ∙ ap
                  (λ k.
                    scan_one false k (is_empty l) (is_empty l && is_empty ls) (are_valid (l ∷ ls)))
                  (slash y)
              ∙ split_inside l ls
              ∙ ap inside_valid (sym (levels_split y)),
        )
    | inr n ↦
        let w = ap (λ b. valid_from b cs) n ∙ s.1 ∙ ap inside_valid e in
        (
          scan_as true (inside_valid (l ∷ ls)) w
              ∙ start_scan c l ls n
              ∙ ap are_valid (sym (levels_go_on n)),
          scan_as false (inside_valid (l ∷ ls)) w
              ∙ inside_scan c l ls n
              ∙ ap inside_valid (sym (levels_go_on n)),
        )
  ]

valid_from-levels : (s : Bytes) → Scans s
unfolding levels valid_from
valid_from-levels [] = (refl, refl)
valid_from-levels (c ∷ cs) =
    let (l, ls, e, f, g) = shape cs in next_scan c cs l ls e f g (valid_from-levels cs)

-- A filter is taken exactly when it has 1 to 192 characters, no control characters, and of its levels
-- each is free of wildcards, or is "+", or is "#" and the last.
pub valid_topic_filter-are_valid :
    (filter : Bytes)
    → valid_topic_filter filter ≡ (
        not (is_empty filter)
        && leb (length filter) max_topic_filter_length
        && are_valid (levels filter))
unfolding valid_topic_filter
valid_topic_filter-are_valid [] = refl
valid_topic_filter-are_valid (c ∷ cs) = ground (arith, (valid_from-levels (c ∷ cs)).0)
