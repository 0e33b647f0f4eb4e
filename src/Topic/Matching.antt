-- ===== src/Topic/Matching.antt =====
-- The matching loop decides MQTT's rules.
use night_mare_network.Base.{
  ℕ, zero, suc, ◌<◌, ◌≡◌, refl, sym, ◌≢◌, ◌⊎◌, inl, inr, ◌↔◌, Bool, true, false, Bytes, Option,
  none, some, List, [], ◌∷◌, length, arith, Bool-cases, bytes_eq, bytes_eq_sound, bytes_eq_iff,
  bytes_eq_refl, ◌∙◌,
}
use night_mare_network.Topic.{
  level, next_levels, hash, plus, match_levels, level_fits, is_reserved, topic_matches_pattern,
  is_none, advance, ends_in_hash, stop, go_on,
}
use night_mare_network.Topic.Levels.{
  levels, levels_of, levels_unfold, next_levels-shorter, Fits, both_end, all_levels, any_level,
  same_level, Fits-cons, Fits-nil, not_Fits-nil,
}

-- Neither wildcard stands at the front.
abbrev pub NoWildcard : Bytes → Type 0
NoWildcard l = (l ≢ hash) × (l ≢ plus)

abbrev pub Matched : Bool → Bytes → Bytes → Type 0
Matched barred t f = Fits (levels t) (levels f) × (barred ≡ true → NoWildcard (level f))

ne_of_bytes_eq : (xs ys : Bytes) → bytes_eq xs ys ≡ false → xs ≢ ys
ne_of_bytes_eq xs ys h e = ground (arith, bytes_eq_iff xs ys)

-- What a fit of the first levels says.
one_level_sound :
    (barred : Bool) (t f : Bytes) {ts fs : List Bytes}
    → bytes_eq f hash ≡ false
    → level_fits barred t f ≡ true
    → Fits ts fs
    → Fits (t ∷ ts) (f ∷ fs) × (barred ≡ true → NoWildcard f)
unfolding level_fits
one_level_sound barred t f n h r = elim (Bool-cases (bytes_eq f plus)) [
  | inl e ↦ (any_level (bytes_eq_sound f plus e) r, λ b. ground arith)
  | inr d ↦ (
    same_level (bytes_eq_sound f t (ground arith)) (ne_of_bytes_eq f hash n) r,
    λ b. (ne_of_bytes_eq f hash n, ne_of_bytes_eq f plus d),
  )
]

levels-hash : levels hash ≡ hash ∷ []
unfolding levels
levels-hash = refl

-- What the rest of a round says, given the later rounds.
advance_sound :
    (fuel : ℕ) (t f : Option Bytes)
    → ((t' f' : Bytes) → match_levels fuel false t' f' ≡ true → Fits (levels t') (levels f'))
    → (elim (advance t f) [ stop result ↦ result | go_on t' f' ↦ match_levels fuel false t' f' ])
      ≡ true
    → Fits (levels_of t) (levels_of f)
unfolding advance ends_in_hash
advance_sound fuel none none later h = both_end
advance_sound fuel none (some f) later h = all_levels (rw (bytes_eq_sound f hash h) levels-hash)
advance_sound fuel (some t) none later h = cc
advance_sound fuel (some t) (some f) later h = later t f h

none_of : (o : Option Bytes) → is_none o ≡ true → levels_of o ≡ []
none_of none h = refl
none_of (some r) h = cc

match_levels_sound :
    (fuel : ℕ) (barred : Bool) (t f : Bytes)
    → match_levels fuel barred t f ≡ true
    → Matched barred t f
unfolding match_levels
match_levels_sound zero barred t f h = cc
match_levels_sound (suc fuel) barred t f h = elim (Bool-cases (bytes_eq (level f) hash)) [
  | inl e ↦ (
    rw (levels_unfold f)
        (all_levels (ground (arith, bytes_eq_sound (level f) hash e, none_of (next_levels f)))),
    λ b. ground arith,
  )
  | inr n ↦
      rw (levels_unfold t, levels_unfold f)
        (one_level_sound barred (level t) (level f) n (ground arith) (
          advance_sound fuel (next_levels t) (next_levels f)
            (λ t' f' m. (match_levels_sound fuel false t' f' m).0) (ground arith)))
]

bytes_eq_ne : (xs ys : Bytes) → xs ≢ ys → bytes_eq xs ys ≡ false
bytes_eq_ne xs ys n = elim (Bool-cases (bytes_eq xs ys)) [
  | inl e ↦ absurd (n (bytes_eq_sound xs ys e))
  | inr d ↦ d
]

no_levels : (o : Option Bytes) → levels_of o ≡ [] → o ≡ none
no_levels none h = refl
no_levels (some r) h = let h' = rw (levels_unfold r) at h in cc

-- The same from a fit to the result.
one_level_complete :
    (barred : Bool) (t f : Bytes)
    → (f ≡ plus) ⊎ ((f ≡ t) × (f ≢ hash))
    → (barred ≡ true → NoWildcard f)
    → (bytes_eq f hash ≡ false) × (level_fits barred t f ≡ true)
unfolding level_fits bytes_eq
one_level_complete barred t f (inl e) b =
    rw e (refl, ground (arith, bytes_eq_refl plus, bytes_eq_refl f))
one_level_complete barred t f (inr (e, n)) b =
    ground (arith, bytes_eq_ne f hash n, bytes_eq_iff f t, bytes_eq_iff f plus)

barred_not : (b : Bool) → ¬ (b ≡ true) → b ≡ false
barred_not true n = absurd (n refl)
barred_not false n = refl

-- A text whose only level is "#".
level_whole : (s : Bytes) → next_levels s ≡ none → level s ≡ s
unfolding level next_levels
level_whole [] e = refl
level_whole (c ∷ cs) e = ground (arith, level_whole cs)

levels_one : (f : Bytes) → levels f ≡ hash ∷ [] → f ≡ hash
levels_one f e =
    let e' = rw (levels_unfold f) at e in sym (level_whole f (no_levels (next_levels f) (cc))) ∙ cc

advance_complete :
    (fuel : ℕ) (t f : Option Bytes)
    → ((t' f' : Bytes)
        → f ≡ some f'
        → Fits (levels t') (levels f')
        → match_levels fuel false t' f' ≡ true)
    → Fits (levels_of t) (levels_of f)
    → (elim (advance t f) [ stop result ↦ result | go_on t' f' ↦ match_levels fuel false t' f' ])
      ≡ true
unfolding advance ends_in_hash
advance_complete fuel none none later h = refl
advance_complete fuel none (some f) later h = elim (Fits-nil h) [
  | inl e ↦ let e' = rw (levels_unfold f) at e in cc
  | inr e ↦ (bytes_eq_iff f hash).1 (levels_one f e)
]
advance_complete fuel (some t) none later h = absurd (not_Fits-nil (rw (levels_unfold t) at h))
advance_complete fuel (some t) (some f) later h = later t f refl h

match_levels_complete :
    (fuel : ℕ) (barred : Bool) (t f : Bytes)
    → length f < fuel
    → Matched barred t f
    → match_levels fuel barred t f ≡ true
unfolding match_levels
match_levels_complete zero barred t f room h = absurd (omega arith)
match_levels_complete (suc fuel) barred t f room (fit, b) =
    elim (Fits-cons (rw (levels_unfold t, levels_unfold f) at fit)) [
      | inl (e, last) ↦ ground (
        arith,
        bytes_eq_iff (level f) hash,
        no_levels (next_levels f) last,
        barred_not barred (λ q. (b q).0 e),
      )
      | inr (one, more) ↦
          let (n, k) = one_level_complete barred (level t) (level f) one b in
          rw (n, k)
            (advance_complete fuel (next_levels t) (next_levels f)
              (λ t' f' e m.
                match_levels_complete fuel false t' f' (omega (arith, next_levels-shorter f f' e))
                  (m, λ q. cc))
              more)
    ]

-- A topic matches a filter exactly when neither is empty, the filter's levels fit the topic's by
-- the rules of "+" and "#", and a topic that starts with '$' is not reached by a wildcard at the
-- filter's first level.
pub topic_matches_pattern-Fits :
    (topic filter : Bytes)
    → (topic_matches_pattern topic filter ≡ true) ↔ (
        (topic ≢ [])
        × (filter ≢ [])
        × Fits (levels topic) (levels filter)
        × (is_reserved topic ≡ true → NoWildcard (level filter)))
unfolding topic_matches_pattern
topic_matches_pattern-Fits [] filter = (λ h. cc, λ h. absurd (h.0 refl))
topic_matches_pattern-Fits (x ∷ t) [] = (λ h. cc, λ h. absurd (h.1 refl))
topic_matches_pattern-Fits (x ∷ t) (y ∷ f) = (
  λ h.
      let m = match_levels_sound (suc (length (y ∷ f))) (is_reserved (x ∷ t)) (x ∷ t) (y ∷ f) h in
      (λ e. cc, λ e. cc, m.0, m.1),
  λ h.
      match_levels_complete (suc (length (y ∷ f))) (is_reserved (x ∷ t)) (x ∷ t) (y ∷ f)
        (omega arith) (h.2, h.3),
)
