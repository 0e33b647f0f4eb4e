-- ===== src/Topic/Levels.antt =====
-- Topics as lists of levels, and MQTT's rules of matching on such lists.
use night_mare_network.Base.{
  ℕ, ◌<◌, ◌≡◌, refl, ◌≢◌, ◌⊎◌, inl, inr, Bytes, Option, none, some, List, [], ◌∷◌, length, arith,
  if◌then◌else◌, ◌==◌,
}
use night_mare_network.Topic.{level, next_levels, hash, plus}

-- Split at every '/'.
abbrev add_front : ℕ → List Bytes → List Bytes
add_front c [] = (c ∷ []) ∷ []
add_front c (l ∷ ls) = (c ∷ l) ∷ ls

unfoldable pub levels : Bytes → List Bytes
levels [] = [] ∷ []
levels (c ∷ cs) = if c == b'/' then [] ∷ levels cs else add_front c (levels cs)

-- `Fits ts fs`: the topic levels `ts` fit the filter levels `fs`. "#" stands last and takes any
-- number of levels, none included; "+" takes exactly one; any other level takes its equal.
pub data Fits : List Bytes → List Bytes → Type 0 where
  both_end : Fits [] []
  all_levels : {ts fs : List Bytes} → fs ≡ hash ∷ [] → Fits ts fs
  any_level : {t f : Bytes} {ts fs : List Bytes} → f ≡ plus → Fits ts fs → Fits (t ∷ ts) (f ∷ fs)
  same_level :
      {t f : Bytes} {ts fs : List Bytes} → f ≡ t → f ≢ hash → Fits ts fs → Fits (t ∷ ts) (f ∷ fs)

abbrev pub levels_of : Option Bytes → List Bytes
levels_of none = []
levels_of (some r) = levels r

-- A text is its first level and the levels behind it.
pub levels_unfold : (s : Bytes) → levels s ≡ level s ∷ levels_of (next_levels s)
unfolding levels level next_levels
levels_unfold [] = refl
levels_unfold (c ∷ cs) = ground (arith, levels_unfold cs)

pub next_levels-shorter : (s r : Bytes) → next_levels s ≡ some r → length r < length s
unfolding next_levels
next_levels-shorter [] r e = cc
next_levels-shorter (c ∷ cs) r e = ground (arith, next_levels-shorter cs r)

-- How a fit of two first levels was made.
pub Fits-cons :
    {t f : Bytes} {ts fs : List Bytes}
    → Fits (t ∷ ts) (f ∷ fs)
    → ((f ≡ hash) × (fs ≡ [])) ⊎ (((f ≡ plus) ⊎ ((f ≡ t) × (f ≢ hash))) × Fits ts fs)
Fits-cons (all_levels e) = inl (ground arith, ground arith)
Fits-cons (any_level e r) = inr (inl e, r)
Fits-cons (same_level e n r) = inr (inr (e, n), r)

pub Fits-nil : {fs : List Bytes} → Fits [] fs → (fs ≡ []) ⊎ (fs ≡ hash ∷ [])
Fits-nil both_end = inl refl
Fits-nil (all_levels e) = inr e

pub not_Fits-nil : {t : Bytes} {ts : List Bytes} → ¬ Fits (t ∷ ts) []
not_Fits-nil (all_levels e) = cc
