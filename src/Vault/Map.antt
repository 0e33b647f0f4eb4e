-- ===== src/Vault/Map.antt =====
-- A map with byte strings for keys, as the list of its entries in ascending order.
use night_mare_network.Base.{
  ◌≡◌, refl, inl, inr, Bool, true, false, ◌&&◌, ◌||◌, ◌==◌, ltb, if◌then◌else◌, Bytes, bytes_eq,
  bytes_eq_iff, bytes_eq_sound, Option, none, some, List, [], ◌∷◌, arith, Bool-cases, subst,
}

-- The order of `std::string`: by the first byte that differs, else the shorter first.
unfoldable pub lex_lt : Bytes → Bytes → Bool
lex_lt [] [] = false
lex_lt [] (y ∷ ys) = true
lex_lt (x ∷ xs) [] = false
lex_lt (x ∷ xs) (y ∷ ys) = ltb x y || (x == y && lex_lt xs ys)

pub lex_lt_irrefl : (xs : Bytes) → lex_lt xs xs ≡ false
unfolding lex_lt
lex_lt_irrefl [] = refl
lex_lt_irrefl (x ∷ xs) = ground (arith, lex_lt_irrefl xs)

pub lex_lt_trans :
    (xs ys zs : Bytes) → lex_lt xs ys ≡ true → lex_lt ys zs ≡ true → lex_lt xs zs ≡ true
unfolding lex_lt
lex_lt_trans [] [] zs h k = cc
lex_lt_trans [] (y ∷ ys) [] h k = cc
lex_lt_trans [] (y ∷ ys) (z ∷ zs) h k = refl
lex_lt_trans (x ∷ xs) [] zs h k = cc
lex_lt_trans (x ∷ xs) (y ∷ ys) [] h k = cc
lex_lt_trans (x ∷ xs) (y ∷ ys) (z ∷ zs) h k = ground (arith, lex_lt_trans xs ys zs)

pub lex_lt_total :
    (xs ys : Bytes) → lex_lt xs ys ≡ false → bytes_eq ys xs ≡ false → lex_lt ys xs ≡ true
unfolding lex_lt bytes_eq
lex_lt_total [] [] h k = cc
lex_lt_total [] (y ∷ ys) h k = cc
lex_lt_total (x ∷ xs) [] h k = refl
lex_lt_total (x ∷ xs) (y ∷ ys) h k = ground (arith, lex_lt_total xs ys)

module _ {ℓ} {V : Type ℓ} where
  unfoldable pub lookup : Bytes → List (Bytes × V) → Option V
  lookup k [] = none
  lookup k ((j, v) ∷ m) = if bytes_eq j k then some v else lookup k m

  unfoldable pub upsert : Bytes → V → List (Bytes × V) → List (Bytes × V)
  upsert k v [] = (k, v) ∷ []
  upsert k v ((j, w) ∷ m) =
      if bytes_eq j k
      then (k, v) ∷ m
      else if lex_lt k j
      then (k, v) ∷ ((j, w) ∷ m)
      else (j, w) ∷ upsert k v m

  unfoldable pub erase : Bytes → List (Bytes × V) → List (Bytes × V)
  erase k [] = []
  erase k ((j, w) ∷ m) = if bytes_eq j k then m else (j, w) ∷ erase k m

  -- Every key comes after `k`.
  abbrev pub After : Bytes → List (Bytes × V) → Type 0
  After k [] = Unit {0}
  After k ((j, w) ∷ m) = (lex_lt k j ≡ true) × After k m

  -- The keys ascend strictly, so no key stands twice.
  abbrev pub IsSorted : List (Bytes × V) → Type 0
  IsSorted [] = Unit {0}
  IsSorted ((j, w) ∷ m) = After j m × IsSorted m

  pub lookup-upsert :
      (k j : Bytes) (v : V) (m : List (Bytes × V))
      → lookup j (upsert k v m) ≡ (if bytes_eq k j then some v else lookup j m)
  unfolding lookup upsert
  lookup-upsert k j v [] = refl
  lookup-upsert k j v ((i, w) ∷ m) =
      ground (arith, bytes_eq_iff k j, bytes_eq_iff i k, bytes_eq_iff i j, lookup-upsert k j v m)

  After-mono : (k j : Bytes) (m : List (Bytes × V)) → lex_lt k j ≡ true → After j m → After k m
  After-mono k j [] h a = tt
  After-mono k j ((i, w) ∷ m) h a = (lex_lt_trans k j i h a.0, After-mono k j m h a.1)

  pub lookup-After : (k : Bytes) (m : List (Bytes × V)) → After k m → lookup k m ≡ none
  unfolding lookup
  lookup-After k [] a = refl
  lookup-After k ((i, w) ∷ m) a =
      ground (arith, bytes_eq_iff i k, lex_lt_irrefl k, lookup-After k m a.1)

  pub lookup-erase :
      (k j : Bytes) (m : List (Bytes × V))
      → IsSorted m
      → lookup j (erase k m) ≡ (if bytes_eq k j then none else lookup j m)
  unfolding lookup erase
  lookup-erase k j [] s = ground arith
  lookup-erase k j ((i, w) ∷ m) s = ground (
    arith,
    bytes_eq_iff k j,
    bytes_eq_iff i k,
    bytes_eq_iff i j,
    lookup-erase k j m s.1,
    lookup-After i m s.0,
  )

  After-upsert :
      (a k : Bytes) (v : V) (m : List (Bytes × V))
      → lex_lt a k ≡ true
      → After a m
      → After a (upsert k v m)
  unfolding upsert
  After-upsert a k v [] h s = (h, tt)
  After-upsert a k v ((i, w) ∷ m) h s = ground (arith, After-upsert a k v m h s.1)

  pub upsert-IsSorted :
      (k : Bytes) (v : V) (m : List (Bytes × V)) → IsSorted m → IsSorted (upsert k v m)
  unfolding upsert
  upsert-IsSorted k v [] s = (tt, tt)
  upsert-IsSorted k v ((i, w) ∷ m) s = elim (Bool-cases (bytes_eq i k)) [
    | inl e ↦ rw e (subst (λ j. After j m) (bytes_eq_sound i k e) s.0, s.1)
    | inr d ↦ elim (Bool-cases (lex_lt k i)) [
      | inl l ↦ rw (d, l) ((l, After-mono k i m l s.0), s)
      | inr g ↦
          rw (d, g) (After-upsert i k v m (lex_lt_total k i g d) s.0, upsert-IsSorted k v m s.1)
    ]
  ]

  After-erase : (a k : Bytes) (m : List (Bytes × V)) → After a m → After a (erase k m)
  unfolding erase
  After-erase a k [] s = tt
  After-erase a k ((i, w) ∷ m) s = ground (arith, After-erase a k m s.1)

  pub erase-IsSorted : (k : Bytes) (m : List (Bytes × V)) → IsSorted m → IsSorted (erase k m)
  unfolding erase
  erase-IsSorted k [] s = tt
  erase-IsSorted k ((i, w) ∷ m) s = ground (arith, After-erase i k m s.0, erase-IsSorted k m s.1)
