-- ===== src/Device/Subscriptions.antt =====
-- What a device is subscribed to after SUBSCRIBE and UNSUBSCRIBE.
use night_mare_network.Base.{
  ℕ, zero, suc, ◌+◌, ◌<◌, ◌≤◌, ◌≡◌, refl, ◌≢◌, sym, ◌∙◌, ◌⊎◌, inl, inr, Bool, true, false, ◌||◌,
  Bytes, bytes_eq, bytes_eq_iff, is_empty, Option, none, some, List, [], ◌∷◌, arith, if◌then◌else◌,
  ap, if_ind, Bool-cases, ltb, length, All, get_or, subst, replicate, length-replicate,
}
use night_mare_network.Base.Slots.{modify, length-modify}
use night_mare_network.Topic.{topic_matches_pattern, max_topic_length}
use night_mare_network.Device.{
  Device, new_device, max_subscriptions, any_matches, is_subscribed_to, Scan, already, first_free,
  scan, subscribe_to, clear_filter, unsubscribe_from, keep_free,
}

-- A filter of the array, by recursion; an empty slot holds none.
abbrev pub holds : Bytes → List Bytes → Bool
holds f [] = false
holds f (g ∷ gs) = bytes_eq g f || holds f gs

-- No filter stands in two slots.
abbrev pub IsDistinct : List Bytes → Type 0
IsDistinct [] = Unit {0}
IsDistinct (f ∷ fs) = ((f ≡ []) ⊎ (holds f fs ≡ false)) × IsDistinct fs

-- The array has its 32 slots, no filter is too long, and none stands twice.
pub record HasFilters (d : Device) : Type 0 where
  pub slots : length d.subscriptions ≡ max_subscriptions
  pub short : All (λ f. length f ≤ max_topic_length) d.subscriptions
  pub distinct : IsDistinct d.subscriptions

scan-already :
    (topic : Bytes) (fs : List Bytes) (i : ℕ) (free : Option ℕ)
    → scan topic fs i free ≡ already
    → holds topic fs ≡ true
unfolding scan
scan-already topic [] i free e = cc
scan-already topic (f ∷ fs) i free e =
    ground (arith, scan-already topic fs (suc i) (keep_free free f i))

-- Nothing to be found: the filter is not there, and there was no empty slot.
scan-full :
    (topic : Bytes) (fs : List Bytes) (i : ℕ) (free : Option ℕ)
    → scan topic fs i free ≡ first_free none
    → holds topic fs ≡ false
unfolding scan
scan-full topic [] i free e = refl
scan-full topic (f ∷ fs) i free e = ground (arith, scan-full topic fs (suc i) (keep_free free f i))

IsEmptyAt : ℕ → List Bytes → Type 0
IsEmptyAt k fs = (k < length fs) × (get_or fs k (0 ∷ []) ≡ [])

-- The slot that `scan` gives was free before, or is an empty one, counted from `i`.
scan-free :
    (topic : Bytes) (fs : List Bytes) (i : ℕ) (free : Option ℕ) (j : ℕ)
    → scan topic fs i free ≡ first_free (some j)
    → (holds topic fs ≡ false) × ((free ≡ some j) ⊎ ((k : ℕ) × (j ≡ i + k) × IsEmptyAt k fs))
unfolding scan IsEmptyAt
scan-free topic [] i free j e = (refl, inl (ground arith))
scan-free topic (f ∷ fs) i (some l) j e =
    let ih = scan-free topic fs (suc i) (some l) j (ground arith) in
    (
      ground (arith, ih.0),
      elim ih.1 [
        | inl s ↦ inl s
        | inr (k, at, empty) ↦ inr (suc k, omega arith, (omega arith, empty.1))
      ],
    )
scan-free topic ([] ∷ fs) i none j e =
    let ih = scan-free topic fs (suc i) (some i) j (ground arith) in
    (
      ground (arith, ih.0),
      elim ih.1 [
        | inl s ↦ inr (0, ground arith, (omega arith, refl))
        | inr (k, at, empty) ↦ inr (suc k, omega arith, (omega arith, empty.1))
      ],
    )
scan-free topic ((x ∷ f) ∷ fs) i none j e =
    let ih = scan-free topic fs (suc i) none j (ground arith) in
    (
      ground (arith, ih.0),
      elim ih.1 [
        | inl s ↦ cc
        | inr (k, at, empty) ↦ inr (suc k, omega arith, (omega arith, empty.1))
      ],
    )

any_matches-holds :
    (topic f : Bytes) (fs : List Bytes)
    → is_empty f ≡ false
    → holds f fs ≡ true
    → (topic_matches_pattern topic f || any_matches topic fs) ≡ any_matches topic fs
unfolding any_matches
any_matches-holds topic f [] n h = cc
any_matches-holds topic f (g ∷ gs) n h =
    ground (arith, bytes_eq_iff g f, any_matches-holds topic f gs n)

any_matches-modify :
    (topic f : Bytes) (fs : List Bytes) (k : ℕ)
    → is_empty f ≡ false
    → IsEmptyAt k fs
    → any_matches topic (modify fs k (λ _. f))
      ≡ (topic_matches_pattern topic f || any_matches topic fs)
unfolding any_matches IsEmptyAt
any_matches-modify topic f [] k n e = absurd (omega arith)
any_matches-modify topic f (g ∷ gs) zero n e = rw (e.1, n) refl
any_matches-modify topic f (g ∷ gs) (suc k) n e =
    ground (arith, any_matches-modify topic f gs k n (omega arith, e.1))

abbrev rejected : Bytes → Bool
rejected filter = is_empty filter || ltb max_topic_length (length filter)

nonempty : (f : Bytes) → rejected f ≡ false → is_empty f ≡ false
nonempty [] h = cc
nonempty (x ∷ f) h = refl

Scan-cases :
    (s : Scan) → (s ≡ already) ⊎ ((s ≡ first_free none) ⊎ ((i : ℕ) × (s ≡ first_free (some i))))
Scan-cases already = inl refl
Scan-cases (first_free none) = inr (inl refl)
Scan-cases (first_free (some i)) = inr (inr (i, refl))

at_free :
    (fs : List Bytes) (i : ℕ)
    → (none ≡ some i) ⊎ ((k : ℕ) × (i ≡ 0 + k) × IsEmptyAt k fs)
    → IsEmptyAt i fs
at_free fs i (inl e) = cc
at_free fs i (inr (k, e, at)) = subst (λ n. IsEmptyAt n fs) (omega arith) at

-- A SUBSCRIBE that is accepted adds exactly the topics that the filter matches to those that the
-- device is subscribed to.
pub is_subscribed_to-subscribe_to :
    (d : Device) (filter topic : Bytes)
    → (subscribe_to d filter).1 ≡ true
    → is_subscribed_to (subscribe_to d filter).0 topic
      ≡ (topic_matches_pattern topic filter || is_subscribed_to d topic)
unfolding subscribe_to is_subscribed_to
is_subscribed_to-subscribe_to d filter topic ok = elim (Bool-cases (rejected filter)) [
  | inl bad ↦ absurd (refused bad ok)
  | inr good ↦ elim (Scan-cases (scan filter d.subscriptions 0 none)) [
    | inl e ↦
        rw (good, e)
          (sym (
            any_matches-holds topic filter d.subscriptions (nonempty filter good)
              (scan-already filter d.subscriptions 0 none e)))
    | inr (inl e) ↦ absurd (no_room good e ok)
    | inr (inr (i, e)) ↦
        let found = scan-free filter d.subscriptions 0 none i e in
        rw (good, e)
          (any_matches-modify topic filter d.subscriptions i (nonempty filter good)
            (at_free d.subscriptions i found.1))
  ]
]
  where
    refused : rejected filter ≡ true → ¬ ((subscribe_to d filter).1 ≡ true)
    refused bad = rw bad (λ e. cc)

    no_room :
        rejected filter ≡ false
        → scan filter d.subscriptions 0 none ≡ first_free none
        → ¬ ((subscribe_to d filter).1 ≡ true)
    no_room good e = rw (good, e) (λ h. cc)

holds-modify :
    (g f : Bytes) (fs : List Bytes) (k : ℕ)
    → holds g fs ≡ false
    → g ≢ f
    → holds g (modify fs k (λ _. f)) ≡ false
holds-modify g f [] k h n = refl
holds-modify g f (x ∷ fs) zero h n = ground (arith, bytes_eq_iff f g)
holds-modify g f (x ∷ fs) (suc k) h n = ground (arith, holds-modify g f fs k)

IsDistinct-modify :
    (f : Bytes) (fs : List Bytes) (k : ℕ)
    → IsDistinct fs
    → holds f fs ≡ false
    → IsDistinct (modify fs k (λ _. f))
IsDistinct-modify f [] k d h = tt
IsDistinct-modify f (x ∷ fs) zero d h = (inr (ground arith), d.1)
IsDistinct-modify f (x ∷ fs) (suc k) d h = (
  elim d.0 [
    | inl e ↦ inl e
    | inr n ↦ inr (holds-modify x f fs k n (λ e. ground (arith, bytes_eq_iff x f)))
  ],
  IsDistinct-modify f fs k d.1 (ground arith),
)

All-short-modify :
    (f : Bytes) (fs : List Bytes) (k : ℕ)
    → All (λ g. length g ≤ max_topic_length) fs
    → length f ≤ max_topic_length
    → All (λ g. length g ≤ max_topic_length) (modify fs k (λ _. f))
All-short-modify f [] k a h = tt
All-short-modify f (x ∷ fs) zero a h = (h, a.1)
All-short-modify f (x ∷ fs) (suc k) a h = (a.0, All-short-modify f fs k a.1 h)

-- SUBSCRIBE keeps the array well formed: 32 slots, no filter over 63 bytes, and none twice.
pub subscribe_to-HasFilters :
    (d : Device) (filter : Bytes) → HasFilters d → HasFilters (subscribe_to d filter).0
unfolding subscribe_to
subscribe_to-HasFilters d filter v = elim (Bool-cases (rejected filter)) [
  | inl bad ↦ rw bad v
  | inr good ↦ elim (Scan-cases (scan filter d.subscriptions 0 none)) [
    | inl e ↦ rw (good, e) v
    | inr (inl e) ↦ rw (good, e) v
    | inr (inr (i, e)) ↦
        let found = scan-free filter d.subscriptions 0 none i e in
        rw (good, e)
          (record {
            slots = length-modify d.subscriptions i (λ _. filter) ∙ v.slots;
            short = All-short-modify filter d.subscriptions i v.short (short filter good);
            distinct = IsDistinct-modify filter d.subscriptions i v.distinct found.0;
          })
  ]
]
  where
    short : (f : Bytes) → rejected f ≡ false → length f ≤ max_topic_length
    short f h = ground arith

any_matches-clear :
    (topic f : Bytes) (fs : List Bytes)
    → f ≢ []
    → (any_matches topic fs) ≡ (
        if holds f fs
        then topic_matches_pattern topic f || any_matches topic (clear_filter f fs).0
        else any_matches topic fs)
unfolding any_matches clear_filter
any_matches-clear topic f [] n = refl
any_matches-clear topic f (g ∷ gs) n =
    ground (arith, bytes_eq_iff g f, any_matches-clear topic f gs n)

clear_filter-found : (f : Bytes) (fs : List Bytes) → (clear_filter f fs).1 ≡ holds f fs
unfolding clear_filter
clear_filter-found f [] = refl
clear_filter-found f (g ∷ gs) = ground (arith, clear_filter-found f gs)

holds-clear_filter :
    (f : Bytes) (fs : List Bytes) → f ≢ [] → IsDistinct fs → holds f (clear_filter f fs).0 ≡ false
unfolding clear_filter
holds-clear_filter f [] n d = refl
holds-clear_filter f (g ∷ gs) n d =
    ground (arith, bytes_eq_iff g f, bytes_eq_iff [] f, holds-clear_filter f gs n d.1)

clear_filter-empty : (fs : List Bytes) → (clear_filter [] fs).0 ≡ fs
unfolding clear_filter bytes_eq
clear_filter-empty [] = refl
clear_filter-empty ([] ∷ fs) = refl
clear_filter-empty ((c ∷ f) ∷ fs) = ap (λ gs. (c ∷ f) ∷ gs) (clear_filter-empty fs)

-- What an UNSUBSCRIBE of a filter leaves of the filter and of what the device is subscribed to.
abbrev pub Unsubscribed : Bytes → Bytes → Device → Device × Bool → Type 0
Unsubscribed [] topic d r = r.0 ≡ d
Unsubscribed (c ∷ f) topic d r =
    (holds (c ∷ f) r.0.subscriptions ≡ false)
    × (is_subscribed_to d topic ≡ (
        if r.1
        then topic_matches_pattern topic (c ∷ f) || is_subscribed_to r.0 topic
        else is_subscribed_to r.0 topic))

-- UNSUBSCRIBE succeeds exactly where the filter is in a slot. Then it is there no more, and the device
-- was subscribed to just the topics that the filter matches and those it is still subscribed to;
-- where it fails, it is subscribed to what it was. An empty slot holds the empty filter: UNSUBSCRIBE
-- of the empty filter succeeds exactly where a slot is empty, and changes nothing.
pub unsubscribe_from_lem :
    (d : Device) (filter topic : Bytes)
    → HasFilters d
    → ((unsubscribe_from d filter).1 ≡ holds filter d.subscriptions)
      × Unsubscribed filter topic d (unsubscribe_from d filter)
unfolding unsubscribe_from is_subscribed_to
unsubscribe_from_lem d [] topic v =
    let same : record d { subscriptions = (clear_filter [] d.subscriptions).0 } ≡ d =
      ap (λ (fs : List Bytes). record d { subscriptions = fs })
        (clear_filter-empty d.subscriptions) in
    (
      ground (arith, clear_filter-found [] d.subscriptions),
      if_ind (λ (r : Device × Bool). r.0 ≡ d) (clear_filter [] d.subscriptions).1 (λ y. same)
          (λ n. refl),
    )
unsubscribe_from_lem d (c ∷ f) topic v = ground (
  arith,
  clear_filter-found (c ∷ f) d.subscriptions,
  holds-clear_filter (c ∷ f) d.subscriptions (λ e. cc) v.distinct,
  any_matches-clear topic (c ∷ f) d.subscriptions (λ e. cc),
)

replicate-IsDistinct : (n : ℕ) → IsDistinct (replicate n [])
replicate-IsDistinct zero = tt
replicate-IsDistinct (suc n) = (inl refl, replicate-IsDistinct n)

replicate-All_short : (n : ℕ) → All (λ (f : Bytes). length f ≤ max_topic_length) (replicate n [])
replicate-All_short zero = tt
replicate-All_short (suc n) = (omega arith, replicate-All_short n)

-- A new device has no filters.
pub new_device-HasFilters : (mac : Bytes) (cid now : ℕ) → HasFilters (new_device mac cid now)
unfolding new_device
new_device-HasFilters mac cid now = record {
  slots = length-replicate {A = Bytes} max_subscriptions [];
  short = replicate-All_short max_subscriptions;
  distinct = replicate-IsDistinct max_subscriptions;
}
