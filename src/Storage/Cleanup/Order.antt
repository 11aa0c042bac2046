-- ===== src/Storage/Cleanup/Order.antt =====
-- src/storage/StoragePolicy.cpp, buildCleanupPlan: the eligible segments, each once, oldest first.
use Prim.Native.Nat.{Ordering}
use Ordering.{lt, gt}
use power_monitor_sensor.Common.{
  ℕ, suc, ◌+◌, ◌-◌, ◌<◌, ◌≡◌, ◌≢◌, refl, ◌⊎◌, inl, inr, Bool, true, false, ◌&&◌, Option, none, some,
  List, [], ◌∷◌, ◌++◌, arith, leb, ◌==◌, get_elem?, Bool-cases, if◌then◌else◌,
}
use power_monitor_sensor.Common.Texts.{Text}
use power_monitor_sensor.Common.Orders.{list_order, text_order}
use power_monitor_sensor.Storage.Segments.{
  SegmentMetadata, segment_bytes, SegmentEligibility, RetentionContext, segment_eligibility,
}
use power_monitor_sensor.Storage.Segments.Removal.{is_eligible}
use power_monitor_sensor.Storage.Cleanup.{
  CleanupPlan, count_segment, push_eligible, scan, text_lt, index_before, before_in, insert_sorted,
  sort,
}

-- How often an index stands in a list.
abbrev pub occurrences : ℕ → List ℕ → ℕ
occurrences i [] = 0
occurrences i (x ∷ xs) = (if x == i then 1 else 0) + occurrences i xs

-- Once for an eligible segment, and not at all for another one or behind the end.
abbrev pub once_eligible : RetentionContext → Option SegmentMetadata → ℕ
once_eligible context none = 0
once_eligible context (some segment) =
    if is_eligible (segment_eligibility segment context) then 1 else 0

-- The first segment has the lower first sequence, or the same one and a path that is not behind.
abbrev pub IsNotNewer : Option SegmentMetadata → Option SegmentMetadata → Type 0
IsNotNewer (some a) (some b) =
    (a.first_sequence < b.first_sequence)
    ⊎ ((a.first_sequence ≡ b.first_sequence) × (text_order a.record_path b.record_path ≢ gt))
IsNotNewer _ _ = Unit

occurrences-snoc :
    (i x : ℕ) (xs : List ℕ)
    → occurrences i (xs ++ x ∷ []) ≡ occurrences i xs + (if x == i then 1 else 0)
occurrences-snoc i x [] = omega arith
occurrences-snoc i x (y ∷ ys) = omega (arith, occurrences-snoc i x ys)

text_lt-gt : (s t : Text) → text_order s t ≡ gt → text_lt t s ≡ true
unfolding text_lt list_order
text_lt-gt [] [] h = cc
text_lt-gt [] (y ∷ ys) h = cc
text_lt-gt (x ∷ xs) [] h = refl
text_lt-gt (x ∷ xs) (y ∷ ys) h = ground (arith, text_lt-gt xs ys)

text_lt-lt : (s t : Text) → text_lt s t ≡ true → text_order s t ≡ lt
unfolding text_lt list_order
text_lt-lt [] [] h = cc
text_lt-lt [] (y ∷ ys) h = refl
text_lt-lt (x ∷ xs) [] h = cc
text_lt-lt (x ∷ xs) (y ∷ ys) h = ground (arith, text_lt-lt xs ys)

-- The order of the code and the order above, on segments that are there.
before-IsNotNewer : (a b : Option SegmentMetadata) → before_in a b ≡ true → IsNotNewer a b
before-IsNotNewer none b h = tt
before-IsNotNewer (some a) none h = tt
before-IsNotNewer (some a) (some b) h = ground (arith, text_lt-lt a.record_path b.record_path)

not_before-IsNotNewer : (a b : Option SegmentMetadata) → before_in b a ≡ false → IsNotNewer a b
not_before-IsNotNewer none b h = tt
not_before-IsNotNewer (some a) none h = tt
not_before-IsNotNewer (some a) (some b) h = ground (arith, text_lt-gt a.record_path b.record_path)

module _ (segments : List SegmentMetadata) where
  -- No index stands behind that of a newer segment.
  abbrev pub IsOldestFirst : List ℕ → Type 0
  IsOldestFirst [] = Unit
  IsOldestFirst (x ∷ []) = Unit
  IsOldestFirst (x ∷ y ∷ ys) =
      IsNotNewer (get_elem? segments x) (get_elem? segments y) × IsOldestFirst (y ∷ ys)

  insert-IsOldestFirst :
      (x : ℕ) (ys : List ℕ)
      → IsOldestFirst ys
      → IsOldestFirst (insert_sorted (index_before segments) x ys)
  unfolding insert_sorted index_before
  insert-IsOldestFirst x [] h = tt
  insert-IsOldestFirst x (y ∷ []) h =
      elim (Bool-cases (before_in (get_elem? segments y) (get_elem? segments x))) [
        | inl e ↦ rw e (before-IsNotNewer (get_elem? segments y) (get_elem? segments x) e, tt)
        | inr e ↦ rw e (not_before-IsNotNewer (get_elem? segments x) (get_elem? segments y) e, tt)
      ]
  insert-IsOldestFirst x (y ∷ z ∷ ys) h =
      let rest = insert-IsOldestFirst x (z ∷ ys) h.1 in
      elim (Bool-cases (before_in (get_elem? segments y) (get_elem? segments x))) [
        | inr e ↦ rw e (not_before-IsNotNewer (get_elem? segments x) (get_elem? segments y) e, h)
        | inl e ↦ elim (Bool-cases (before_in (get_elem? segments z) (get_elem? segments x))) [
          | inl f ↦ rw (e, f) (h.0, rw f at rest)
          | inr f ↦
              rw (e, f)
                (before-IsNotNewer (get_elem? segments y) (get_elem? segments x) e, rw f at rest)
        ]
      ]

  sort-IsOldestFirst : (xs : List ℕ) → IsOldestFirst (sort (index_before segments) xs)
  unfolding sort
  sort-IsOldestFirst [] = tt
  sort-IsOldestFirst (x ∷ xs) =
      insert-IsOldestFirst x (sort (index_before segments) xs) (sort-IsOldestFirst xs)

insert-occurrences :
    (before : ℕ → ℕ → Bool) (i x : ℕ) (ys : List ℕ)
    → occurrences i (insert_sorted before x ys) ≡ (if x == i then 1 else 0) + occurrences i ys
unfolding insert_sorted
insert-occurrences before i x [] = refl
insert-occurrences before i x (y ∷ ys) =
    let rest = insert-occurrences before i x ys in
    elim (Bool-cases (before y x)) [ inl e ↦ rw e (omega arith) | inr e ↦ rw e refl ]

sort-occurrences :
    (before : ℕ → ℕ → Bool) (i : ℕ) (xs : List ℕ)
    → occurrences i (sort before xs) ≡ occurrences i xs
unfolding sort
sort-occurrences before i [] = refl
sort-occurrences before i (x ∷ xs) =
    omega (arith, insert-occurrences before i x (sort before xs), sort-occurrences before i xs)

-- What the scan still pushes for an index, `index` being that of the first of `segments`.
abbrev pushes : RetentionContext → ℕ → List SegmentMetadata → ℕ → ℕ
pushes context index segments i =
    if leb index i then once_eligible context (get_elem? segments (i - index)) else 0

push-occurrences :
    (e : SegmentEligibility) (index i : ℕ) (eligible : List ℕ)
    → occurrences i (push_eligible e index eligible)
      ≡ occurrences i eligible + (if is_eligible e && index == i then 1 else 0)
unfolding push_eligible
push-occurrences e index i eligible = ground (arith, occurrences-snoc i index eligible)

first_pushes :
    (context : RetentionContext) (index i : ℕ) (segment : SegmentMetadata)
    (segments : List SegmentMetadata)
    → pushes context index (segment ∷ segments) i
      ≡ (if is_eligible (segment_eligibility segment context) && index == i then 1 else 0)
        + pushes context (suc index) segments i
first_pushes context index i segment segments = elim (Bool-cases (leb (suc index) i)) [
  | inl above ↦
      let later : i - index ≡ suc (i - suc index) = ground arith in
      let here : leb index i ≡ true = ground arith in
      let other : (index == i) ≡ false = ground arith in
      rw (here, above, other, later) (ground arith)
  | inr not_above ↦ elim (Bool-cases (index == i)) [
    | inl same ↦
        let here : leb index i ≡ true = ground arith in
        let zero_left : i - index ≡ 0 = ground arith in
        rw (here, not_above, same, zero_left) (ground arith)
    | inr other ↦
        let below : leb index i ≡ false = ground arith in
        rw (below, not_above, other) (ground arith)
  ]
]

scan-occurrences :
    (context : RetentionContext) (index : ℕ) (segments : List SegmentMetadata) (plan : CleanupPlan)
    (eligible : List ℕ) (i : ℕ)
    → occurrences i (scan context index segments plan eligible).1
      ≡ occurrences i eligible + pushes context index segments i
unfolding scan
scan-occurrences context index [] plan eligible i = ground arith
scan-occurrences context index (segment ∷ segments) plan eligible i =
    let e = segment_eligibility segment context in
    omega (
      arith,
      scan-occurrences context (suc index) segments (count_segment e (segment_bytes segment) plan)
          (push_eligible e index eligible) i,
      push-occurrences e index i eligible,
      first_pushes context index i segment segments,
    )

-- All eligible segments, each once, and oldest first.
pub record IsRemovalOrder (segments : List SegmentMetadata) (context : RetentionContext)
    (order : List ℕ) : Type 0 where
  pub each_once : (i : ℕ) → occurrences i order ≡ once_eligible context (get_elem? segments i)
  pub oldest_first : IsOldestFirst segments order

pub sorted-IsRemovalOrder :
    (segments : List SegmentMetadata) (context : RetentionContext) (plan : CleanupPlan)
    → IsRemovalOrder segments context
        (sort (index_before segments) (scan context 0 segments plan []).1)
sorted-IsRemovalOrder segments context plan =
    let eligible = (scan context 0 segments plan []).1 in
    record {
      each_once = λ i.
          let known = scan-occurrences context 0 segments plan [] i in
          let first : leb 0 i ≡ true = ground arith in
          let same : i - 0 ≡ i = omega arith in
          rw (sort-occurrences (index_before segments) i eligible, known, first, same)
            (omega arith);
      oldest_first = sort-IsOldestFirst segments eligible;
    }
