-- ===== src/Storage/Coverage/Limit.antt =====
-- src/storage/SyncCoverage.h: the sequence that a page may cover at most.
use power_monitor_sensor.Common.{
  ℕ, ◌≤◌, ◌<◌, ◌≡◌, refl, ◌⊎◌, inl, inr, max, min, true, false, List, [], ◌∷◌, arith, ltb,
  Bool-cases, All, is_empty, if◌then◌else◌,
}
use power_monitor_sensor.Storage.Coverage.{
  insert_unique, sort_unique, contains, last_of, desired_end,
}

-- The greatest element of a list, whatever its order.
abbrev pub greatest : List ℕ → ℕ
greatest [] = 0
greatest (x ∷ xs) = max x (greatest xs)

-- The first element is below the second, and so on.
abbrev IsIncreasing : List ℕ → Type 0
IsIncreasing [] = Unit
IsIncreasing (x ∷ []) = Unit
IsIncreasing (x ∷ y ∷ ys) = (x < y) × IsIncreasing (y ∷ ys)

last_of-greatest :
    (x : ℕ) (xs : List ℕ) → IsIncreasing (x ∷ xs) → last_of (x ∷ xs) ≡ greatest (x ∷ xs)
last_of-greatest x [] h = omega arith
last_of-greatest x (y ∷ ys) (less, h) = omega (arith, last_of-greatest y ys h)

insert-greatest : (x : ℕ) (ys : List ℕ) → greatest (insert_unique x ys) ≡ max x (greatest ys)
unfolding insert_unique
insert-greatest x [] = refl
insert-greatest x (y ∷ ys) = ground (arith, insert-greatest x ys)

sort-greatest : (xs : List ℕ) → greatest (sort_unique xs) ≡ greatest xs
unfolding sort_unique
sort-greatest [] = refl
sort-greatest (x ∷ xs) = ground (arith, insert-greatest x (sort_unique xs), sort-greatest xs)

insert-IsIncreasing : (x : ℕ) (ys : List ℕ) → IsIncreasing ys → IsIncreasing (insert_unique x ys)
unfolding insert_unique
insert-IsIncreasing x [] h = tt
insert-IsIncreasing x (y ∷ []) h = ground arith
insert-IsIncreasing x (y ∷ z ∷ ys) h = ground (arith, insert-IsIncreasing x (z ∷ ys) h.1)

sort-IsIncreasing : (xs : List ℕ) → IsIncreasing (sort_unique xs)
unfolding sort_unique
sort-IsIncreasing [] = tt
sort-IsIncreasing (x ∷ xs) = insert-IsIncreasing x (sort_unique xs) (sort-IsIncreasing xs)

last_of_increasing : (xs : List ℕ) → IsIncreasing xs → last_of xs ≡ greatest xs
last_of_increasing [] h = refl
last_of_increasing (x ∷ xs) h = last_of-greatest x xs h

insert-filled : (x : ℕ) (ys : List ℕ) → is_empty (insert_unique x ys) ≡ false
unfolding insert_unique
insert-filled x [] = refl
insert-filled x (y ∷ ys) = ground arith

-- The end that the code aims at, from the list as it is given.
desired_end_lem :
    (xs : List ℕ) (maximum : ℕ)
    → desired_end (sort_unique xs) maximum
      ≡ (if is_empty xs then maximum else min maximum (greatest xs))
unfolding sort_unique
desired_end_lem [] maximum = refl
desired_end_lem (x ∷ xs) maximum =
    let last = last_of_increasing (sort_unique (x ∷ xs)) (sort-IsIncreasing (x ∷ xs)) in
    rw (insert-filled x (sort_unique xs), last, sort-greatest (x ∷ xs)) refl

greatest_bounds : (xs : List ℕ) (bound : ℕ) → greatest xs ≤ bound → All (λ x. x ≤ bound) xs
greatest_bounds [] bound h = tt
greatest_bounds (x ∷ xs) bound h = (omega arith, greatest_bounds xs bound (omega arith))

contains-greatest : (x : ℕ) (xs : List ℕ) → contains (x ∷ xs) (greatest (x ∷ xs)) ≡ true
unfolding contains
contains-greatest x [] = ground arith
contains-greatest x (y ∷ ys) = ground (arith, contains-greatest y ys)

-- A page may go up to the maximum, where nothing is selected or something at the maximum or behind it;
-- and otherwise up to the greatest selected sequence.
abbrev pub IsLimit : List ℕ → ℕ → ℕ → Type 0
IsLimit selected maximum limit =
    ((limit ≡ maximum)
      × ((selected ≡ []) ⊎ ((x : ℕ) × (contains selected x ≡ true) × (maximum ≤ x))))
    ⊎ ((contains selected limit ≡ true) × All (λ x. x ≤ limit) selected × (limit < maximum))

pub desired_end-IsLimit :
    (selected : List ℕ) (maximum : ℕ)
    → IsLimit selected maximum (desired_end (sort_unique selected) maximum)
desired_end-IsLimit [] maximum = rw (desired_end_lem [] maximum) (inl (refl, inl refl))
desired_end-IsLimit (x ∷ xs) maximum =
    let most = greatest (x ∷ xs) in
    let found = contains-greatest x xs in
    elim (Bool-cases (ltb most maximum)) [
      | inl short ↦
          let least : min maximum most ≡ most = ground arith in
          let limit = desired_end (sort_unique (x ∷ xs)) maximum in
          let same : limit ≡ most = rw (desired_end_lem (x ∷ xs) maximum, least) refl in
          inr (rw same found, greatest_bounds (x ∷ xs) limit (omega arith), ground arith)
      | inr long ↦
          let least : min maximum most ≡ maximum = ground arith in
          rw (desired_end_lem (x ∷ xs) maximum, least) (inl (refl, inr (most, found, ground arith)))
    ]
