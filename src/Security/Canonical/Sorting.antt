-- ===== src/Security/Canonical/Sorting.antt =====
-- src/security/Crypto.h: sorted pairs stay as they are when they are sorted again.
use power_monitor_sensor.Common.{
  ◌≡◌, refl, Bool, true, false, ◌&&◌, List, [], ◌∷◌, arith, All, &&-eq-true, Bool-cases, inl, inr,
}
use power_monitor_sensor.Common.Texts.{Text}
use power_monitor_sensor.Security.Canonical.{text_le, text_is, pair_le, insert, sort}

text_le-total : (left right : Text) → text_le left right ≡ false → text_le right left ≡ true
unfolding text_le
text_le-total [] right h = cc
text_le-total (c ∷ left) [] h = refl
text_le-total (c ∷ left) (d ∷ right) h = ground (arith, text_le-total left right)

pair_le-total : (p q : Text × Text) → pair_le p q ≡ false → pair_le q p ≡ true
unfolding text_is pair_le
pair_le-total (key, value) (other_key, other_value) h =
    ground (arith, text_le-total key other_key, text_le-total value other_value)

-- The pair may stand before the others.
unfoldable is_first : Text × Text → List (Text × Text) → Bool
is_first pair [] = true
is_first pair (next ∷ pairs) = pair_le pair next

unfoldable is_sorted : List (Text × Text) → Bool
is_sorted [] = true
is_sorted (pair ∷ pairs) = is_first pair pairs && is_sorted pairs

first_insert :
    (first pair : Text × Text) (pairs : List (Text × Text))
    → pair_le first pair ≡ true
    → is_first first pairs ≡ true
    → is_first first (insert pair pairs) ≡ true
unfolding is_first insert
first_insert first pair [] le h = le
first_insert first pair (next ∷ pairs) le h = ground arith

sorted_insert :
    (pair : Text × Text) (pairs : List (Text × Text))
    → is_sorted pairs ≡ true
    → is_sorted (insert pair pairs) ≡ true
unfolding is_sorted is_first insert
sorted_insert pair [] h = refl
sorted_insert pair (first ∷ pairs) h =
    ground
      (arith, sorted_insert pair pairs, first_insert first pair pairs, pair_le-total pair first)

sorted_sort : (pairs : List (Text × Text)) → is_sorted (sort pairs) ≡ true
unfolding is_sorted sort
sorted_sort [] = refl
sorted_sort (pair ∷ pairs) = sorted_insert pair (sort pairs) (sorted_sort pairs)

insert_first :
    (pair : Text × Text) (pairs : List (Text × Text))
    → is_first pair pairs ≡ true
    → insert pair pairs ≡ pair ∷ pairs
unfolding is_first insert
insert_first pair [] h = refl
insert_first pair (next ∷ pairs) h = ground arith

sort_sorted : (pairs : List (Text × Text)) → is_sorted pairs ≡ true → sort pairs ≡ pairs
unfolding sort is_sorted
sort_sorted [] h = refl
sort_sorted (pair ∷ pairs) h =
    let both = &&-eq-true (is_first pair pairs) (is_sorted pairs) h in
    rw (sort_sorted pairs both.1) (insert_first pair pairs both.0)

pub sort_twice : (pairs : List (Text × Text)) → sort (sort pairs) ≡ sort pairs
sort_twice pairs = sort_sorted (sort pairs) (sorted_sort pairs)

module _ {ℓ} (Holds : Text × Text → Type ℓ) where
  insert-All :
      (pair : Text × Text) (pairs : List (Text × Text))
      → Holds pair
      → All Holds pairs
      → All Holds (insert pair pairs)
  unfolding insert
  insert-All pair [] h hs = (h, hs)
  insert-All pair (first ∷ pairs) h hs = elim (Bool-cases (pair_le pair first)) [
    | inl le ↦ rw le (h, hs)
    | inr gt ↦ rw gt (hs.0, insert-All pair pairs h hs.1)
  ]

  pub sort-All : (pairs : List (Text × Text)) → All Holds pairs → All Holds (sort pairs)
  unfolding sort
  sort-All [] hs = hs
  sort-All (pair ∷ pairs) hs = insert-All pair (sort pairs) hs.0 (sort-All pairs hs.1)
