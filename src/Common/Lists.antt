-- ===== src/Common/Lists.antt =====
-- Lists measured, indexed and tested by native numbers.
use Prim.Native.Nat.{ℕ, zero, suc, ◌+◌, ◌-◌, ◌<◌}
use mathlib.Core.Path.{◌≡◌, refl, ap, ◌∙◌}
use mathlib.Core.Bool.{Bool, true, false, ◌&&◌, ◌||◌}
use mathlib.Core.List.{List, [], ◌∷◌, ◌++◌}
use mathlib.Core.Option.{Option, none, some}
use native.Mathlib.Omega.{arith}
use native.Mathlib.Numerals.{unary_clauses}

module _ {ℓ} {A : Type ℓ} where
  abbrev pub length : List A → ℕ
  length [] = 0
  length (x ∷ xs) = suc (length xs)

  abbrev pub get_elem? : List A → ℕ → Option A
  get_elem? [] i = none
  get_elem? (x ∷ xs) zero = some x
  get_elem? (x ∷ xs) (suc i) = get_elem? xs i

  -- A write out of bounds changes nothing.
  abbrev pub set : List A → ℕ → A → List A
  set [] i v = []
  set (x ∷ xs) zero v = v ∷ xs
  set (x ∷ xs) (suc i) v = x ∷ set xs i v

  abbrev pub get_or : List A → ℕ → A → A
  get_or [] i d = d
  get_or (x ∷ xs) zero d = x
  get_or (x ∷ xs) (suc i) d = get_or xs i d

  abbrev pub take : ℕ → List A → List A
  take zero xs = []
  take (suc n) [] = []
  take (suc n) (x ∷ xs) = x ∷ take n xs

  abbrev pub drop : ℕ → List A → List A
  drop zero xs = xs
  drop (suc n) [] = []
  drop (suc n) (x ∷ xs) = drop n xs

  abbrev pub is_empty : List A → Bool
  is_empty [] = true
  is_empty (x ∷ xs) = false

  abbrev pub all : (A → Bool) → List A → Bool
  all p [] = true
  all p (x ∷ xs) = p x && all p xs

  abbrev pub any : (A → Bool) → List A → Bool
  any p [] = false
  any p (x ∷ xs) = p x || any p xs

  -- A predicate on every element.
  abbrev pub All {κ} : (Holds : A → Type κ) (elements : List A) → Type κ
  All Holds [] = Unit
  All Holds (first ∷ others) = Holds first × All Holds others

zero_plus : (j : ℕ) → 0 + j ≡ j
zero_plus j = omega arith

suc_plus : (i j : ℕ) → suc i + j ≡ suc (i + j)
suc_plus i j = omega arith

module _ {ℓ} {A : Type ℓ} where
  pub length-append : (xs ys : List A) → length (xs ++ ys) ≡ length xs + length ys
  length-append [] ys = omega arith
  length-append (x ∷ xs) ys = omega (arith, length-append xs ys)

  pub length-set : (xs : List A) (i : ℕ) (v : A) → length (set xs i v) ≡ length xs
  length-set [] i v = refl
  length-set (x ∷ xs) zero v = refl
  length-set (x ∷ xs) (suc i) v = ap suc (length-set xs i v)

  pub get_elem?-set_self :
      (xs : List A) (i : ℕ) (v : A) → i < length xs → get_elem? (set xs i v) i ≡ some v
  get_elem?-set_self [] i v h = elim h [ ]
  get_elem?-set_self (x ∷ xs) zero v h = refl
  get_elem?-set_self (x ∷ xs) (suc i) v h = get_elem?-set_self xs i v (omega arith)

  pub take-append : (xs ys : List A) → take (length xs) (xs ++ ys) ≡ xs
  take-append [] ys = refl
  take-append (x ∷ xs) ys = ap (◌∷◌ x) (take-append xs ys)

  pub drop-append : (xs ys : List A) → drop (length xs) (xs ++ ys) ≡ ys
  drop-append [] ys = refl
  drop-append (x ∷ xs) ys = drop-append xs ys

  pub drop-drop : (xs : List A) (i j : ℕ) → drop (i + j) xs ≡ drop j (drop i xs)
  drop-drop xs zero j = ap (λ (n : ℕ). drop n xs) (zero_plus j)
  drop-drop [] (suc i) zero = simp unary_clauses refl
  drop-drop [] (suc i) (suc j) = simp unary_clauses refl
  drop-drop (x ∷ xs) (suc i) j = ap (λ (n : ℕ). drop n (x ∷ xs)) (suc_plus i j) ∙ drop-drop xs i j

  pub get_or-drop : (xs : List A) (i j : ℕ) (d : A) → get_or xs (i + j) d ≡ get_or (drop i xs) j d
  get_or-drop xs zero j d = ap (λ (n : ℕ). get_or xs n d) (zero_plus j)
  get_or-drop [] (suc i) j d = refl
  get_or-drop (x ∷ xs) (suc i) j d =
      ap (λ (n : ℕ). get_or (x ∷ xs) n d) (suc_plus i j) ∙ get_or-drop xs i j d

  pub get_or-first : (xs : List A) (i : ℕ) (d : A) → get_or xs i d ≡ get_or (drop i xs) 0 d
  get_or-first xs zero d = refl
  get_or-first [] (suc i) d = refl
  get_or-first (x ∷ xs) (suc i) d = get_or-first xs i d

  pub length-drop : (xs : List A) (i : ℕ) → length (drop i xs) ≡ length xs - i
  length-drop xs zero = omega arith
  length-drop [] (suc i) = omega arith
  length-drop (x ∷ xs) (suc i) = omega (arith, length-drop xs i)

  pub All-append {κ} :
      (Holds : A → Type κ) (front back : List A)
      → All Holds front
      → All Holds back
      → All Holds (front ++ back)
  All-append Holds [] back nothing held = held
  All-append Holds (first ∷ others) back (now, later) held =
      (now, All-append Holds others back later held)

-- A test of every number below a bound, by evaluation; the last number is tested last.
unfoldable pub all_below : ℕ → (ℕ → Bool) → Bool
all_below zero test = true
all_below (suc last) test = all_below last test && test last

pub all_below_sound :
    (bound : ℕ) (test : ℕ → Bool)
    → all_below bound test ≡ true
    → (i : ℕ) → i < bound
    → test i ≡ true
unfolding all_below
all_below_sound zero test passed i below = absurd (omega arith)
all_below_sound (suc last) test passed i below =
    let earlier : all_below last test ≡ true → i < last → test i ≡ true =
      λ before. all_below_sound last test before i in
    ground (arith, earlier)
