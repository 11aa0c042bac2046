-- ===== src/Common/Orders.antt =====
-- Three-way comparisons: when one is a total preorder, and how they are put together.
use Prim.Native.Nat.{ℕ, compare, Ordering}
use mathlib.Core.Path.{◌≡◌, refl}
use mathlib.Core.Logic.{◌⊎◌, inl, inr}
use mathlib.Core.List.{List, [], ◌∷◌}
use native.Mathlib.Omega.{arith}
use Ordering.{lt, eq, gt}

abbrev pub flip : Ordering → Ordering
flip lt = gt
flip eq = eq
flip gt = lt

-- The first comparison decides, unless it finds no difference.
abbrev pub chain : Ordering → Ordering → Ordering
chain lt next = lt
chain eq next = next
chain gt next = gt

-- Total, transitive, and blind to the difference of what it holds to be the same.
pub record IsOrder {ℓ} {A : Type ℓ} (order : A → A → Ordering) : Type ℓ where
  pub flips : (a b : A) → order b a ≡ flip (order a b)
  pub goes : (a b c : A) → order a b ≡ lt → order b c ≡ lt → order a c ≡ lt
  pub blind : (a b c : A) → order a b ≡ eq → order a c ≡ order b c

pub compare-IsOrder : IsOrder compare
compare-IsOrder = record {
  flips = λ a b. ground arith;
  goes = λ a b c h g. ground arith;
  blind = λ a b c h. ground arith;
}

chain_cases : (o p : Ordering) → chain o p ≡ lt → (o ≡ lt) ⊎ ((o ≡ eq) × (p ≡ lt))
chain_cases lt p h = inl refl
chain_cases eq p h = inr (refl, h)
chain_cases gt p h = cc

pub chain_same : (o p : Ordering) → chain o p ≡ eq → (o ≡ eq) × (p ≡ eq)
chain_same lt p h = cc
chain_same eq p h = (refl, h)
chain_same gt p h = cc

flip-chain : (o p : Ordering) → flip (chain o p) ≡ chain (flip o) (flip p)
flip-chain lt p = refl
flip-chain eq p = refl
flip-chain gt p = refl

module _ {ℓ} {A : Type ℓ} where
  pub by_key-IsOrder {κ} :
      {B : Type κ} (order : B → B → Ordering) (key : A → B)
      → IsOrder order
      → IsOrder (λ a b. order (key a) (key b))
  by_key-IsOrder order key o = record {
    flips = λ a b. o.flips (key a) (key b);
    goes = λ a b c. o.goes (key a) (key b) (key c);
    blind = λ a b c. o.blind (key a) (key b) (key c);
  }

  pub agree-IsOrder :
      (order its : A → A → Ordering)
      → ((a b : A) → order a b ≡ its a b)
      → IsOrder its
      → IsOrder order
  agree-IsOrder order its same o = record {
    flips = λ a b. rw (same a b, same b a) (o.flips a b);
    goes = λ a b c. rw (same a b, same b c, same a c) (o.goes a b c);
    blind = λ a b c. rw (same a b, same b c, same a c) (o.blind a b c);
  }

  -- What is held to be the same on the right does not matter either.
  pub blind_right :
      (order : A → A → Ordering)
      → IsOrder order
      → (a b c : A) → order b c ≡ eq
      → order a b ≡ order a c
  blind_right order o a b c h =
      let left = o.flips b a in let right = o.flips c a in let same = o.blind b c a h in cc

  step_goes :
      (order : A → A → Ordering)
      → IsOrder order
      → (x y z : A) (p q r : Ordering) → (p ≡ lt → q ≡ lt → r ≡ lt)
      → chain (order x y) p ≡ lt
      → chain (order y z) q ≡ lt
      → chain (order x z) r ≡ lt
  step_goes order o x y z p q r behind h g = elim (chain_cases (order x y) p h) [
    | inl before ↦ elim (chain_cases (order y z) q g) [
      | inl later ↦ rw (o.goes x y z before later) refl
      | inr (same, later) ↦
          let right = blind_right order o x y z same in
          let less : order x z ≡ lt = cc in rw less refl
    ]
    | inr (same, before) ↦ elim (chain_cases (order y z) q g) [
      | inl later ↦ let left = o.blind x y z same in let less : order x z ≡ lt = cc in rw less refl
      | inr (equal, later) ↦
          let left = o.blind x y z same in
          let neither : order x z ≡ eq = cc in rw neither (behind before later)
    ]
  ]

  -- The second comparison decides where the first finds no difference.
  pub chain-IsOrder :
      (first second : A → A → Ordering)
      → IsOrder first
      → IsOrder second
      → IsOrder (λ a b. chain (first a b) (second a b))
  chain-IsOrder first second o p = record {
    flips = λ a b. rw (o.flips a b, p.flips a b, flip-chain (first a b) (second a b)) refl;
    goes = λ a b c. step_goes first o a b c (second a b) (second b c) (second a c) (p.goes a b c);
    blind = λ a b c h.
        let (same, equal) = chain_same (first a b) (second a b) h in
        rw (o.blind a b c same, p.blind a b c equal) refl;
  }

  -- Lists: by the first difference, and a list before what extends it.
  unfoldable pub list_order : (A → A → Ordering) → List A → List A → Ordering
  list_order order [] [] = eq
  list_order order [] (y ∷ ys) = lt
  list_order order (x ∷ xs) [] = gt
  list_order order (x ∷ xs) (y ∷ ys) = chain (order x y) (list_order order xs ys)

  list-flips :
      (order : A → A → Ordering)
      → IsOrder order
      → (a b : List A) → list_order order b a ≡ flip (list_order order a b)
  unfolding list_order
  list-flips order o [] [] = refl
  list-flips order o [] (y ∷ ys) = refl
  list-flips order o (x ∷ xs) [] = refl
  list-flips order o (x ∷ xs) (y ∷ ys) =
      rw (o.flips x y, list-flips order o xs ys, flip-chain (order x y) (list_order order xs ys))
        refl

  list-goes :
      (order : A → A → Ordering)
      → IsOrder order
      → (a b c : List A) → list_order order a b ≡ lt
      → list_order order b c ≡ lt
      → list_order order a c ≡ lt
  unfolding list_order
  list-goes order o [] [] c h g = cc
  list-goes order o [] (y ∷ ys) [] h g = cc
  list-goes order o [] (y ∷ ys) (z ∷ zs) h g = refl
  list-goes order o (x ∷ xs) [] c h g = cc
  list-goes order o (x ∷ xs) (y ∷ ys) [] h g = cc
  list-goes order o (x ∷ xs) (y ∷ ys) (z ∷ zs) h g =
      step_goes order o x y z (list_order order xs ys) (list_order order ys zs)
        (list_order order xs zs) (list-goes order o xs ys zs) h g

  list-blind :
      (order : A → A → Ordering)
      → IsOrder order
      → (a b c : List A) → list_order order a b ≡ eq
      → list_order order a c ≡ list_order order b c
  unfolding list_order
  list-blind order o [] [] c h = refl
  list-blind order o [] (y ∷ ys) c h = cc
  list-blind order o (x ∷ xs) [] c h = cc
  list-blind order o (x ∷ xs) (y ∷ ys) [] h = refl
  list-blind order o (x ∷ xs) (y ∷ ys) (z ∷ zs) h =
      let (same, equal) = chain_same (order x y) (list_order order xs ys) h in
      rw (o.blind x y z same, list-blind order o xs ys zs equal) refl

  pub list_order-IsOrder : (order : A → A → Ordering) → IsOrder order → IsOrder (list_order order)
  list_order-IsOrder order o = record {
    flips = list-flips order o;
    goes = list-goes order o;
    blind = list-blind order o;
  }

-- Texts: std::string::compare, by its sign.
abbrev pub text_order : List ℕ → List ℕ → Ordering
text_order = list_order compare

pub list_order_exact {ℓ} :
    {A : Type ℓ} (order : A → A → Ordering)
    → ((a b : A) → order a b ≡ eq → a ≡ b)
    → (s t : List A) → list_order order s t ≡ eq
    → s ≡ t
unfolding list_order
list_order_exact order exact [] [] h = refl
list_order_exact order exact [] (y ∷ ys) h = cc
list_order_exact order exact (x ∷ xs) [] h = cc
list_order_exact order exact (x ∷ xs) (y ∷ ys) h =
    let (same, equal) = chain_same (order x y) (list_order order xs ys) h in
    rw (exact x y same, list_order_exact order exact xs ys equal) refl

pub list_order_refl {ℓ} :
    {A : Type ℓ} (order : A → A → Ordering)
    → ((a : A) → order a a ≡ eq)
    → (s : List A) → list_order order s s ≡ eq
unfolding list_order
list_order_refl order same [] = refl
list_order_refl order same (x ∷ xs) = rw (same x, list_order_refl order same xs) refl

pub compare_exact : (m n : ℕ) → compare m n ≡ eq → m ≡ n
compare_exact m n h = ground arith

pub compare_refl : (n : ℕ) → compare n n ≡ eq
compare_refl n = ground arith

pub text_order_exact : (s t : List ℕ) → text_order s t ≡ eq → s ≡ t
text_order_exact = list_order_exact compare compare_exact

pub text_order_refl : (s : List ℕ) → text_order s s ≡ eq
text_order_refl = list_order_refl compare compare_refl
