-- ===== src/Security/Compare/Exact.antt =====
-- src/security/Crypto.h: the comparison answers whether the texts are equal.
use Prim.Native.Nat.{bit_or, bit_xor, digits, differ, bit_or-bitwise, bit_xor-bitwise}
use power_monitor_sensor.Common.{
  ℕ, zero, suc, ◌/◌, ◌%◌, ◌≤◌, max, ◌≡◌, refl, sym, ◌∙◌, inl, inr, true, [], ◌∷◌, arith, ltb, ◌==◌,
  u8, length, Bool-cases, ==→eq, &&-eq-true, ◌↔◌,
}
use power_monitor_sensor.Common.Texts.{Text}
use power_monitor_sensor.Security.Canonical.Percent.{is_bytes}
use power_monitor_sensor.Security.Compare.{fold_lengths, fold_bytes, constant_time_equal}

differ_zero : (x y : ℕ) → differ x y ≡ 0 → x ≡ y
differ_zero zero y h = omega (arith, h)
differ_zero (suc x) zero h = omega arith
differ_zero (suc x) (suc y) h = omega (arith, differ_zero x y h)

differ_same : (x : ℕ) → differ x x ≡ 0
differ_same zero = refl
differ_same (suc x) = differ_same x

abbrev xor_digits : ℕ → ℕ → ℕ → ℕ
xor_digits n a b = digits (λ b. b) differ n a b

abbrev or_digits : ℕ → ℕ → ℕ → ℕ
or_digits n a b = digits (λ b. b) max n a b

xor_digits_zero : (n a b : ℕ) → a ≤ n → xor_digits n a b ≡ 0 → a ≡ b
xor_digits_zero zero zero b p h = sym h
xor_digits_zero zero (suc a) b p h = absurd (omega arith)
xor_digits_zero (suc n) zero b p h = sym h
xor_digits_zero (suc n) (suc a) b p h =
    let rest = xor_digits_zero n (suc a / 2) (b / 2) (omega arith) (omega arith) in
    let last = differ_zero (suc a % 2) (b % 2) (omega arith) in omega arith

xor_digits_same : (n a : ℕ) → a ≤ n → xor_digits n a a ≡ 0
xor_digits_same zero zero p = refl
xor_digits_same zero (suc a) p = absurd (omega arith)
xor_digits_same (suc n) zero p = refl
xor_digits_same (suc n) (suc a) p =
    omega (arith, xor_digits_same n (suc a / 2) (omega arith), differ_same (suc a % 2))

or_digits_zero : (n a b : ℕ) → a ≤ n → or_digits n a b ≡ 0 → (a ≡ 0) × (b ≡ 0)
or_digits_zero zero zero b p h = (refl, h)
or_digits_zero zero (suc a) b p h = absurd (omega arith)
or_digits_zero (suc n) zero b p h = (refl, h)
or_digits_zero (suc n) (suc a) b p h =
    let rest = or_digits_zero n (suc a / 2) (b / 2) (omega arith) (omega arith) in
    absurd (omega arith)

pub bit_xor_zero : (a b : ℕ) → bit_xor a b ≡ 0 → a ≡ b
bit_xor_zero a b h = xor_digits_zero a a b (omega arith) (sym (bit_xor-bitwise a b) ∙ h)

pub bit_xor_same : (a : ℕ) → bit_xor a a ≡ 0
bit_xor_same a = bit_xor-bitwise a a ∙ xor_digits_same a a (omega arith)

pub bit_or_zero : (a b : ℕ) → bit_or a b ≡ 0 → (a ≡ 0) × (b ≡ 0)
bit_or_zero a b h = or_digits_zero a a b (omega arith) (sym (bit_or-bitwise a b) ∙ h)

lengths_zero :
    (fuel length_difference difference : ℕ)
    → length_difference ≤ fuel
    → fold_lengths fuel length_difference difference ≡ 0
    → (length_difference ≡ 0) × (difference ≡ 0)
unfolding fold_lengths
lengths_zero zero length_difference difference p h = (omega arith, h)
lengths_zero (suc fuel) length_difference difference p h =
    elim (Bool-cases (length_difference == 0)) [
      | inl none_left ↦ ground arith
      | inr more ↦
          let rest =
            lengths_zero fuel (length_difference / 256)
              (bit_or difference (length_difference % 256)) (ground arith) (ground arith) in
          let parts = bit_or_zero difference (length_difference % 256) rest.1 in
          (omega (arith, rest.0, parts.1), parts.0)
    ]

bytes_zero :
    (left right : Text) (difference : ℕ) → fold_bytes difference left right ≡ 0 → difference ≡ 0
unfolding fold_bytes
bytes_zero [] [] difference h = h
bytes_zero [] (b ∷ right) difference h =
    let step = bit_xor 0 (u8 b) in
    (bit_or_zero difference step (bytes_zero [] right (bit_or difference step) h)).0
bytes_zero (a ∷ left) [] difference h =
    let step = bit_xor (u8 a) 0 in
    (bit_or_zero difference step (bytes_zero left [] (bit_or difference step) h)).0
bytes_zero (a ∷ left) (b ∷ right) difference h =
    let step = bit_xor (u8 a) (u8 b) in
    (bit_or_zero difference step (bytes_zero left right (bit_or difference step) h)).0

bytes_equal :
    (left right : Text) (difference : ℕ)
    → is_bytes left ≡ true
    → is_bytes right ≡ true
    → length left ≡ length right
    → fold_bytes difference left right ≡ 0
    → left ≡ right
unfolding fold_bytes
bytes_equal [] [] difference l r n h = refl
bytes_equal [] (b ∷ right) difference l r n h = absurd (omega arith)
bytes_equal (a ∷ left) [] difference l r n h = absurd (omega arith)
bytes_equal (a ∷ left) (b ∷ right) difference l r n h =
    let step = bit_xor (u8 a) (u8 b) in
    let bytes = &&-eq-true (ltb a 256) (is_bytes left) l in
    let others = &&-eq-true (ltb b 256) (is_bytes right) r in
    let rest = bytes_equal left right (bit_or difference step) bytes.1 others.1 (omega arith) h in
    let last =
      bit_xor_zero (u8 a) (u8 b)
        (bit_or_zero difference step (bytes_zero left right (bit_or difference step) h)).1 in
    let first : a ≡ b = ground (arith, last, bytes.0, others.0) in rw (first, rest) refl

bytes_same : (text : Text) → fold_bytes 0 text text ≡ 0
unfolding fold_bytes
bytes_same [] = refl
bytes_same (c ∷ text) = rw (bit_xor_same (u8 c)) (bytes_same text)

-- `constantTimeEqualPortable` answers whether two texts of bytes are equal.
pub constant_time_equal_exact :
    (left right : Text)
    → is_bytes left ≡ true
    → is_bytes right ≡ true
    → (constant_time_equal left right ≡ true) ↔ (left ≡ right)
unfolding constant_time_equal fold_bytes fold_lengths
constant_time_equal_exact left right l r = (forward, λ e. rw e same)
  where
    size : ℕ
    size = bit_xor (length left) (length right)

    forward : constant_time_equal left right ≡ true → left ≡ right
    forward h =
        let zero_bytes = ==→eq (fold_bytes (fold_lengths size size 0) left right) 0 h in
        let zero_lengths =
          lengths_zero size size 0 (omega arith)
            (bytes_zero left right (fold_lengths size size 0) zero_bytes) in
        bytes_equal left right (fold_lengths size size 0) l r
          (bit_xor_zero (length left) (length right) zero_lengths.0) zero_bytes

    same : constant_time_equal right right ≡ true
    same = rw (bit_xor_same (length right)) (rw (bytes_same right) refl)
