-- ===== src/Security/Compare.antt =====
-- src/security/Crypto.h: the comparison of texts that takes the same time for all.
pub mod Exact
use Prim.Native.Nat.{bit_or, bit_xor}
use power_monitor_sensor.Common.{
  ℕ, zero, suc, ◌/◌, ◌%◌, Bool, List, [], ◌∷◌, ◌==◌, u8, length, if◌then◌else◌,
}
use power_monitor_sensor.Common.Texts.{Text}

-- The while loop over the bytes of the lengths' difference, which has fewer bytes than its value.
unfoldable pub fold_lengths : ℕ → ℕ → ℕ → ℕ
fold_lengths zero length_difference difference = difference
fold_lengths (suc fuel) length_difference difference =
    let rest =
      fold_lengths fuel (length_difference / 256) (bit_or difference (length_difference % 256)) in
    if length_difference == 0 then difference else rest

-- The loop up to the longer size; a text that has ended counts as zeros.
unfoldable pub fold_bytes : ℕ → Text → Text → ℕ
fold_bytes difference [] [] = difference
fold_bytes difference [] (b ∷ right) = fold_bytes (bit_or difference (bit_xor 0 (u8 b))) [] right
fold_bytes difference (a ∷ left) [] = fold_bytes (bit_or difference (bit_xor (u8 a) 0)) left []
fold_bytes difference (a ∷ left) (b ∷ right) =
    fold_bytes (bit_or difference (bit_xor (u8 a) (u8 b))) left right

unfoldable pub constant_time_equal : Text → Text → Bool
constant_time_equal left right =
    let length_difference = bit_xor (length left) (length right) in
    fold_bytes (fold_lengths length_difference length_difference 0) left right == 0
