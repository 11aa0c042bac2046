-- ===== src/Security/Canonical/Percent.antt =====
-- src/security/Crypto.h: percent escapes are decoded to what was encoded, and hide the separators.
use power_monitor_sensor.Common.{
  ℕ, ◌/◌, ◌%◌, ◌<◌, ◌≡◌, refl, Bool, true, false, ◌||◌, some, [], ◌∷◌, arith, ltb, ◌==◌, all,
  &&-eq-true, Bool-cases, ltb→lt, inl, inr,
}
use power_monitor_sensor.Common.Texts.{Text}
use power_monitor_sensor.Security.Canonical.{
  ascii_unreserved, upper_digit, percent_encode, percent_nibble, prepend,
  percent_decode_query_component, contains,
}

abbrev pub is_bytes : Text → Bool
is_bytes = all (λ (c : ℕ). ltb c 256)

plain-decode :
    (c : ℕ) (input : Text)
    → ascii_unreserved c ≡ true
    → percent_decode_query_component (c ∷ input) ≡ prepend c (percent_decode_query_component input)
unfolding percent_decode_query_component ascii_unreserved
plain-decode c [] h = ground arith
plain-decode c (high ∷ []) h = ground arith
plain-decode c (high ∷ low ∷ input) h = ground arith

nibble-digit : (n : ℕ) → n < 16 → percent_nibble (upper_digit n) ≡ n
nibble-digit n h = ground arith

escaped-decode :
    (c : ℕ) (input : Text)
    → c < 256
    → percent_decode_query_component (b'%' ∷ upper_digit (c / 16) ∷ upper_digit (c % 16) ∷ input)
      ≡ prepend c (percent_decode_query_component input)
unfolding percent_decode_query_component
escaped-decode c input h =
    rw (nibble-digit (c / 16) (omega arith), nibble-digit (c % 16) (omega arith)) (ground arith)

-- What is percent-encoded decodes to itself, for every text of bytes.
pub decode-percent_encode :
    (input : Text)
    → is_bytes input ≡ true
    → percent_decode_query_component (percent_encode input) ≡ some input
unfolding percent_encode percent_decode_query_component
decode-percent_encode [] h = refl
decode-percent_encode (c ∷ input) h =
    let first = &&-eq-true _ _ h in
    let rest = decode-percent_encode input first.1 in
    elim (Bool-cases (ascii_unreserved c)) [
      | inl plain ↦ rw (plain, plain-decode c (percent_encode input) plain, rest) refl
      | inr escaped ↦
          rw (escaped, escaped-decode c (percent_encode input) (ltb→lt c 256 first.0), rest) refl
    ]

-- None of the separators is in an encoded text.
abbrev pub is_separator : ℕ → Bool
is_separator c = c == b'&' || c == b'=' || c == b'#' || c == b'?'

digit-lt : (n : ℕ) → n < 16 → is_separator (upper_digit n) ≡ false
digit-lt n h = ground arith

unreserved_plain : (c : ℕ) → ascii_unreserved c ≡ true → is_separator c ≡ false
unfolding ascii_unreserved
unreserved_plain c h = ground arith

pub encoded_plain :
    (separator : ℕ) (input : Text)
    → is_separator separator ≡ true
    → is_bytes input ≡ true
    → contains separator (percent_encode input) ≡ false
unfolding percent_encode
encoded_plain separator [] s h = refl
encoded_plain separator (c ∷ input) s h =
    let first = &&-eq-true _ _ h in
    let rest = encoded_plain separator input s first.1 in
    let small = ltb→lt c 256 first.0 in
    elim (Bool-cases (ascii_unreserved c)) [
      | inl plain ↦ rw (plain, rest) (ground (arith, unreserved_plain c))
      | inr escaped ↦
          rw (escaped, rest)
            (ground (arith, digit-lt (c / 16) (omega arith), digit-lt (c % 16) (omega arith)))
    ]
