-- ===== src/Security/Canonical/Pieces.antt =====
-- src/security/Crypto.h: texts cut at a separator, and put together with one.
use power_monitor_sensor.Common.{
  ℕ, ◌+◌, ◌*◌, ◌≡◌, refl, Bool, true, false, ◌||◌, Option, none, some, List, [], ◌∷◌, ◌++◌, arith,
  ltb, ◌==◌, u8, all, &&-eq-true, Bool-cases, inl, inr,
}
use power_monitor_sensor.Common.Texts.{Text}
use power_monitor_sensor.Security.Canonical.{
  before, behind, push, pieces, contains, prepend, unescaped, percent_nibble,
  percent_decode_query_component,
}
use power_monitor_sensor.Security.Canonical.Percent.{is_bytes}

module _ (separator : ℕ) where
  pub before_joined :
      (left right : Text)
      → contains separator left ≡ false
      → before separator (left ++ (separator ∷ right)) ≡ left
  unfolding before
  before_joined [] right h = ground arith
  before_joined (c ∷ left) right h = ground (arith, before_joined left right)

  pub behind_joined :
      (left right : Text)
      → contains separator left ≡ false
      → behind separator (left ++ (separator ∷ right)) ≡ right
  unfolding behind
  behind_joined [] right h = ground arith
  behind_joined (c ∷ left) right h = ground (arith, behind_joined left right)

  pub before_whole : (text : Text) → contains separator text ≡ false → before separator text ≡ text
  unfolding before
  before_whole [] h = refl
  before_whole (c ∷ text) h = ground (arith, before_whole text)

  pub behind_whole : (text : Text) → contains separator text ≡ false → behind separator text ≡ []
  unfolding behind
  behind_whole [] h = refl
  behind_whole (c ∷ text) h = ground (arith, behind_whole text)

  pub pieces_whole :
      (text : Text) → contains separator text ≡ false → pieces separator text ≡ text ∷ []
  unfolding pieces
  pieces_whole [] h = refl
  pieces_whole (c ∷ text) h = ground (arith, pieces_whole text)

  pub pieces_joined :
      (left right : Text)
      → contains separator left ≡ false
      → pieces separator (left ++ (separator ∷ right)) ≡ left ∷ pieces separator right
  unfolding pieces
  pieces_joined [] right h = ground arith
  pieces_joined (c ∷ left) right h = ground (arith, pieces_joined left right)

  pub contains-before : (text : Text) → contains separator (before separator text) ≡ false
  unfolding before
  contains-before [] = refl
  contains-before (c ∷ text) = ground (arith, contains-before text)

  pub before_lacks :
      (other : ℕ) (text : Text)
      → contains other text ≡ false
      → contains other (before separator text) ≡ false
  unfolding before
  before_lacks other [] h = refl
  before_lacks other (c ∷ text) h = ground (arith, before_lacks other text)

  pub before_bytes : (text : Text) → is_bytes text ≡ true → is_bytes (before separator text) ≡ true
  unfolding before
  before_bytes [] h = refl
  before_bytes (c ∷ text) h = ground (arith, before_bytes text)

  pub behind_bytes : (text : Text) → is_bytes text ≡ true → is_bytes (behind separator text) ≡ true
  unfolding behind
  behind_bytes [] h = refl
  behind_bytes (c ∷ text) h = ground (arith, behind_bytes text)

  push_bytes :
      (c : ℕ) (items : List Text)
      → ltb c 256 ≡ true
      → all is_bytes items ≡ true
      → all is_bytes (push c items) ≡ true
  push_bytes c [] small h = ground arith
  push_bytes c (item ∷ items) small h = ground arith

  pub pieces_bytes :
      (text : Text) → is_bytes text ≡ true → all is_bytes (pieces separator text) ≡ true
  unfolding pieces
  pieces_bytes [] h = refl
  pieces_bytes (c ∷ text) h =
      ground (arith, pieces_bytes text, push_bytes c (pieces separator text))

pub contains-append :
    (c : ℕ) (left right : Text)
    → contains c left ≡ false
    → contains c right ≡ false
    → contains c (left ++ right) ≡ false
contains-append c [] right h k = k
contains-append c (first ∷ left) right h k = ground (arith, contains-append c left right)

-- Bytes, or nothing.
abbrev pub has_bytes : Option Text → Bool
has_bytes none = true
has_bytes (some output) = is_bytes output

prepend_bytes :
    (c : ℕ) (rest : Option Text)
    → ltb c 256 ≡ true
    → has_bytes rest ≡ true
    → has_bytes (prepend c rest) ≡ true
prepend_bytes c none small h = refl
prepend_bytes c (some output) small h = ground (arith, small, h)

unescaped_small : (c : ℕ) → ltb c 256 ≡ true → ltb (unescaped c) 256 ≡ true
unescaped_small c h = ground arith

u8-small : (n : ℕ) → ltb (u8 n) 256 ≡ true
u8-small n = ground arith

-- Decoded bytes are bytes.
pub decode_bytes :
    (input : Text) → is_bytes input ≡ true → has_bytes (percent_decode_query_component input) ≡ true
unfolding percent_decode_query_component
decode_bytes [] h = refl
decode_bytes (c ∷ []) h = ground arith
decode_bytes (c ∷ high ∷ []) h =
    let split = &&-eq-true _ _ h in
    let rest = decode_bytes (high ∷ []) split.1 in
    elim (Bool-cases (c == b'%')) [
      | inl escape ↦ rw escape refl
      | inr plain ↦ rw plain (prepend_bytes (unescaped c) _ (unescaped_small c split.0) rest)
    ]
decode_bytes (c ∷ high ∷ low ∷ input) h =
    let split = &&-eq-true _ _ h in
    let others = &&-eq-true _ _ (&&-eq-true _ _ split.1).1 in
    let rest = decode_bytes (high ∷ low ∷ input) split.1 in
    let after = decode_bytes input others.1 in
    elim (Bool-cases (c == b'%')) [
      | inr plain ↦ rw plain (prepend_bytes (unescaped c) _ (unescaped_small c split.0) rest)
      | inl escape ↦ elim (Bool-cases (percent_nibble high == 0xFF || percent_nibble low == 0xFF)) [
        | inl bad ↦ rw (escape, bad) refl
        | inr good ↦
            rw (escape, good)
              (prepend_bytes (u8 (percent_nibble high * 16 + percent_nibble low))
                (percent_decode_query_component input)
                (u8-small (percent_nibble high * 16 + percent_nibble low)) after)
      ]
    ]
