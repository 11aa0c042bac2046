-- ===== src/Ota/Manifest/Readback.antt =====
-- src/ota/OtaManifestV2.cpp: the values of a canonical text can be read back from it.
use mathlib.Core.List.{append_assoc}
use power_monitor_sensor.Common.{
  ℕ, zero, suc, ◌+◌, ◌-◌, ◌*◌, ◌/◌, ◌%◌, ◌≤◌, ◌≡◌, refl, Bool, true, false, some, List, [], ◌∷◌,
  ◌++◌, leb, ltb, ◌==◌, length, drop, drop-append, if◌then◌else◌, arith, Bool-cases, Option-cases,
  sym, map, inl, inr,
}
use power_monitor_sensor.Common.Texts.{Text}
use power_monitor_sensor.Security.Canonical.{is_between}
use power_monitor_sensor.Ota.Manifest.{
  digits, to_string, escaped, Field, number, text, label, append_field, append_fields,
}
use power_monitor_sensor.Ota.Manifest.Fields.{printable_any}

-- The number at the front of a text, and what is behind it.
unfoldable pub read_number : ℕ → Text → ℕ × Text
read_number value [] = (value, [])
read_number value (byte ∷ rest) =
    let more = read_number (value * 10 + (byte - b'0')) rest in
    if is_between b'0' b'9' byte then more else (value, byte ∷ rest)

-- The escaped text at the front, up to its quotation mark, and what is behind it; the flag is set
-- behind a backslash.
unfoldable read_text : Bool → Text → Text × Text
read_text is_escaped [] = ([], [])
read_text true (byte ∷ rest) = let more = read_text false rest in (byte ∷ more.0, more.1)
read_text false (byte ∷ rest) =
    let behind = read_text true rest in
    let more = read_text false rest in
    if byte == b'"' then ([], rest) else (if byte == b'\\' then behind else (byte ∷ more.0, more.1))

read_digit :
    (value digit next : ℕ) (rest : Text)
    → digit ≤ 9
    → value * 10 + digit ≡ next
    → read_number value ((b'0' + digit) ∷ rest) ≡ read_number next rest
unfolding read_number
read_digit value digit next rest h sum =
    let low : leb b'0' (b'0' + digit) ≡ true = ground arith in
    let high : leb (b'0' + digit) b'9' ≡ true = ground arith in
    let back : (b'0' + digit) - b'0' ≡ digit = omega arith in rw (low, high, back, sum) refl

read_digits :
    (fuel n : ℕ) (rest : Text)
    → n ≤ fuel
    → read_number 0 (digits fuel n ++ rest) ≡ read_number n rest
unfolding digits
read_digits zero n rest h = read_digit 0 (n % 10) n rest (omega arith) (omega arith)
read_digits (suc fuel) n rest h = elim (Bool-cases (ltb n 10)) [
  | inl small ↦ rw small (read_digit 0 n n rest (ground arith) (omega arith))
  | inr large ↦
      rw
        (
          large,
          append_assoc (digits fuel (n / 10)) ((b'0' + n % 10) ∷ []) rest,
          read_digits fuel (n / 10) ((b'0' + n % 10) ∷ rest) (ground arith),
        )
        (read_digit (n / 10) (n % 10) n rest (omega arith) (omega arith))
]

read_escaped : (value rest : Text) → read_text false (escaped value ++ b'"' ∷ rest) ≡ (value, rest)
unfolding read_text escaped
read_escaped [] rest = refl
read_escaped (byte ∷ value) rest =
    let later = read_escaped value rest in
    elim (Bool-cases (byte == b'"')) [
      | inl quote ↦ rw (quote, later) refl
      | inr other ↦ elim (Bool-cases (byte == b'\\')) [
        | inl slash ↦ rw (other, slash, later) refl
        | inr plain ↦ rw (other, plain, other, plain, later) refl
      ]
    ]

-- A field without its value.
abbrev pub shape : Field → Field
shape (number name value) = number name 0
shape (text name value) = text name []

unfoldable read_field : Field → Text → Field × Text
unfolding read_number read_text
read_field (number name _) input =
    let found = read_number 0 (drop (length (label name)) input) in (number name found.0, found.1)
read_field (text name _) input =
    let found = read_text false (drop (suc (length (label name))) input) in
    (text name found.0, found.1)

unfoldable pub read_fields : List Field → Text → List Field
unfolding read_field
read_fields [] input = []
read_fields (field ∷ fields) input =
    let found = read_field field input in found.0 ∷ read_fields fields found.1

-- No number goes on into what follows it.
abbrev pub Stops : Text → Type 0
unfolding read_number
Stops rest = (value : ℕ) → read_number value rest ≡ (value, rest)

comma-Stops : (rest : Text) → Stops (b',' ∷ rest)
unfolding read_number
comma-Stops rest value = refl

brace-Stops : Stops (b'}' ∷ [])
unfolding read_number
brace-Stops value = refl

comma_first : (body output : Text) → some (b',' ∷ body) ≡ some output → Stops output
comma_first body output h = let same : b',' ∷ body ≡ output = cc in rw (sym same) (comma-Stops body)

drop_one_more :
    (front : Text) (byte : ℕ) (rest : Text)
    → drop (suc (length front)) (front ++ byte ∷ rest) ≡ rest
drop_one_more [] byte rest = refl
drop_one_more (first ∷ front) byte rest = drop_one_more front byte rest

-- The field is read back, with what is behind it.
read_back :
    (field : Field) (rest output : Text)
    → Stops rest
    → append_field field (some rest) ≡ some output
    → (read_field (shape field) output ≡ (field, rest)) × Stops output
unfolding append_field read_field
read_back (number name value) rest output stops h =
    let body = label name ++ (to_string value ++ rest) in
    let same : body ≡ output = cc in
    (
      rw
          (
            sym same,
            drop-append (name ++ b'"' ∷ b':' ∷ []) (to_string value ++ rest),
            read_digits value value rest (omega arith),
            stops value,
          )
          refl,
      comma_first (drop 1 body) output h,
    )
read_back (text name value) rest output stops h = elim (Bool-cases (printable_any value)) [
  | inr other ↦ let wrong = (rw other at h) in cc
  | inl plain ↦
      let known = (rw plain at h) in
      let body = label name ++ b'"' ∷ (escaped value ++ b'"' ∷ rest) in
      let same : body ≡ output = cc in
      (
        rw
            (
              sym same,
              drop_one_more (name ++ b'"' ∷ b':' ∷ []) b'"' (escaped value ++ b'"' ∷ rest),
              read_escaped value rest,
            )
            refl,
        rw (sym same) (comma-Stops (drop 1 body)),
      )
]

pub read_fields_back :
    (fields : List Field) (output : Text)
    → append_fields fields ≡ some output
    → (read_fields (map shape fields) output ≡ fields) × Stops output
unfolding append_fields read_fields read_number
read_fields_back [] output h =
    (refl, let same : b'}' ∷ [] ≡ output = cc in rw (sym same) (brace-Stops))
read_fields_back (field ∷ fields) output h = elim (Option-cases (append_fields fields)) [
  | inl nothing ↦ let wrong = (rw nothing at h) in cc
  | inr (rest, known) ↦
      let (rest_back, stops) = read_fields_back fields rest known in
      let (back, more) = read_back field rest output stops (rw known at h) in
      (rw (back, rest_back) refl, more)
]
