-- ===== src/Ota/Version.antt =====
-- src/ota/OtaManifestV2.cpp: semantic versions, parsed and compared.
pub mod Order
use Prim.Native.Nat.{compare, Ordering}
use Ordering.{lt, eq, gt}
use power_monitor_sensor.Common.{
  ℕ, ◌+◌, ◌-◌, ◌*◌, ◌≡◌, Bool, true, false, not, ◌&&◌, ◌||◌, Option, none, some, List, [], ◌∷◌, leb,
  ltb, ◌==◌, length, all, is_empty, if◌then◌else◌,
}
use power_monitor_sensor.Common.Texts.{Text, text_eq}
use power_monitor_sensor.Common.Orders.{chain, text_order}
use power_monitor_sensor.Security.Canonical.{before, behind, pieces, contains, is_between}

abbrev pub is_digit : ℕ → Bool
is_digit byte = is_between b'0' b'9' byte

-- `parsed` stays below 2^64: it is at most 2^32 - 1 before each step.
unfoldable pub parse_digits : ℕ → Text → Option ℕ
parse_digits parsed [] = some parsed
parse_digits parsed (byte ∷ component) =
    let next = parsed * 10 + (byte - b'0') in
    let rest = parse_digits next component in if ltb 0xFFFFFFFF next then none else rest

abbrev pub starts_with_zero : Text → Bool
starts_with_zero [] = false
starts_with_zero (byte ∷ text) = byte == b'0'

unfoldable pub parse_unsigned_component : Text → Option ℕ
parse_unsigned_component component =
    if is_empty component
      || ltb 10 (length component)
      || (ltb 1 (length component) && starts_with_zero component)
      || not (all is_digit component)
    then none
    else parse_digits 0 component

pub record Semver : Type 0 where
  pub core : ℕ × ℕ × ℕ
  pub prerelease : List Text

abbrev pub is_identifier_byte : ℕ → Bool
is_identifier_byte byte =
    is_between b'0' b'9' byte
    || is_between b'A' b'Z' byte
    || is_between b'a' b'z' byte
    || byte == b'-'

unfoldable pub numeric_identifier : Text → Bool
numeric_identifier value = all is_digit value

unfoldable pub valid_identifier : Bool → Text → Bool
unfolding numeric_identifier
valid_identifier prerelease identifier =
    if is_empty identifier || not (all is_identifier_byte identifier)
    then false
    else not prerelease
      || not (numeric_identifier identifier)
      || length identifier == 1
      || not (starts_with_zero identifier)

-- The identifiers, or nothing where one of them is invalid.
unfoldable pub split_identifiers : Text → Bool → Option (List Text)
unfolding pieces valid_identifier
split_identifiers value prerelease =
    let identifiers = pieces b'.' value in
    if all (valid_identifier prerelease) identifiers then some identifiers else none

abbrev pub core_of : Option ℕ → Option ℕ → Option ℕ → Option (ℕ × ℕ × ℕ)
core_of (some major) (some minor) (some patch) = some (major, minor, patch)
core_of _ _ _ = none

-- Three components, between two dots and no third.
abbrev pub parse_core : List Text → Option (ℕ × ℕ × ℕ)
parse_core (major ∷ minor ∷ patch ∷ []) =
    core_of (parse_unsigned_component major) (parse_unsigned_component minor)
      (parse_unsigned_component patch)
parse_core _ = none

abbrev pub semver_of : Option (List Text) → Option (ℕ × ℕ × ℕ) → Option Semver
semver_of (some prerelease) (some core) = some record { core = core; prerelease = prerelease }
semver_of _ _ = none

abbrev pub precedence_of : Text → Option Semver
precedence_of precedence =
    semver_of
      (if contains b'-' precedence
        then split_identifiers (behind b'-' precedence) true
        else some [])
      (parse_core (pieces b'.' (before b'-' precedence)))

abbrev pub is_some_list : Option (List Text) → Bool
is_some_list none = false
is_some_list (some _) = true

unfoldable pub parse_semver : Text → Option Semver
unfolding before behind split_identifiers parse_unsigned_component
parse_semver value =
    let plus = contains b'+' value in
    if is_empty value || ltb 80 (length value)
    then none
    else (if plus && contains b'+' (behind b'+' value)
        then none
        else (if plus && not (is_some_list (split_identifiers (behind b'+' value) false))
            then none
            else precedence_of (before b'+' value)))

abbrev pub is_some_semver : Option Semver → Bool
is_some_semver none = false
is_some_semver (some _) = true

unfoldable pub valid_semver : Text → Bool
unfolding parse_semver
valid_semver value = is_some_semver (parse_semver value)

unfoldable pub compare_numeric_identifier : Text → Text → Ordering
compare_numeric_identifier left right =
    if not (length left == length right)
    then (if ltb (length left) (length right) then lt else gt)
    else text_order left right

-- Two identifiers that differ: left_numeric, right_numeric, left, right.
unfoldable pub compare_kinds : Bool → Bool → Text → Text → Ordering
unfolding compare_numeric_identifier
compare_kinds true true left right = compare_numeric_identifier left right
compare_kinds true false left right = lt
compare_kinds false true left right = gt
compare_kinds false false left right = elim (text_order left right) [ lt ↦ lt | _ ↦ gt ]

-- The loop over the shared identifiers, and the sizes behind it.
unfoldable pub compare_prerelease : List Text → List Text → Ordering
unfolding text_eq numeric_identifier compare_kinds
compare_prerelease [] [] = eq
compare_prerelease [] (right ∷ rights) = lt
compare_prerelease (left ∷ lefts) [] = gt
compare_prerelease (left ∷ lefts) (right ∷ rights) =
    let rest = compare_prerelease lefts rights in
    if text_eq left right
    then rest
    else compare_kinds (numeric_identifier left) (numeric_identifier right) left right

abbrev pub compare_core : ℕ × ℕ × ℕ → ℕ × ℕ × ℕ → Ordering
compare_core (major, minor, patch) (its_major, its_minor, its_patch) =
    chain (compare major its_major) (chain (compare minor its_minor) (compare patch its_patch))

-- A version without prerelease is behind those with one.
abbrev pub compare_tail : List Text → List Text → Ordering
compare_tail [] [] = eq
compare_tail [] (right ∷ rights) = gt
compare_tail (left ∷ lefts) [] = lt
compare_tail (left ∷ lefts) (right ∷ rights) = compare_prerelease (left ∷ lefts) (right ∷ rights)

abbrev pub compare_parsed : Semver → Semver → Ordering
compare_parsed left right =
    chain (compare_core left.core right.core) (compare_tail left.prerelease right.prerelease)

abbrev pub compare_options : Text → Text → Option Semver → Option Semver → Ordering
compare_options left right (some left_semver) (some right_semver) =
    compare_parsed left_semver right_semver
compare_options left right _ _ = text_order left right

-- The sign of the result: the callers test nothing else.
unfoldable pub compare_semver : Text → Text → Ordering
unfolding parse_semver
compare_semver left right = compare_options left right (parse_semver left) (parse_semver right)
