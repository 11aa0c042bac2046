-- ===== src/Reset/Format.antt =====
-- src/reset/DataResetPolicy.cpp: the text formats that a reset request and its record must have.
use power_monitor_sensor.Common.{
  ℕ, suc, Bool, true, false, not, ◌&&◌, ◌||◌, [], ◌∷◌, leb, ltb, ◌==◌, length, all, get_or, drop,
  is_empty, if◌then◌else◌,
}
use power_monitor_sensor.Common.Texts.{Text}

abbrev pub is_digit : ℕ → Bool
is_digit byte = leb b'0' byte && leb byte b'9'

abbrev pub is_printable : ℕ → Bool
is_printable byte = leb 0x20 byte && leb byte 0x7E

-- The third argument is `allow_empty`.
unfoldable pub bounded_printable : Text → ℕ → Bool → Bool
bounded_printable value maximum allow_empty =
    leb (length value) maximum && (allow_empty || not (is_empty value)) && all is_printable value

abbrev pub lowercase_alphanumeric : ℕ → Bool
lowercase_alphanumeric byte = (leb b'a' byte && leb byte b'z') || is_digit byte

abbrev pub code_byte : ℕ → Bool
code_byte byte = lowercase_alphanumeric byte || byte == b'_'

unfoldable pub safe_failure_code : Text → Bool
safe_failure_code value =
    if is_empty value
    then true
    else (if ltb 80 (length value)
        then false
        else lowercase_alphanumeric (get_or value 0 0) && all code_byte (drop 1 value))

abbrev pub hex_byte : ℕ → Bool
hex_byte byte = is_digit byte || (leb b'a' byte && leb byte b'f')

unfoldable pub lowercase_hex : Text → ℕ → Bool
lowercase_hex value size = length value == size && all hex_byte value

abbrev pub is_separator : ℕ → Bool
is_separator index = index == 8 || index == 13 || index == 18 || index == 23

-- The loop over the bytes from `index`.
abbrev pub uuid_from : ℕ → Text → Bool
uuid_from index [] = true
uuid_from index (byte ∷ rest) =
    (if is_separator index then byte == b'-' else hex_byte byte) && uuid_from (suc index) rest

unfoldable pub lowercase_uuid : Text → Bool
lowercase_uuid value = if not (length value == 36) then false else uuid_from 0 value

abbrev pub last_or : Text → ℕ → ℕ
last_or [] d = d
last_or (x ∷ xs) d = last_or xs x

unfoldable pub valid_reset_timestamp : Text → Bool
unfolding bounded_printable
valid_reset_timestamp value =
    leb 20 (length value)
    && leb (length value) 40
    && get_or value 4 0 == b'-'
    && get_or value 7 0 == b'-'
    && get_or value 10 0 == b'T'
    && last_or value 0 == b'Z'
    && bounded_printable value 40 false
