-- ===== src/Persistence/Records.antt =====
-- src/config/AtomicConfigStore.cpp: the bytes of a slot and of the marker.
pub mod RoundTrip
use Prim.Native.Nat.{bit_xor}
use power_monitor_sensor.Common.{
  ℕ, zero, suc, ◌+◌, ◌-◌, ◌*◌, ◌/◌, ◌%◌, ◌^◌, Bool, true, false, not, ◌&&◌, ◌||◌, Option, none,
  some, List, [], ◌∷◌, ◌++◌, ltb, leb, ◌==◌, u8, u32, length, drop, if◌then◌else◌,
}
use power_monitor_sensor.Common.Bytes.{
  u16_bytes, u32_bytes, u64_bytes, byte_at, u16_at, u32_at, u64_at,
}

-- The mask is all ones or all zeros, by the lowest bit.
abbrev pub crc32_bit : ℕ → ℕ
crc32_bit crc = bit_xor (crc / 2) (if crc % 2 == 1 then 0xEDB88320 else 0)

abbrev pub crc32_byte : ℕ → ℕ → ℕ
crc32_byte crc byte = crc32_bit (
    crc32_bit (
      crc32_bit
        (crc32_bit (crc32_bit (crc32_bit (crc32_bit (crc32_bit (bit_xor crc (u8 byte)))))))))

unfoldable pub crc32_from : ℕ → List ℕ → ℕ
crc32_from crc [] = crc
crc32_from crc (byte ∷ bytes) = crc32_from (crc32_byte crc byte) bytes

-- ~crc on a uint32.
unfoldable pub crc32 : List ℕ → ℕ
unfolding crc32_from
crc32 bytes = 2 ^ 32 - 1 - u32 (crc32_from 0xFFFFFFFF bytes)

abbrev pub record_magic : ℕ
record_magic = 0x504D4346

abbrev pub marker_magic : ℕ
marker_magic = 0x504D4143

abbrev pub format_version : ℕ
format_version = 1

abbrev pub record_header_size : ℕ
record_header_size = 24

abbrev pub marker_size : ℕ
marker_size = 20

abbrev pub maximum_payload_size : ℕ
maximum_payload_size = 24 * 1024

abbrev pub record_crc_material : ℕ → List ℕ → List ℕ
record_crc_material generation payload =
    u64_bytes generation ++ u32_bytes (length payload) ++ payload

unfoldable pub encode_record : ℕ → List ℕ → List ℕ
encode_record generation payload =
    u32_bytes record_magic
    ++ (u16_bytes format_version
        ++ (u16_bytes 0
            ++ (u64_bytes generation
                ++ (u32_bytes (length payload)
                    ++ (u32_bytes (crc32 (record_crc_material generation payload)) ++ payload)))))

-- The generation and the payload of a slot.
unfoldable pub decode_record : List ℕ → Option (ℕ × List ℕ)
decode_record encoded =
    let magic = u32_at encoded 0 in
    let version = u16_at encoded 4 in
    let generation = u64_at encoded 8 in
    let payload_length = u32_at encoded 16 in
    let expected_crc = u32_at encoded 20 in
    let payload = drop record_header_size encoded in
    if ltb (length encoded) record_header_size
    then none
    else (if not (magic == record_magic)
          || not (version == format_version)
          || generation == 0
          || ltb maximum_payload_size payload_length
          || not (length encoded == record_header_size + payload_length)
        then none
        else (if crc32 (record_crc_material generation payload) == expected_crc
            then some (generation, payload)
            else none))

pub data Slot : Type 0 where
  a b : Slot

-- The characters 'a' and 'b'.
abbrev pub slot_code : Slot → ℕ
slot_code a = b'a'
slot_code b = b'b'

abbrev pub slot_of : ℕ → Option Slot
slot_of code = if code == b'a' then some a else (if code == b'b' then some b else none)

abbrev pub marker_crc_material : ℕ → ℕ → List ℕ
marker_crc_material slot generation = slot ∷ u64_bytes generation

unfoldable pub encode_marker : Slot → ℕ → List ℕ
encode_marker slot generation =
    u32_bytes marker_magic
    ++ (u16_bytes format_version
        ++ (slot_code slot ∷ 0 ∷ u64_bytes generation
            ++ u32_bytes (crc32 (marker_crc_material (slot_code slot) generation))))

unfoldable pub decode_marker : List ℕ → Option (Slot × ℕ)
decode_marker encoded =
    let generation = u64_at encoded 8 in
    let code = byte_at encoded 6 in
    if not (length encoded == marker_size)
    then none
    else (if not (u32_at encoded 0 == marker_magic)
          || not (u16_at encoded 4 == format_version)
          || generation == 0
        then none
        else (if crc32 (marker_crc_material code generation) == u32_at encoded 16
            then elim (slot_of code) [ none ↦ none | some slot ↦ some (slot, generation) ]
            else none))
