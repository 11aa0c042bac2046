-- ===== src/Persistence/Records/RoundTrip.antt =====
-- src/config/AtomicConfigStore.cpp: what is read back of a slot and a marker that were written.
use power_monitor_sensor.Common.{ℕ, ◌^◌, ◌≤◌, ◌<◌, ◌≡◌, some, List, arith, length}
use power_monitor_sensor.Common.Bytes.{u32_at-bytes, u64_at-bytes}
use power_monitor_sensor.Persistence.Records.{
  crc32, maximum_payload_size, record_crc_material, encode_record, decode_record, Slot, a, b,
  slot_code, marker_crc_material, encode_marker, decode_marker,
}

pub crc32-lt : (bytes : List ℕ) → crc32 bytes < 2 ^ 32
unfolding crc32
crc32-lt bytes = omega arith

-- The bytes of a slot are decoded to the generation and the payload that were encoded, for a
-- generation of 64 bits that is not zero and a payload of at most 24 KiB.
pub decode-encode_record :
    (generation : ℕ) (payload : List ℕ)
    → 0 < generation
    → generation < 2 ^ 64
    → length payload ≤ maximum_payload_size
    → decode_record (encode_record generation payload) ≡ some (generation, payload)
unfolding encode_record decode_record
decode-encode_record generation payload positive small short =
    rw
      (
        u64_at-bytes generation small,
        u32_at-bytes (length payload) (omega arith),
        u32_at-bytes (crc32 (record_crc_material generation payload)) (crc32-lt _),
      )
      (ground arith)

-- The bytes of the marker are decoded to the slot and the generation that were encoded.
pub decode-encode_marker :
    (slot : Slot) (generation : ℕ)
    → 0 < generation
    → generation < 2 ^ 64
    → decode_marker (encode_marker slot generation) ≡ some (slot, generation)
unfolding encode_marker decode_marker
decode-encode_marker a generation positive small =
    rw
      (
        u64_at-bytes generation small,
        u32_at-bytes (crc32 (marker_crc_material (slot_code a) generation)) (crc32-lt _),
      )
      (ground arith)
decode-encode_marker b generation positive small =
    rw
      (
        u64_at-bytes generation small,
        u32_at-bytes (crc32 (marker_crc_material (slot_code b) generation)) (crc32-lt _),
      )
      (ground arith)
