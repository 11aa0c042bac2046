-- ===== src/Provisioning/Journal/RoundTrip.antt =====
-- src/config/ProvisioningTransaction.cpp: a journal that is encoded is decoded to itself.
use mathlib.Core.List.{append_assoc}
use power_monitor_sensor.Common.{
  ℕ, ◌+◌, ◌-◌, ◌^◌, ◌≤◌, ◌<◌, ◌≡◌, refl, ap, ◌∙◌, true, some, List, ◌++◌, arith, length, take, drop,
  length-append, take-append, drop-append, drop-drop, get_or-drop, get_or-first, length-drop,
}
use power_monitor_sensor.Common.Bytes.{
  u32_bytes, u16_at, u32_at, u64_at, u16_at-bytes, u32_at-bytes, u64_at-bytes,
}
use power_monitor_sensor.Persistence.Records.{crc32}
use power_monitor_sensor.Persistence.Records.RoundTrip.{crc32-lt}
use power_monitor_sensor.Provisioning.Journal.{
  Journal, maximum_token_length, maximum_credential_part_length, field_bytes, journal_body,
  is_encodable, encode, take_field, has_header, has_checksum, salt_field, decode,
}

u16_at-drop : (input : List ℕ) (i : ℕ) → u16_at input i ≡ u16_at (drop i input) 0
u16_at-drop input i = rw (get_or-first input i 0, get_or-drop input i 1 0) refl

u32_at-drop : (input : List ℕ) (i : ℕ) → u32_at input i ≡ u32_at (drop i input) 0
u32_at-drop input i =
    rw
      (
        get_or-first input i 0,
        get_or-drop input i 1 0,
        get_or-drop input i 2 0,
        get_or-drop input i 3 0,
      )
      refl

-- A field that stands at the cursor is taken, and the cursor is behind it then.
field_taken :
    (input field rest : List ℕ) (cursor maximum : ℕ)
    → drop cursor input ≡ field_bytes field ++ rest
    → 4 ≤ length rest
    → length field ≤ maximum
    → maximum < 2 ^ 16
    → take_field input cursor maximum ≡ some (field, cursor + 2 + length field)
unfolding take_field
field_taken input field rest cursor maximum at enough short small =
    let size : u16_at input cursor ≡ length field =
      u16_at-drop input cursor
      ∙ (ap (λ (xs : List ℕ). u16_at xs 0) at ∙ u16_at-bytes (length field) (omega arith)) in
    let content : take (length field) (drop (cursor + 2) input) ≡ field =
      rw (drop-drop input cursor 2, at) (take-append field rest) in
    let total : length (drop cursor input) ≡ 2 + (length field + length rest) =
      rw at (omega (arith, length-append field rest)) in
    rw (size, content) (ground (arith, length-drop input cursor))

field_behind :
    (input field rest : List ℕ) (cursor : ℕ)
    → drop cursor input ≡ field_bytes field ++ rest
    → drop (cursor + 2 + length field) input ≡ rest
field_behind input field rest cursor at =
    rw (drop-drop input (cursor + 2) (length field), drop-drop input cursor 2, at)
      (drop-append field rest)

-- What stands at the first field's cursor of a body with four bytes behind it.
fields_at :
    (journal : Journal) (sum : List ℕ)
    → drop 16 (journal_body journal ++ sum)
      ≡ field_bytes journal.enrollment_token
        ++ (field_bytes journal.admin_salt ++ (field_bytes journal.admin_hash ++ sum))
unfolding journal_body
fields_at journal sum =
    let token = field_bytes journal.enrollment_token in
    let salt = field_bytes journal.admin_salt in
    let hash = field_bytes journal.admin_hash in
    append_assoc token (salt ++ hash) sum ∙ ap (◌++◌ token) (append_assoc salt hash sum)

length-body :
    (journal : Journal)
    → length (journal_body journal)
      ≡ 22 + length journal.enrollment_token + length journal.admin_salt + length journal.admin_hash
unfolding journal_body
length-body journal = omega (
  arith,
  length-append (field_bytes journal.enrollment_token)
      (field_bytes journal.admin_salt ++ field_bytes journal.admin_hash),
  length-append (field_bytes journal.admin_salt) (field_bytes journal.admin_hash),
)

body_header :
    (journal : Journal) (sum : List ℕ)
    → 0 < journal.previous_config_generation
    → journal.previous_config_generation < 2 ^ 64
    → (u64_at (journal_body journal ++ sum) 8 ≡ journal.previous_config_generation)
      × (has_header (journal_body journal ++ sum) ≡ true)
unfolding journal_body has_header
body_header journal sum positive small =
    let generation = u64_at-bytes journal.previous_config_generation small in
    (generation, rw generation (ground arith))

body_checksum :
    (journal : Journal)
    → has_checksum (journal_body journal ++ u32_bytes (crc32 (journal_body journal))) ≡ true
unfolding has_checksum
body_checksum journal =
    let body = journal_body journal in
    let sum = u32_bytes (crc32 body) in
    let size : length (body ++ sum) - 4 ≡ length body = omega (arith, length-append body sum) in
    let end : u32_at (body ++ sum) (length body) ≡ crc32 body =
      u32_at-drop (body ++ sum) (length body)
      ∙ (ap (λ (xs : List ℕ). u32_at xs 0) (drop-append body sum)
          ∙ u32_at-bytes (crc32 body) (crc32-lt body)) in
    rw (size, end, take-append body sum) (ground arith)

-- The fields of a body with four bytes behind it.
body_fields :
    (journal : Journal) (sum : List ℕ)
    → length sum ≡ 4
    → is_encodable journal ≡ true
    → salt_field
        (journal_body journal ++ sum)
        journal.previous_config_generation
        (take_field (journal_body journal ++ sum) 16 maximum_token_length)
      ≡ some journal
body_fields journal sum four good =
    let encoded = journal_body journal ++ sum in
    let token = journal.enrollment_token in
    let salt = journal.admin_salt in
    let hash = journal.admin_hash in
    let behind_salt = field_bytes hash ++ sum in
    let behind_token = field_bytes salt ++ behind_salt in
    let at_token = fields_at journal sum in
    let at_salt = field_behind encoded token behind_token 16 at_token in
    let at_hash = field_behind encoded salt behind_salt (16 + 2 + length token) at_salt in
    let size = length-append (journal_body journal) sum in
    let salt_size = length-append (field_bytes salt) behind_salt in
    let hash_size = length-append (field_bytes hash) sum in
    rw
      (
        field_taken encoded token behind_token 16 maximum_token_length at_token (omega arith)
            (ground arith) (omega arith),
        field_taken encoded salt behind_salt (16 + 2 + length token) maximum_credential_part_length
            at_salt (omega arith) (ground arith) (omega arith),
        field_taken encoded hash sum (16 + 2 + length token + 2 + length salt)
            maximum_credential_part_length at_hash (omega arith) (ground arith) (omega arith),
      )
      (ground (arith, length-body journal))

-- A journal that `encode` accepts, with a uint64 generation, is decoded to itself.
pub decode-encode :
    (journal : Journal)
    → is_encodable journal ≡ true
    → journal.previous_config_generation < 2 ^ 64
    → decode (encode journal) ≡ some journal
unfolding encode decode
decode-encode journal good small =
    let body = journal_body journal in
    let sum = u32_bytes (crc32 body) in
    let positive : 0 < journal.previous_config_generation = ground arith in
    let header = body_header journal sum positive small in
    rw (good, header.0, header.1, body_checksum journal, body_fields journal sum refl good)
      (ground (arith, length-append body sum, length-body journal))
