-- ===== src/Provisioning/Journal.antt =====
-- include/config/ProvisioningTransaction.h and src/config/ProvisioningTransaction.cpp: the journal's
-- bytes, and what is done with it after a restart.
pub mod RoundTrip
use power_monitor_sensor.Common.{
  ℕ, ◌+◌, ◌-◌, ◌^◌, Bool, true, false, not, ◌&&◌, ◌||◌, Option, none, some, List, [], ◌∷◌, ◌++◌,
  ltb, ◌==◌, length, take, drop, if◌then◌else◌,
}
use power_monitor_sensor.Common.Bytes.{u16_bytes, u32_bytes, u64_bytes, u16_at, u32_at, u64_at}
use power_monitor_sensor.Persistence.Records.{crc32}

pub record Journal : Type 0 where
  pub previous_config_generation : ℕ
  pub enrollment_token : List ℕ
  pub admin_salt : List ℕ
  pub admin_hash : List ℕ

pub data RecoveryAction : Type 0 where
  restore_credentials rollback_config_and_restore_credentials conflict : RecoveryAction

abbrev pub journal_magic : ℕ
journal_magic = 0x54504D50

abbrev pub journal_version : ℕ
journal_version = 1

abbrev pub header_size : ℕ
header_size = 20

abbrev pub maximum_token_length : ℕ
maximum_token_length = 256

abbrev pub maximum_credential_part_length : ℕ
maximum_credential_part_length = 64

-- appendField
abbrev pub field_bytes : List ℕ → List ℕ
field_bytes value = u16_bytes (length value) ++ value

-- What is written before the checksum.
unfoldable pub journal_body : Journal → List ℕ
journal_body journal =
    u32_bytes journal_magic
    ++ (u16_bytes journal_version
        ++ (u16_bytes 0
            ++ (u64_bytes journal.previous_config_generation
                ++ (field_bytes journal.enrollment_token
                    ++ (field_bytes journal.admin_salt ++ field_bytes journal.admin_hash)))))

abbrev pub is_encodable : Journal → Bool
is_encodable journal = not (
    journal.previous_config_generation == 0
    || ltb maximum_token_length (length journal.enrollment_token)
    || ltb maximum_credential_part_length (length journal.admin_salt)
    || ltb maximum_credential_part_length (length journal.admin_hash))

unfoldable pub encode : Journal → List ℕ
encode journal =
    if not (is_encodable journal)
    then []
    else journal_body journal ++ u32_bytes (crc32 (journal_body journal))

-- The field at the cursor, and the cursor behind it; an input has at least the header's size here.
unfoldable pub take_field : List ℕ → ℕ → ℕ → Option (List ℕ × ℕ)
take_field input cursor maximum =
    let size = u16_at input cursor in
    if ltb (length input) (cursor + 2)
      || ltb maximum size
      || ltb (length input - 4) (cursor + 2 + size)
    then none
    else some (take size (drop (cursor + 2) input), cursor + 2 + size)

abbrev pub end_fields : List ℕ → ℕ → List ℕ → List ℕ → Option (List ℕ × ℕ) → Option Journal
end_fields encoded generation token salt none = none
end_fields encoded generation token salt (some (hash, cursor)) =
    if not (cursor == length encoded - 4)
    then none
    else some (record {
      previous_config_generation = generation;
      enrollment_token = token;
      admin_salt = salt;
      admin_hash = hash;
    })

abbrev pub hash_field : List ℕ → ℕ → List ℕ → Option (List ℕ × ℕ) → Option Journal
hash_field encoded generation token none = none
hash_field encoded generation token (some (salt, cursor)) =
    end_fields encoded generation token salt
      (take_field encoded cursor maximum_credential_part_length)

abbrev pub salt_field : List ℕ → ℕ → Option (List ℕ × ℕ) → Option Journal
salt_field encoded generation none = none
salt_field encoded generation (some (token, cursor)) =
    hash_field encoded generation token (take_field encoded cursor maximum_credential_part_length)

unfoldable pub has_header : List ℕ → Bool
has_header encoded =
    u32_at encoded 0 == journal_magic
    && u16_at encoded 4 == journal_version
    && not (u64_at encoded 8 == 0)

unfoldable pub has_checksum : List ℕ → Bool
has_checksum encoded =
    crc32 (take (length encoded - 4) encoded) == u32_at encoded (length encoded - 4)

-- `none` where the code returns false; the journal is scrubbed then.
unfoldable pub decode : List ℕ → Option Journal
decode encoded =
    if ltb (length encoded) header_size
    then none
    else (if not (has_header encoded && has_checksum encoded)
        then none
        else salt_field encoded (u64_at encoded 8) (take_field encoded 16 maximum_token_length))

unfoldable pub recovery_action : ℕ → ℕ → RecoveryAction
recovery_action previous_config_generation active_config_generation =
    if previous_config_generation == 0 || ltb active_config_generation previous_config_generation
    then conflict
    else (if active_config_generation == previous_config_generation
        then restore_credentials
        else rollback_config_and_restore_credentials)
