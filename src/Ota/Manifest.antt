-- ===== src/Ota/Manifest.antt =====
-- src/ota/OtaManifestV2.h and .cpp: the manifest of an update, the canonical text that its HMAC
-- covers, and the policy that admits it.
pub mod Fields
pub mod Readback
pub mod Signed
pub mod Admission
mod Examples
use Prim.Native.Nat.{Ordering}
use Ordering.{lt, eq, gt}
use power_monitor_sensor.Common.{
  ℕ, zero, suc, ◌+◌, ◌-◌, ◌/◌, ◌%◌, ◌≡◌, Bool, true, false, not, ◌&&◌, ◌||◌, Option, none, some,
  List, [], ◌∷◌, ◌++◌, map, leb, ltb, ◌==◌, length, all, is_empty, get_or, if◌then◌else◌,
}
use power_monitor_sensor.Common.Texts.{Text, codes, text_eq}
use power_monitor_sensor.Common.Int.{ℤ, pos, leb_ℤ}
use power_monitor_sensor.Security.Canonical.{is_between}
use power_monitor_sensor.Ota.Manifest.Fields.{
  is_printable, printable_ascii, printable_any, lower_byte, lowercase, starts_with,
  compatible_hardware, is_lower_hex, lowercase_hex, is_dash_position, uuid_from, lowercase_uuid,
  is_url_byte, base64_url_sha256, bounded_download_path,
}
use power_monitor_sensor.Ota.Calendar.{parse_utc_timestamp}
use power_monitor_sensor.Ota.Version.{valid_semver, compare_semver}

pub record Manifest : Type 0 where
  pub available : Bool
  pub schema_version : Text
  pub protocol_version : Text
  pub deployment_id : Text
  pub release_id : Text
  pub device_id : Text
  pub version : Text
  pub project_name : Text
  pub hardware_target : Text
  pub protocol_min : Text
  pub protocol_max : Text
  pub size_bytes : ℕ
  pub sha256 : Text
  pub build_hash : Text
  pub not_before : Text
  pub expires_at : Text
  pub allow_downgrade : Bool
  pub attempt : ℕ
  pub hmac_algorithm : Text
  pub hmac_key_context : Text
  pub manifest_hmac : Text
  pub download_path : Text

pub record PolicyContext : Type 0 where
  pub device_id : Text
  pub current_version : Text
  pub current_protocol : Text
  pub hardware_target : Text
  pub project_name : Text
  pub now_unix_seconds : ℤ
  pub partition_size_bytes : ℕ

-- std::to_string; the fuel is the number itself, which has fewer digits.
unfoldable pub digits : ℕ → ℕ → Text
digits zero n = (b'0' + n % 10) ∷ []
digits (suc fuel) n =
    let more = digits fuel (n / 10) in
    if ltb n 10 then (b'0' + n) ∷ [] else more ++ (b'0' + n % 10) ∷ []

abbrev pub to_string : ℕ → Text
to_string n = digits n n

unfoldable pub escaped : Text → Text
escaped [] = []
escaped (byte ∷ value) =
    let rest = escaped value in
    if byte == b'"' || byte == b'\\' then b'\\' ∷ byte ∷ rest else byte ∷ rest

-- What is appended to the canonical text behind its first field: `",name":` and a value.
pub data Field : Type 0 where
  number : (name : Text) (value : ℕ) → Field
  text : (name : Text) (value : Text) → Field

abbrev pub label : Text → Text
label name = b',' ∷ b'"' ∷ name ++ b'"' ∷ b':' ∷ []

-- A text that has other bytes than printable ones ends the canonical text with nothing.
unfoldable pub append_field : Field → Option Text → Option Text
unfolding escaped printable_any digits
append_field field none = none
append_field (number name value) (some rest) = some (label name ++ (to_string value ++ rest))
append_field (text name value) (some rest) =
    if printable_any value then some (label name ++ b'"' ∷ (escaped value ++ b'"' ∷ rest)) else none

unfoldable pub append_fields : List Field → Option Text
unfolding append_field
append_fields [] = some (b'}' ∷ [])
append_fields (field ∷ fields) = append_field field (append_fields fields)

abbrev pub fields_of : Manifest → List Field
fields_of m =
    number (codes "attempt") m.attempt
    ∷ text (codes "build_hash") m.build_hash
    ∷ text (codes "deployment_id") m.deployment_id
    ∷ text (codes "device_id") m.device_id
    ∷ text (codes "download_path") m.download_path
    ∷ text (codes "expires_at") m.expires_at
    ∷ text (codes "hardware_target") m.hardware_target
    ∷ text (codes "hmac_algorithm") m.hmac_algorithm
    ∷ text (codes "hmac_key_context") m.hmac_key_context
    ∷ text (codes "not_before") m.not_before
    ∷ text (codes "project_name") m.project_name
    ∷ text (codes "protocol_max") m.protocol_max
    ∷ text (codes "protocol_min") m.protocol_min
    ∷ text (codes "protocol_version") m.protocol_version
    ∷ text (codes "release_id") m.release_id
    ∷ text (codes "schema_version") m.schema_version
    ∷ text (codes "sha256") m.sha256
    ∷ number (codes "size_bytes") m.size_bytes
    ∷ text (codes "version") m.version
    ∷ []

abbrev pub flag_text : Bool → Text
flag_text true = codes "true"
flag_text false = codes "false"

abbrev pub opened : Bool → Option Text → Text
opened allow_downgrade none = []
opened allow_downgrade (some rest) =
    b'{' ∷ codes "\"allow_downgrade\":" ++ (flag_text allow_downgrade ++ rest)

unfoldable pub canonical_manifest : Manifest → Text
unfolding append_fields
canonical_manifest m = opened m.allow_downgrade (append_fields (fields_of m))

abbrev pub earlier : Option ℕ → Option ℕ → Bool
earlier (some not_before) (some expires_at) = ltb not_before expires_at
earlier _ _ = false

-- The tests of parseManifest on the fields that it has read; its error is
-- "ota_manifest_field_invalid".
unfoldable pub valid_labels : Manifest → Bool
unfolding text_eq lowercase_uuid
valid_labels m =
    text_eq m.schema_version (codes "pm-ota-manifest/2")
    && text_eq m.hmac_algorithm (codes "HMAC-SHA256")
    && text_eq m.hmac_key_context (codes "pm-ota-manifest-v2/server-to-device")
    && lowercase_uuid m.deployment_id
    && lowercase_uuid m.release_id
    && lowercase_uuid m.device_id

unfoldable pub valid_values : Manifest → Bool
unfolding printable_ascii lowercase_hex parse_utc_timestamp base64_url_sha256 bounded_download_path
valid_values m =
    printable_ascii m.protocol_version 64
    && printable_ascii m.project_name 64
    && printable_ascii m.hardware_target 64
    && printable_ascii m.protocol_min 64
    && printable_ascii m.protocol_max 64
    && not (m.size_bytes == 0)
    && lowercase_hex m.sha256 64
    && lowercase_hex m.build_hash 64
    && earlier (parse_utc_timestamp m.not_before) (parse_utc_timestamp m.expires_at)
    && not (m.attempt == 0)
    && base64_url_sha256 m.manifest_hmac
    && bounded_download_path m.download_path m.release_id m.deployment_id

unfoldable pub valid_manifest : Manifest → Bool
unfolding valid_labels valid_semver valid_values
valid_manifest m = valid_labels m && (valid_semver m.version && valid_values m)

-- The errors of validatePolicy, named without their prefix "ota_".
pub data PolicyError : Type 0 where
  manifest_device_mismatch manifest_not_yet_valid manifest_expired : PolicyError
  project_incompatible hardware_incompatible protocol_incompatible : PolicyError
  same_version_rejected downgrade_rejected partition_too_small : PolicyError

abbrev pub check_partition : Manifest → PolicyContext → Option PolicyError
check_partition m c =
    if c.partition_size_bytes == 0 || ltb c.partition_size_bytes m.size_bytes
    then some partition_too_small
    else none

abbrev pub check_version : Manifest → PolicyContext → Ordering → Option PolicyError
check_version m c eq = some same_version_rejected
check_version m c lt =
    if not m.allow_downgrade then some downgrade_rejected else check_partition m c
check_version m c gt = check_partition m c

unfoldable pub check_target : Manifest → PolicyContext → Option PolicyError
unfolding text_eq compatible_hardware compare_semver
check_target m c =
    if not (text_eq m.project_name c.project_name)
    then some project_incompatible
    else (if not (compatible_hardware m.hardware_target c.hardware_target)
        then some hardware_incompatible
        else (if not (text_eq m.protocol_version c.current_protocol)
              || not (text_eq m.protocol_min c.current_protocol)
              || not (text_eq m.protocol_max c.current_protocol)
            then some protocol_incompatible
            else check_version m c (compare_semver m.version c.current_version)))

unfoldable pub check_times : Manifest → PolicyContext → Option ℕ → Option ℕ → Option PolicyError
unfolding check_target
check_times m c (some not_before) (some expires_at) =
    if not (leb_ℤ (pos not_before) c.now_unix_seconds)
    then some manifest_not_yet_valid
    else (if leb_ℤ (pos expires_at) c.now_unix_seconds
        then some manifest_expired
        else check_target m c)
check_times m c _ _ = some manifest_not_yet_valid

-- The error, or `none` where the manifest is admitted.
unfoldable pub validate_policy : Manifest → PolicyContext → Option PolicyError
unfolding text_eq parse_utc_timestamp check_times
validate_policy m c =
    if not (text_eq m.device_id c.device_id)
    then some manifest_device_mismatch
    else check_times m c (parse_utc_timestamp m.not_before) (parse_utc_timestamp m.expires_at)
