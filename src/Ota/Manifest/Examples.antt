-- ===== src/Ota/Manifest/Examples.antt =====
-- Versions, days and manifests at concrete values.
use Prim.Native.Nat.{Ordering}
use Ordering.{lt, eq}
use power_monitor_sensor.Common.{◌+◌, ◌≡◌, ◌↔◌, refl, true, false, none, [], ◌∷◌, arith, is_empty}
use power_monitor_sensor.Common.Int.{pos}
use power_monitor_sensor.Common.Texts.{Text, codes, text_eq}
use power_monitor_sensor.Common.Orders.{flip, list_order}
use power_monitor_sensor.Security.Canonical.{before, behind, pieces}
use power_monitor_sensor.Ota.Version.{
  parse_digits, parse_unsigned_component, numeric_identifier, valid_identifier, split_identifiers,
  parse_semver, valid_semver, compare_prerelease, compare_semver,
}
use power_monitor_sensor.Ota.Version.Order.{compare_semver_order}
use power_monitor_sensor.Ota.Calendar.{
  leap_year, days_in_month, days_from_civil, has_shape, valid_fields, parse_utc_timestamp,
}
use power_monitor_sensor.Ota.Calendar.Days.{next_day, number, days_from_civil_counts}
use power_monitor_sensor.Ota.Manifest.{
  Manifest, PolicyContext, digits, escaped, append_field, append_fields, canonical_manifest,
  valid_labels, valid_values, valid_manifest, check_target, check_times, validate_policy,
}
use power_monitor_sensor.Ota.Manifest.Fields.{
  printable_ascii, printable_any, starts_with, compatible_hardware, lowercase_hex, uuid_from,
  lowercase_uuid, base64_url_sha256, bounded_download_path,
}
use power_monitor_sensor.Ota.Manifest.Signed.{unsigned_from, canonical_manifest_fixes}
use power_monitor_sensor.Ota.Manifest.Admission.{
  IsCurrent, IsFor, IsNewer, HasRoom, IsAhead, offered_all, validate_policy_exact,
  offered_all-IsAhead,
}

abbrev candidate : Text
candidate = codes "1.2.3-rc.1"

abbrev release : Text
release = codes "1.2.3"

abbrev later : Text
later = codes "1.10.0+b7"

candidate_valid : valid_semver candidate ≡ true
unfolding valid_semver parse_semver before behind pieces split_identifiers valid_identifier
    numeric_identifier parse_unsigned_component parse_digits
candidate_valid = refl

release_valid : valid_semver release ≡ true
unfolding valid_semver parse_semver before behind pieces split_identifiers valid_identifier
    numeric_identifier parse_unsigned_component parse_digits
release_valid = refl

later_valid : valid_semver later ≡ true
unfolding valid_semver parse_semver before behind pieces split_identifiers valid_identifier
    numeric_identifier parse_unsigned_component parse_digits
later_valid = refl

compare_semver_order_example :
    (compare_semver release candidate ≡ flip (compare_semver candidate release))
    × (compare_semver candidate release ≡ lt
        → compare_semver release later ≡ lt
        → compare_semver candidate later ≡ lt)
    × (compare_semver candidate release ≡ eq
        → compare_semver candidate later ≡ compare_semver release later)
    × ((compare_semver candidate release ≡ eq) ↔ (parse_semver candidate ≡ parse_semver release))
compare_semver_order_example =
    compare_semver_order candidate release later candidate_valid release_valid later_valid

days_from_civil_counts_example :
    (days_from_civil 1970 1 1 ≡ 0)
    × (number (next_day (2024, 2, 29)) ≡ days_from_civil 2024 2 29 + 1)
days_from_civil_counts_example =
    days_from_civil_counts 2024 2 29 (omega arith) (omega arith) (omega arith) (omega arith)

abbrev hex : Text
hex = codes "0123456789abcdef0123456789abcdef0123456789abcdef0123456789abcdef"

abbrev manifest : Manifest
manifest = record {
  available = true;
  schema_version = codes "pm-ota-manifest/2";
  protocol_version = codes "2";
  deployment_id = codes "01234567-89ab-cdef-0123-456789abcdef";
  release_id = codes "11234567-89ab-cdef-0123-456789abcdef";
  device_id = codes "21234567-89ab-cdef-0123-456789abcdef";
  version = later;
  project_name = codes "power-monitor-sensor";
  hardware_target = codes "esp32-s3";
  protocol_min = codes "2";
  protocol_max = codes "2";
  size_bytes = 1500000;
  sha256 = hex;
  build_hash = hex;
  not_before = codes "2026-01-01T00:00:00Z";
  expires_at = codes "2026-02-01T00:00:00Z";
  allow_downgrade = false;
  attempt = 1;
  hmac_algorithm = codes "HMAC-SHA256";
  hmac_key_context = codes "pm-ota-manifest-v2/server-to-device";
  manifest_hmac = codes "0123456789012345678901234567890123456789abc";
  download_path =
      codes
        "/api/v1/device-firmware/11234567-89ab-cdef-0123-456789abcdef/download?deployment_id=01234567-89ab-cdef-0123-456789abcdef";
}

abbrev forged : Manifest
forged = record manifest { manifest_hmac = codes "x" }

abbrev context : PolicyContext
context = record {
  device_id = codes "21234567-89ab-cdef-0123-456789abcdef";
  current_version = release;
  current_protocol = codes "2";
  hardware_target = codes "ESP32-S3-N16R8";
  project_name = codes "power-monitor-sensor";
  now_unix_seconds = pos 1768000000;
  partition_size_bytes = 3000000;
}

manifest_filled : is_empty (canonical_manifest manifest) ≡ false
unfolding canonical_manifest append_fields append_field escaped printable_any digits
manifest_filled = refl

same_text : canonical_manifest manifest ≡ canonical_manifest forged
unfolding canonical_manifest
same_text = refl

canonical_manifest_fixes_example : unsigned_from manifest forged ≡ forged
canonical_manifest_fixes_example =
    canonical_manifest_fixes manifest forged manifest_filled same_text

validate_policy_exact_example : (validate_policy manifest context ≡ none) ↔ (
    (manifest.device_id ≡ context.device_id)
    × IsCurrent manifest context
        (parse_utc_timestamp manifest.not_before)
        (parse_utc_timestamp manifest.expires_at)
    × (IsFor manifest context
        × IsNewer manifest (compare_semver manifest.version context.current_version)
        × HasRoom manifest context))
validate_policy_exact_example = validate_policy_exact manifest context

offered_all-IsAhead_example :
    (valid_semver (offered_all release ((manifest, context) ∷ [])) ≡ true)
    × IsAhead release (offered_all release ((manifest, context) ∷ []))
offered_all-IsAhead_example =
    offered_all-IsAhead ((manifest, context) ∷ []) release release_valid (refl, tt)

is_admitted : validate_policy manifest context ≡ none
unfolding validate_policy check_times check_target text_eq parse_utc_timestamp has_shape
    valid_fields days_from_civil days_in_month leap_year compatible_hardware starts_with
    compare_semver parse_semver before behind pieces split_identifiers valid_identifier
    numeric_identifier parse_unsigned_component parse_digits compare_prerelease list_order
is_admitted = refl

manifest_valid : valid_manifest manifest ≡ true
unfolding valid_manifest valid_labels valid_values text_eq lowercase_uuid uuid_from valid_semver
    printable_ascii lowercase_hex parse_utc_timestamp has_shape valid_fields days_from_civil
    days_in_month leap_year base64_url_sha256 bounded_download_path parse_semver before behind
    pieces split_identifiers valid_identifier numeric_identifier parse_unsigned_component
    parse_digits
manifest_valid = refl
