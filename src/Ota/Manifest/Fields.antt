-- ===== src/Ota/Manifest/Fields.antt =====
-- src/ota/OtaManifestV2.cpp: the tests of single fields.
use power_monitor_sensor.Common.{
  ℕ, suc, ◌+◌, Bool, true, false, not, ◌&&◌, ◌||◌, [], ◌∷◌, ◌++◌, map, leb, ◌==◌, length, all,
  is_empty, if◌then◌else◌,
}
use power_monitor_sensor.Common.Texts.{Text, codes, text_eq}
use power_monitor_sensor.Security.Canonical.{is_between}

abbrev pub is_printable : ℕ → Bool
is_printable byte = is_between 0x20 0x7E byte

-- printableAscii with a maximum, and with none where an empty text is allowed.
unfoldable pub printable_ascii : Text → ℕ → Bool
printable_ascii value maximum =
    leb (length value) maximum && not (is_empty value) && all is_printable value

unfoldable pub printable_any : Text → Bool
printable_any value = all is_printable value

abbrev pub lower_byte : ℕ → ℕ
lower_byte byte = if is_between b'A' b'Z' byte then byte + 32 else byte

abbrev pub lowercase : Text → Text
lowercase value = map lower_byte value

unfoldable pub starts_with : Text → Text → Bool
starts_with [] text = true
starts_with (byte ∷ prefix) [] = false
starts_with (byte ∷ prefix) (other ∷ text) = byte == other && starts_with prefix text

unfoldable pub compatible_hardware : Text → Text → Bool
unfolding text_eq starts_with
compatible_hardware manifest_target local_target =
    let offered = lowercase manifest_target in
    let own = lowercase local_target in
    text_eq offered own
    || (text_eq offered (codes "esp32-s3") && starts_with (codes "esp32-s3") own)

abbrev pub is_lower_hex : ℕ → Bool
is_lower_hex byte = is_between b'0' b'9' byte || is_between b'a' b'f' byte

unfoldable pub lowercase_hex : Text → ℕ → Bool
lowercase_hex value size = length value == size && all is_lower_hex value

abbrev pub is_dash_position : ℕ → Bool
is_dash_position index = index == 8 || index == 13 || index == 18 || index == 23

unfoldable pub uuid_from : ℕ → Text → Bool
uuid_from index [] = true
uuid_from index (byte ∷ value) =
    (if is_dash_position index then byte == b'-' else is_lower_hex byte)
    && uuid_from (suc index) value

unfoldable pub lowercase_uuid : Text → Bool
unfolding uuid_from
lowercase_uuid value = length value == 36 && uuid_from 0 value

abbrev pub is_url_byte : ℕ → Bool
is_url_byte byte =
    is_between b'0' b'9' byte
    || is_between b'A' b'Z' byte
    || is_between b'a' b'z' byte
    || byte == b'-'
    || byte == b'_'

unfoldable pub base64_url_sha256 : Text → Bool
base64_url_sha256 value = length value == 43 && all is_url_byte value

unfoldable pub bounded_download_path : Text → Text → Text → Bool
unfolding printable_ascii text_eq
bounded_download_path path release_id deployment_id =
    let expected =
      codes "/api/v1/device-firmware/"
      ++ release_id
      ++ codes "/download?deployment_id="
      ++ deployment_id in
    printable_ascii path 256 && text_eq path expected
