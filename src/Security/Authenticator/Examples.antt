-- ===== src/Security/Authenticator/Examples.antt =====
-- The theorems of the authenticator at a signed request, with toy functions for the cryptography.
use power_monitor_sensor.Common.{ℕ, ◌≤◌, ◌≡◌, refl, true, some, List, [], ◌∷◌, arith, length}
use power_monitor_sensor.Common.Int.{ℤ, pos}
use power_monitor_sensor.Common.Texts.{Text, codes, text_eq}
use power_monitor_sensor.Security.ReplayWindow.{
  Entry, aged, visit, is_available, store, remember, new_window,
}
use power_monitor_sensor.Security.Compare.{fold_lengths, fold_bytes, constant_time_equal}
use power_monitor_sensor.Security.Canonical.{before}
use power_monitor_sensor.Security.Authenticator.{
  ok, nonce_replayed, hex_encode, skip_spaces, digits_value, parse_timestamp,
  timestamp_within_window, signature_window_seconds, SignedRequest, expected_signature, check,
  verify, verify_all,
}
use power_monitor_sensor.Security.Authenticator.Soundness.{IsWithin, verify_sound}
use power_monitor_sensor.Security.Authenticator.Once.{verify_once}

-- The digest is the first byte, and the signature that of the key.
abbrev first_byte : Text → Text
first_byte [] = []
first_byte (c ∷ text) = c ∷ []

abbrev by_key : Text → Text → Text
by_key key text = key

abbrev signed : ℕ → SignedRequest
signed seconds = record {
  method = codes "POST";
  path = codes "/api/v1/config";
  query = [];
  body = 0x1F ∷ 2 ∷ [];
  protocol = codes "pm-protocol/1.0.0";
  device_id = codes "pm-1";
  timestamp = codes "1000";
  nonce = codes "00000000000000000000000000000abc";
  content_sha256 = codes "1f";
  signature = codes "a5";
  now_seconds = pos seconds;
  time_synchronized = true;
}

abbrev expected : Text
expected = codes "pm-1"

abbrev window : List Entry
window = new_window 2

is_accepted : (verify first_byte by_key expected (0xA5 ∷ []) window (signed 1010)).1 ≡ ok
unfolding verify check text_eq constant_time_equal fold_lengths fold_bytes hex_encode
    parse_timestamp before skip_spaces digits_value timestamp_within_window remember visit aged
    is_available store new_window
is_accepted = refl

passes_later : check first_byte by_key expected (0xA5 ∷ []) (signed 1200) ≡ ok
unfolding check text_eq constant_time_equal fold_lengths fold_bytes hex_encode parse_timestamp
    before skip_spaces digits_value timestamp_within_window
passes_later = refl

verify_once_example :
    (verify first_byte by_key expected
      (0xA5 ∷ [])
      (verify_all first_byte by_key expected
        (0xA5 ∷ [])
        (verify first_byte by_key expected (0xA5 ∷ []) window (signed 1010)).0
        (signed 1100 ∷ []))
      (signed 1200)).1
    ≡ nonce_replayed
verify_once_example =
    verify_once first_byte by_key expected (0xA5 ∷ []) window (signed 1010) (signed 1200)
      (signed 1100 ∷ []) is_accepted refl (omega arith, tt) (omega arith) passes_later

verify_sound_example :
    ((signed 1010).device_id ≡ expected)
    × ((timestamp : ℤ) × (parse_timestamp (signed 1010).timestamp ≡ some timestamp)
        × IsWithin signature_window_seconds timestamp (signed 1010).now_seconds)
    × (32 ≤ length (signed 1010).nonce)
    × (hex_encode (first_byte (signed 1010).body) ≡ (signed 1010).content_sha256)
    × (expected_signature first_byte by_key expected (0xA5 ∷ []) (signed 1010)
        ≡ (signed 1010).signature)
verify_sound_example =
    verify_sound first_byte by_key expected (0xA5 ∷ []) window (signed 1010) refl refl refl refl
      (omega arith, omega arith) is_accepted
