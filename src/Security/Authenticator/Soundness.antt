-- ===== src/Security/Authenticator/Soundness.antt =====
-- src/security/AuthService.cpp: what is known of a request that is accepted.
use power_monitor_sensor.Common.{
  ℕ, ◌^◌, ◌≤◌, ◌<◌, ◌≡◌, refl, ◌≢◌, Bool, true, false, not, Option, none, some, List, [], ◌∷◌,
  arith, length, if◌then◌else◌, &&-eq-true, Bool-cases, inl, inr,
}
use power_monitor_sensor.Common.Int.{ℤ, pos, negsuc, pos_part, neg_part, distance}
use power_monitor_sensor.Common.Texts.{Text, codes, text_eq}
use power_monitor_sensor.Security.ReplayWindow.{Entry}
use power_monitor_sensor.Security.Canonical.Percent.{is_bytes}
use power_monitor_sensor.Security.Compare.{constant_time_equal}
use power_monitor_sensor.Security.Compare.Exact.{constant_time_equal_exact}
use power_monitor_sensor.Security.Authenticator.{
  AuthResult, ok, missing_header, protocol_mismatch, device_mismatch, timestamp_invalid,
  timestamp_outside_window, nonce_invalid, nonce_replayed, nonce_capacity_exceeded,
  body_hash_mismatch, signature_mismatch, hex_encode, parse_timestamp, timestamp_within_window,
  signature_window_seconds, SignedRequest, is_complete, is_timely, is_number, is_nonce,
  expected_signature, check, is_ok, verify,
}

-- The two times are at most `window` apart.
abbrev pub IsWithin : ℕ → ℤ → ℤ → Type 0
IsWithin window x y = (distance x y ≤ window) × (distance y x ≤ window)

hex_encode_bytes : (bytes : Text) → is_bytes (hex_encode bytes) ≡ true
unfolding hex_encode
hex_encode_bytes [] = refl
hex_encode_bytes (byte ∷ bytes) = ground (arith, hex_encode_bytes bytes)

only_ok : (result : AuthResult) → is_ok result ≡ true → result ≡ ok
only_ok ok h = refl
only_ok missing_header h = cc
only_ok protocol_mismatch h = cc
only_ok device_mismatch h = cc
only_ok timestamp_invalid h = cc
only_ok timestamp_outside_window h = cc
only_ok nonce_invalid h = cc
only_ok nonce_replayed h = cc
only_ok nonce_capacity_exceeded h = cc
only_ok body_hash_mismatch h = cc
only_ok signature_mismatch h = cc

nonce-le : (nonce : Text) → is_nonce nonce ≡ true → 32 ≤ length nonce
nonce-le nonce h = ground arith

passed :
    (test : Bool) (failure rest : AuthResult)
    → failure ≢ ok
    → (if not test then failure else rest) ≡ ok
    → (test ≡ true) × (rest ≡ ok)
passed true failure rest n h = (refl, h)
passed false failure rest n h = absurd (n h)

abbrev pub IsInt64 : ℤ → Type 0
IsInt64 x = (pos_part x < 2 ^ 63) × (neg_part x ≤ 2 ^ 63)

window_near :
    (timestamp now : ℤ) (window : ℕ)
    → window < 2 ^ 32
    → IsInt64 now
    → timestamp_within_window timestamp now window ≡ true
    → IsWithin window timestamp now
unfolding timestamp_within_window
window_near (pos x) (pos n) window w b h = ground arith
window_near (pos x) (negsuc n) window w b h = ground arith
window_near (negsuc x) (pos n) window w b h = ground arith
window_near (negsuc x) (negsuc n) window w b h = ground arith

timely-IsWithin :
    (r : SignedRequest) (time : Option ℤ)
    → IsInt64 r.now_seconds
    → is_timely r time ≡ true
    → (timestamp : ℤ) × (time ≡ some timestamp)
      × IsWithin signature_window_seconds timestamp r.now_seconds
timely-IsWithin r none b h = cc
timely-IsWithin r (some timestamp) b h =
    let inside =
      (&&-eq-true r.time_synchronized
        (timestamp_within_window timestamp r.now_seconds signature_window_seconds) h).1 in
    (
      timestamp,
      refl,
      window_near timestamp r.now_seconds signature_window_seconds (omega arith) b inside,
    )

module _ (sha256 : Text → Text) (hmac : Text → Text → Text) (expected_device_id key : Text) where
  pub check_ok :
      (r : SignedRequest)
      → check sha256 hmac expected_device_id key r ≡ ok
      → (constant_time_equal r.device_id expected_device_id ≡ true)
        × (is_timely r (parse_timestamp r.timestamp) ≡ true)
        × (is_nonce r.nonce ≡ true)
        × (constant_time_equal (hex_encode (sha256 r.body)) r.content_sha256 ≡ true)
        × (constant_time_equal (expected_signature sha256 hmac expected_device_id key r) r.signature
            ≡ true)
  unfolding check
  check_ok r h =
      let complete = passed (is_complete r) missing_header _ (λ e. cc) h in
      let protocol =
        passed (text_eq r.protocol (codes "pm-protocol/1.0.0")) protocol_mismatch _ (λ e. cc)
          complete.1 in
      let device =
        passed (constant_time_equal r.device_id expected_device_id) device_mismatch _ (λ e. cc)
          protocol.1 in
      let number =
        passed (is_number (parse_timestamp r.timestamp)) timestamp_invalid _ (λ e. cc) device.1 in
      let timely =
        passed (is_timely r (parse_timestamp r.timestamp)) timestamp_outside_window _ (λ e. cc)
          number.1 in
      let nonce = passed (is_nonce r.nonce) nonce_invalid _ (λ e. cc) timely.1 in
      let body =
        passed (constant_time_equal (hex_encode (sha256 r.body)) r.content_sha256)
          body_hash_mismatch _ (λ e. cc) nonce.1 in
      let last =
        passed
          (constant_time_equal (expected_signature sha256 hmac expected_device_id key r)
            r.signature)
          signature_mismatch ok (λ e. cc) body.1 in
      (device.0, timely.0, nonce.0, body.0, last.0)

  pub accepted_check :
      (entries : List Entry) (r : SignedRequest)
      → (verify sha256 hmac expected_device_id key entries r).1 ≡ ok
      → check sha256 hmac expected_device_id key r ≡ ok
  unfolding verify
  accepted_check entries r h =
      elim (Bool-cases (is_ok (check sha256 hmac expected_device_id key r))) [
        | inl passes ↦ only_ok (check sha256 hmac expected_device_id key r) passes
        | inr fails ↦ rw (verify, fails) at h
      ]

  -- A request that `verify` accepts is the server's: where the texts and the device id are bytes and
  -- the clock is an int64, its device id is the expected one, its timestamp parses to a time at most
  -- 300 seconds from the clock, its nonce has at least 32 characters, its body hash is that of the
  -- body, and its signature is the key's over its canonical form.
  pub verify_sound :
      (entries : List Entry) (r : SignedRequest)
      → is_bytes r.device_id ≡ true
      → is_bytes expected_device_id ≡ true
      → is_bytes r.content_sha256 ≡ true
      → is_bytes r.signature ≡ true
      → IsInt64 r.now_seconds
      → (verify sha256 hmac expected_device_id key entries r).1 ≡ ok
      → (r.device_id ≡ expected_device_id)
        × ((timestamp : ℤ) × (parse_timestamp r.timestamp ≡ some timestamp)
            × IsWithin signature_window_seconds timestamp r.now_seconds)
        × (32 ≤ length r.nonce)
        × (hex_encode (sha256 r.body) ≡ r.content_sha256)
        × (expected_signature sha256 hmac expected_device_id key r ≡ r.signature)
  verify_sound entries r device expected content signature clock h =
      let facts = check_ok r (accepted_check entries r h) in
      (
        (constant_time_equal_exact r.device_id expected_device_id device expected).0 facts.0,
        timely-IsWithin r (parse_timestamp r.timestamp) clock facts.1,
        nonce-le r.nonce facts.2,
        (constant_time_equal_exact (hex_encode (sha256 r.body)) r.content_sha256
              (hex_encode_bytes (sha256 r.body)) content).0
            facts.3,
        (constant_time_equal_exact (expected_signature sha256 hmac expected_device_id key r)
              r.signature (hex_encode_bytes _) signature).0
            facts.4,
      )
