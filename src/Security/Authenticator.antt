-- ===== src/Security/Authenticator.antt =====
-- src/security/AuthService.h and .cpp and include/security/AuthPolicy.h: requests signed by the
-- server. `sha256` and `hmac` are those of mbedtls.
pub mod Soundness
pub mod Once
mod Examples
use power_monitor_sensor.Common.{
  ℕ, zero, suc, ◌+◌, ◌-◌, ◌*◌, ◌/◌, ◌%◌, ◌^◌, Bool, true, false, not, ◌&&◌, ◌||◌, Option, none,
  some, List, [], ◌∷◌, leb, ltb, ◌==◌, length, is_empty, all, if◌then◌else◌,
}
use power_monitor_sensor.Common.Int.{ℤ, pos, negsuc, pos_part, neg_part, leb_ℤ}
use power_monitor_sensor.Common.Texts.{Text, codes, text_eq}
use power_monitor_sensor.Security.ReplayWindow.{
  ReplayRememberResult, accepted, replayed, capacity_exceeded, Entry, Request, remember,
}
use power_monitor_sensor.Security.Canonical.{
  before, canonical_path_query, canonical_request, is_between,
}
use power_monitor_sensor.Security.Compare.{constant_time_equal}

pub data AuthResult : Type 0 where
  ok missing_header protocol_mismatch device_mismatch timestamp_invalid timestamp_outside_window
        nonce_invalid nonce_replayed nonce_capacity_exceeded body_hash_mismatch signature_mismatch :
      AuthResult

abbrev pub auth_result_code : AuthResult → Text
auth_result_code ok = codes "ok"
auth_result_code missing_header = codes "signature_headers_missing"
auth_result_code protocol_mismatch = codes "protocol_mismatch"
auth_result_code device_mismatch = codes "device_mismatch"
auth_result_code timestamp_invalid = codes "timestamp_invalid"
auth_result_code timestamp_outside_window = codes "timestamp_outside_window"
auth_result_code nonce_invalid = codes "nonce_invalid"
auth_result_code nonce_replayed = codes "nonce_replayed"
auth_result_code nonce_capacity_exceeded = codes "nonce_window_capacity_exceeded"
auth_result_code body_hash_mismatch = codes "body_hash_mismatch"
auth_result_code signature_mismatch = codes "signature_invalid"

abbrev pub lower_digit : ℕ → ℕ
lower_digit n = if ltb n 10 then b'0' + n else b'a' + n - 10

unfoldable pub hex_encode : Text → Text
hex_encode [] = []
hex_encode (byte ∷ data_bytes) =
    lower_digit (byte % 256 / 16) ∷ lower_digit (byte % 16) ∷ hex_encode data_bytes

-- std::isspace in the "C" locale, which std::strtoll skips.
abbrev pub is_space : ℕ → Bool
is_space c = c == b' ' || is_between 9 13 c

unfoldable pub skip_spaces : Text → Text
skip_spaces [] = []
skip_spaces (c ∷ text) = let rest = skip_spaces text in if is_space c then rest else c ∷ text

-- Nothing where there is no digit, or another character behind the digits.
unfoldable pub digits_value : ℕ → Text → Option ℕ
digits_value value [] = some value
digits_value value (c ∷ text) =
    let rest = digits_value (value * 10 + (c - b'0')) text in
    if is_between b'0' b'9' c then rest else none

abbrev decimal : Text → Option ℕ
decimal [] = none
decimal (c ∷ text) = digits_value 0 (c ∷ text)

-- ERANGE outside of int64.
abbrev positive_timestamp : Option ℕ → Option ℤ
positive_timestamp none = none
positive_timestamp (some value) = if ltb value (2 ^ 63) then some (pos value) else none

abbrev negative_timestamp : Option ℕ → Option ℤ
negative_timestamp none = none
negative_timestamp (some zero) = some (pos 0)
negative_timestamp (some (suc value)) = if ltb value (2 ^ 63) then some (negsuc value) else none

abbrev signed_timestamp : Text → Option ℤ
signed_timestamp [] = none
signed_timestamp (c ∷ text) =
    if c == b'-'
    then negative_timestamp (decimal text)
    else (if c == b'+'
        then positive_timestamp (decimal text)
        else positive_timestamp (decimal (c ∷ text)))

-- c_str() ends at the first NUL.
unfoldable pub parse_timestamp : Text → Option ℤ
parse_timestamp value =
    if is_empty value then none else signed_timestamp (skip_spaces (before 0 value))

-- a - b
abbrev minus : ℕ → ℕ → ℤ
minus a b = if leb b a then pos (a - b) else negsuc (b - a - 1)

abbrev int64_min : ℤ
int64_min = negsuc (2 ^ 63 - 1)

abbrev int64_max : ℤ
int64_max = pos (2 ^ 63 - 1)

abbrev lower_end : ℤ → ℕ → ℤ
lower_end now window =
    if not (leb_ℤ (minus window (2 ^ 63)) now)
    then int64_min
    else minus (pos_part now) (neg_part now + window)

abbrev upper_end : ℤ → ℕ → ℤ
upper_end now window =
    if not (leb_ℤ now (minus (2 ^ 63 - 1) window))
    then int64_max
    else minus (pos_part now + window) (neg_part now)

unfoldable pub timestamp_within_window : ℤ → ℤ → ℕ → Bool
timestamp_within_window timestamp now window_seconds =
    leb_ℤ (lower_end now window_seconds) timestamp && leb_ℤ timestamp (upper_end now window_seconds)

abbrev pub signature_window_seconds : ℕ
signature_window_seconds = 300

pub record SignedRequest : Type 0 where
  pub method : Text
  pub path : Text
  pub query : List (Text × Text)
  pub body : Text
  pub protocol : Text
  pub device_id : Text
  pub timestamp : Text
  pub nonce : Text
  pub content_sha256 : Text
  pub signature : Text
  pub now_seconds : ℤ
  pub time_synchronized : Bool

abbrev pub is_complete : SignedRequest → Bool
is_complete r = not (
    is_empty r.protocol
    || is_empty r.device_id
    || is_empty r.timestamp
    || is_empty r.nonce
    || is_empty r.content_sha256
    || is_empty r.signature)

abbrev pub is_timely : SignedRequest → Option ℤ → Bool
is_timely r none = false
is_timely r (some timestamp) =
    r.time_synchronized && timestamp_within_window timestamp r.now_seconds signature_window_seconds

abbrev pub is_number : Option ℤ → Bool
is_number none = false
is_number (some timestamp) = true

abbrev pub is_nonce : Text → Bool
is_nonce nonce =
    leb 32 (length nonce) && all (λ (c : ℕ). is_between b'0' b'9' c || is_between b'a' b'f' c) nonce

abbrev pub is_ok : AuthResult → Bool
is_ok ok = true
is_ok missing_header = false
is_ok protocol_mismatch = false
is_ok device_mismatch = false
is_ok timestamp_invalid = false
is_ok timestamp_outside_window = false
is_ok nonce_invalid = false
is_ok nonce_replayed = false
is_ok nonce_capacity_exceeded = false
is_ok body_hash_mismatch = false
is_ok signature_mismatch = false

abbrev pub replay_result : ReplayRememberResult → AuthResult
replay_result accepted = ok
replay_result replayed = nonce_replayed
replay_result capacity_exceeded = nonce_capacity_exceeded

module _ (sha256 : Text → Text) (hmac : Text → Text → Text) (expected_device_id key : Text) where
  abbrev pub expected_signature : SignedRequest → Text
  expected_signature r = hex_encode (
      hmac key (
        canonical_request r.method (canonical_path_query r.path r.query) r.timestamp r.nonce
          r.content_sha256))

  -- The tests before the nonce cache, in order; `ok` where all pass.
  unfoldable pub check : SignedRequest → AuthResult
  check r =
      if not (is_complete r)
      then missing_header
      else (if not (text_eq r.protocol (codes "pm-protocol/1.0.0"))
          then protocol_mismatch
          else (if not (constant_time_equal r.device_id expected_device_id)
              then device_mismatch
              else (if not (is_number (parse_timestamp r.timestamp))
                  then timestamp_invalid
                  else (if not (is_timely r (parse_timestamp r.timestamp))
                      then timestamp_outside_window
                      else (if not (is_nonce r.nonce)
                          then nonce_invalid
                          else (if not
                                (constant_time_equal (hex_encode (sha256 r.body)) r.content_sha256)
                              then body_hash_mismatch
                              else (if not (constant_time_equal (expected_signature r) r.signature)
                                  then signature_mismatch
                                  else ok)))))))

  -- NonceCache::checkAndRemember
  abbrev pub cache_request : SignedRequest → Request
  cache_request r = record {
    digest = sha256 r.nonce;
    accepted_at = r.now_seconds;
    window_seconds = signature_window_seconds;
  }

  unfoldable pub verify : List Entry → SignedRequest → List Entry × AuthResult
  verify entries r =
      let (remembered, replay) = remember entries (cache_request r) in
      if is_ok (check r) then (remembered, replay_result replay) else (entries, check r)

  unfoldable pub verify_all : List Entry → List SignedRequest → List Entry
  verify_all entries [] = entries
  verify_all entries (r ∷ rs) = verify_all (verify entries r).0 rs
