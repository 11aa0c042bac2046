-- ===== src/Ota/Stream.antt =====
-- src/ota/OtaUpdatePolicy.cpp, StreamTracker: the bytes of a firmware image as they arrive.
pub mod Runs
use power_monitor_sensor.Common.{
  ℕ, ◌+◌, ◌-◌, ◌%◌, ◌^◌, Bool, true, false, not, ◌&&◌, ◌||◌, List, [], ◌∷◌, ltb, ◌==◌, u32,
  if◌then◌else◌,
}
use power_monitor_sensor.Common.Texts.{Text, codes}

pub data StreamFailure : Type 0 where
  none_yet timeout connection_reset truncated extra_bytes sha256_mismatch : StreamFailure
  partition_write_failure : StreamFailure

unfoldable pub stream_failure_code : StreamFailure → Text
stream_failure_code none_yet = codes ""
stream_failure_code timeout = codes "ota_image_stream_timeout"
stream_failure_code connection_reset = codes "ota_image_connection_reset"
stream_failure_code truncated = codes "ota_image_truncated"
stream_failure_code extra_bytes = codes "ota_image_extra_bytes"
stream_failure_code sha256_mismatch = codes "ota_image_sha256_mismatch"
stream_failure_code partition_write_failure = codes "ota_partition_write_failed"

-- failure_ == StreamFailure::None
abbrev pub intact : StreamFailure → Bool
intact none_yet = true
intact _ = false

pub record StreamTracker : Type 0 where
  pub expected_size : ℕ
  pub received : ℕ
  pub failure : StreamFailure

abbrev pub new_tracker : ℕ → StreamTracker
new_tracker expected_size = record {
  expected_size = expected_size;
  received = 0;
  failure = none_yet;
}

-- The first failure stays.
unfoldable pub fail : StreamTracker → StreamFailure → StreamTracker
fail t failure = if intact t.failure then record t { failure = failure } else t

unfoldable pub accept : StreamTracker → ℕ → Bool → StreamTracker × Bool
unfolding fail
accept t bytes partition_write_succeeded =
    if not (intact t.failure)
    then (t, false)
    else (if not partition_write_succeeded
        then (fail t partition_write_failure, false)
        else (if ltb (2 ^ 32 - 1 - t.received) bytes
              || ltb t.expected_size (u32 (t.received + u32 bytes))
            then (fail t extra_bytes, false)
            else (record t { received = u32 (t.received + u32 bytes) }, true)))

-- The verdict of `finish` before its last test.
unfoldable pub judged : StreamTracker → Bool → Bool → StreamTracker
unfolding fail
judged t sha256_matches extra =
    if extra
    then fail t extra_bytes
    else (if not (t.received == t.expected_size)
        then fail t truncated
        else (if not sha256_matches then fail t sha256_mismatch else t))

unfoldable pub finish : StreamTracker → Bool → Bool → StreamTracker × Bool
unfolding judged
finish t sha256_matches extra =
    if not (intact t.failure)
    then (t, false)
    else (let ended = judged t sha256_matches extra in (ended, intact ended.failure))

-- The calls that a download makes before `finish`.
pub data Event : Type 0 where
  chunk : ℕ → Bool → Event
  timed_out connection_lost : Event

unfoldable pub on_event : StreamTracker → Event → StreamTracker
unfolding accept fail
on_event t (chunk bytes written) = (accept t bytes written).0
on_event t timed_out = fail t timeout
on_event t connection_lost = fail t connection_reset

unfoldable pub feed : StreamTracker → List Event → StreamTracker
feed t [] = t
feed t (e ∷ es) = feed (on_event t e) es
