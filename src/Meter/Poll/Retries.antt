-- ===== src/Meter/Poll/Retries.antt =====
-- src/meter/PzemMeter.cpp: a poll ends, and counts itself once.
use power_monitor_sensor.Common.{
  ℕ, zero, suc, ◌+◌, ◌<◌, ◌≡◌, refl, Bool, true, false, not, ◌||◌, some, u32, arith, leb, u8, u64,
  if◌then◌else◌, Bool-cases, inl, inr,
}
use power_monitor_sensor.Meter.Protocol.{
  MeterError, no_error, timeout, short_frame, wrong_address, wrong_function, exception_response,
  invalid_byte_count, crc_mismatch, implausible_value, uart_failure, Registers,
}
use power_monitor_sensor.Meter.Poll.{
  Exchange, is_none, Attempted, transact, attempts, MeterMetrics, counted, poll, unpolled,
}

-- The first transaction without an error among the next `count`, or else the last of them.
unfoldable pub first_success : ℕ → (ℕ → Exchange) → Attempted → Attempted
first_success zero exchanges last = last
first_success (suc count) exchanges last =
    let next = transact (exchanges 0) last in
    let rest = first_success count (λ (i : ℕ). exchanges (suc i)) next in
    if is_none next.error then next else rest

attempts-first_success :
    (count fuel retries attempt : ℕ) (exchanges : ℕ → Exchange) (last : Attempted)
    → retries < 255
    → attempt + count ≡ retries + 1
    → count < fuel
    → attempts fuel retries attempt exchanges last ≡ some (first_success count exchanges last)
unfolding attempts first_success
attempts-first_success count zero retries attempt exchanges last small left enough =
    absurd (omega arith)
attempts-first_success zero (suc fuel) retries attempt exchanges last small left enough =
    ground arith
attempts-first_success (suc count) (suc fuel) retries attempt exchanges last small left enough =
    let next = transact (exchanges 0) last in
    let going : leb attempt retries ≡ true = ground arith in
    let counter : u8 (attempt + 1) + count ≡ retries + 1 = omega arith in
    let rest =
      attempts-first_success count fuel retries (u8 (attempt + 1)) (λ (i : ℕ). exchanges (suc i))
        next small counter (omega arith) in
    elim (Bool-cases (is_none next.error)) [
      | inl good ↦ rw (going, good) refl
      | inr bad ↦ rw (going, bad) rest
    ]

abbrev is_timeout : MeterError → Bool
is_timeout timeout = true
is_timeout _ = false

abbrev is_crc_mismatch : MeterError → Bool
is_crc_mismatch crc_mismatch = true
is_crc_mismatch _ = false

-- A counter of 64 bits, one more where the test holds.
abbrev pub one_more_if : Bool → ℕ → ℕ
one_more_if true n = u64 (n + 1)
one_more_if false n = n

-- What a poll with this result makes of the counters: it is one request, and a success, a timeout, a
-- checksum error or an invalid frame; a success ends the consecutive errors.
pub record IsCounted (attempted : Attempted) (before after : MeterMetrics) : Type 0 where
  pub requested : after.requests ≡ u64 (before.requests + 1)
  pub succeeded : after.successes ≡ one_more_if (is_none attempted.error) before.successes
  pub timed_out : after.timeouts ≡ one_more_if (is_timeout attempted.error) before.timeouts
  pub mismatched :
      after.crc_errors ≡ one_more_if (is_crc_mismatch attempted.error) before.crc_errors
  pub invalid :
      after.invalid_frames
      ≡ one_more_if
          (not (
            is_none attempted.error
            || is_timeout attempted.error
            || is_crc_mismatch attempted.error))
          before.invalid_frames
  pub in_a_row :
      after.consecutive_errors
      ≡ (if is_none attempted.error then 0 else u32 (before.consecutive_errors + 1))
  pub latency : after.last_latency_ms ≡ attempted.latency_ms
  pub error_kept : after.last_error ≡ attempted.error

error-IsCounted :
    (error : MeterError) (latency_ms : ℕ) (registers : Registers) (m : MeterMetrics)
    → let attempted : Attempted = record {
      error = error;
      latency_ms = latency_ms;
      registers = registers;
    } in
      IsCounted attempted m (counted attempted m)
unfolding counted
error-IsCounted no_error latency_ms registers m = record {
  requested = refl;
  succeeded = refl;
  timed_out = refl;
  mismatched = refl;
  invalid = refl;
  in_a_row = refl;
  latency = refl;
  error_kept = refl;
}
error-IsCounted timeout latency_ms registers m = record {
  requested = refl;
  succeeded = refl;
  timed_out = refl;
  mismatched = refl;
  invalid = refl;
  in_a_row = refl;
  latency = refl;
  error_kept = refl;
}
error-IsCounted short_frame latency_ms registers m = record {
  requested = refl;
  succeeded = refl;
  timed_out = refl;
  mismatched = refl;
  invalid = refl;
  in_a_row = refl;
  latency = refl;
  error_kept = refl;
}
error-IsCounted wrong_address latency_ms registers m = record {
  requested = refl;
  succeeded = refl;
  timed_out = refl;
  mismatched = refl;
  invalid = refl;
  in_a_row = refl;
  latency = refl;
  error_kept = refl;
}
error-IsCounted wrong_function latency_ms registers m = record {
  requested = refl;
  succeeded = refl;
  timed_out = refl;
  mismatched = refl;
  invalid = refl;
  in_a_row = refl;
  latency = refl;
  error_kept = refl;
}
error-IsCounted exception_response latency_ms registers m = record {
  requested = refl;
  succeeded = refl;
  timed_out = refl;
  mismatched = refl;
  invalid = refl;
  in_a_row = refl;
  latency = refl;
  error_kept = refl;
}
error-IsCounted invalid_byte_count latency_ms registers m = record {
  requested = refl;
  succeeded = refl;
  timed_out = refl;
  mismatched = refl;
  invalid = refl;
  in_a_row = refl;
  latency = refl;
  error_kept = refl;
}
error-IsCounted crc_mismatch latency_ms registers m = record {
  requested = refl;
  succeeded = refl;
  timed_out = refl;
  mismatched = refl;
  invalid = refl;
  in_a_row = refl;
  latency = refl;
  error_kept = refl;
}
error-IsCounted implausible_value latency_ms registers m = record {
  requested = refl;
  succeeded = refl;
  timed_out = refl;
  mismatched = refl;
  invalid = refl;
  in_a_row = refl;
  latency = refl;
  error_kept = refl;
}
error-IsCounted uart_failure latency_ms registers m = record {
  requested = refl;
  succeeded = refl;
  timed_out = refl;
  mismatched = refl;
  invalid = refl;
  in_a_row = refl;
  latency = refl;
  error_kept = refl;
}

-- A poll ends: with fewer than 255 retries, the loop makes at most one attempt more than there are
-- retries, the sample is that of the first attempt without an error, or else of the last one, and
-- that sample is counted: one request, one success or one failure of its kind, and the errors in a
-- row.
pub poll_ends :
    (retries fuel : ℕ) (exchanges : ℕ → Exchange) (m : MeterMetrics)
    → retries < 255
    → retries + 1 < fuel
    → (poll fuel retries exchanges m
        ≡ some (
          first_success (retries + 1) exchanges unpolled,
          counted (first_success (retries + 1) exchanges unpolled) m,
        ))
      × IsCounted
          (first_success (retries + 1) exchanges unpolled)
          m
          (counted (first_success (retries + 1) exchanges unpolled) m)
unfolding poll
poll_ends retries fuel exchanges m small enough =
    let result = first_success (retries + 1) exchanges unpolled in
    (
      rw
          (
            poll,
            attempts-first_success (retries + 1) fuel retries 0 exchanges unpolled small
                (omega arith) enough,
          )
          refl,
      error-IsCounted result.error result.latency_ms result.registers m,
    )

-- Each poll is counted once, as a success or as one kind of failure; the counters wrap at 64 bits.
abbrev pub IsBalanced : MeterMetrics → Type 0
IsBalanced m = u64 (m.successes + m.timeouts + m.crc_errors + m.invalid_frames) ≡ u64 m.requests

balanced :
    (error : MeterError) (latency_ms : ℕ) (registers : Registers) (m : MeterMetrics)
    → IsBalanced m
    → IsBalanced
        (counted (record { error = error; latency_ms = latency_ms; registers = registers }) m)
unfolding counted
balanced no_error latency_ms registers m h = omega arith
balanced timeout latency_ms registers m h = omega arith
balanced short_frame latency_ms registers m h = omega arith
balanced wrong_address latency_ms registers m h = omega arith
balanced wrong_function latency_ms registers m h = omega arith
balanced exception_response latency_ms registers m h = omega arith
balanced invalid_byte_count latency_ms registers m h = omega arith
balanced crc_mismatch latency_ms registers m h = omega arith
balanced implausible_value latency_ms registers m h = omega arith
balanced uart_failure latency_ms registers m h = omega arith

-- Counting a poll keeps the counters balanced: the requests are the successes, the timeouts, the
-- checksum errors and the invalid frames together, modulo 2 ^ 64.
pub counted-IsBalanced :
    (attempted : Attempted) (m : MeterMetrics) → IsBalanced m → IsBalanced (counted attempted m)
counted-IsBalanced attempted m h =
    balanced attempted.error attempted.latency_ms attempted.registers m h
