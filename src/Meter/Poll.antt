-- ===== src/Meter/Poll.antt =====
-- src/meter/PzemMeter.h and .cpp: polls with their retries and counters. What the UART does in each
-- transaction is an argument.
pub mod Retries
use power_monitor_sensor.Common.{
  ℕ, zero, suc, ◌+◌, Bool, true, false, not, Option, none, some, List, [], ◌∷◌, leb, ltb, u8, u32,
  u64, is_empty, if◌then◌else◌,
}
use power_monitor_sensor.Meter.Protocol.{
  MeterError, no_error, timeout, short_frame, wrong_address, wrong_function, exception_response,
  invalid_byte_count, crc_mismatch, implausible_value, uart_failure, default_address, Registers,
  no_registers, parse_measurement_response,
}

-- One transaction on the UART: whether the request was written, the bytes that came within the
-- timeout, at most 25, and the time it took.
pub record Exchange : Type 0 where
  pub is_written : Bool
  pub response : List ℕ
  pub latency_ms : ℕ

abbrev pub is_none : MeterError → Bool
is_none no_error = true
is_none timeout = false
is_none short_frame = false
is_none wrong_address = false
is_none wrong_function = false
is_none exception_response = false
is_none invalid_byte_count = false
is_none crc_mismatch = false
is_none implausible_value = false
is_none uart_failure = false

-- The error, the latency and the registers, of the sample as it was left by the attempts before.
pub record Attempted : Type 0 where
  pub error : MeterError
  pub latency_ms : ℕ
  pub registers : Registers

unfoldable pub transact : Exchange → Attempted → Attempted
transact x last =
    let (error, registers) = parse_measurement_response x.response default_address last.registers in
    if not x.is_written
    then record last { error = uart_failure }
    else (if is_empty x.response
        then record last { error = timeout; latency_ms = x.latency_ms }
        else record { error = error; latency_ms = x.latency_ms; registers = registers })

-- The loop, whose counter is a uint8; `exchanges` are those from this attempt on, without end.
unfoldable pub attempts : ℕ → ℕ → ℕ → (ℕ → Exchange) → Attempted → Option Attempted
attempts zero retries attempt exchanges last = none
attempts (suc fuel) retries attempt exchanges last =
    let next = transact (exchanges 0) last in
    let rest = attempts fuel retries (u8 (attempt + 1)) (λ (i : ℕ). exchanges (suc i)) next in
    if not (leb attempt retries)
    then some last
    else (if is_none next.error then some next else rest)

pub record MeterMetrics : Type 0 where
  pub requests : ℕ
  pub successes : ℕ
  pub timeouts : ℕ
  pub crc_errors : ℕ
  pub invalid_frames : ℕ
  pub last_latency_ms : ℕ
  pub consecutive_errors : ℕ
  pub last_error : MeterError

-- The counter of the failure, one more.
abbrev count_failure : MeterError → MeterMetrics → MeterMetrics
count_failure timeout m = record m { timeouts = u64 (m.timeouts + 1) }
count_failure crc_mismatch m = record m { crc_errors = u64 (m.crc_errors + 1) }
count_failure no_error m = record m { invalid_frames = u64 (m.invalid_frames + 1) }
count_failure short_frame m = record m { invalid_frames = u64 (m.invalid_frames + 1) }
count_failure wrong_address m = record m { invalid_frames = u64 (m.invalid_frames + 1) }
count_failure wrong_function m = record m { invalid_frames = u64 (m.invalid_frames + 1) }
count_failure exception_response m = record m { invalid_frames = u64 (m.invalid_frames + 1) }
count_failure invalid_byte_count m = record m { invalid_frames = u64 (m.invalid_frames + 1) }
count_failure implausible_value m = record m { invalid_frames = u64 (m.invalid_frames + 1) }
count_failure uart_failure m = record m { invalid_frames = u64 (m.invalid_frames + 1) }

-- The counters behind the loop, `requests` and the last results included.
unfoldable pub counted : Attempted → MeterMetrics → MeterMetrics
counted attempted m =
    let asked = record m {
      requests = u64 (m.requests + 1);
      last_latency_ms = attempted.latency_ms;
      last_error = attempted.error;
    } in
    if is_none attempted.error
    then record asked { successes = u64 (m.successes + 1); consecutive_errors = 0 }
    else count_failure attempted.error
        (record asked { consecutive_errors = u32 (m.consecutive_errors + 1) })

-- The sample before the loop.
abbrev pub unpolled : Attempted
unpolled = record { error = timeout; latency_ms = 0; registers = no_registers }

-- The sample and the counters of one poll; the sample is valid where its error is none.
unfoldable pub poll : ℕ → ℕ → (ℕ → Exchange) → MeterMetrics → Option (Attempted × MeterMetrics)
poll fuel retries exchanges m = elim (attempts fuel retries 0 exchanges unpolled) [
  | none ↦ none
  | some attempted ↦ some (attempted, counted attempted m)
]
