-- ===== src/Meter/Examples.antt =====
-- The theorems of the power meter at a concrete measurement and concrete transactions.
use power_monitor_sensor.Common.{ℕ, zero, suc, ◌≡◌, refl, true, some, [], ◌∷◌, arith}
use power_monitor_sensor.Meter.Protocol.{
  no_error, Registers, no_registers, parse_measurement_response, build_read_measurement_request,
  modbus_crc16, crc16_from,
}
use power_monitor_sensor.Meter.Protocol.Frames.{measurement_frame, parse-measurement_frame}
use power_monitor_sensor.Meter.Poll.{Exchange, MeterMetrics, unpolled, counted, poll}
use power_monitor_sensor.Meter.Poll.Retries.{first_success, IsCounted, poll_ends}

-- 121.3 V, 70000 mA, 8490.0 W, 60.0 Hz.
abbrev reading : Registers
reading = record {
  voltage = 1213;
  current = 70000;
  active_power = 84900;
  raw_energy_wh = 123456;
  frequency = 600;
  power_factor = 99;
}

parse-measurement_frame_example :
    parse_measurement_response (measurement_frame 0xF8 0 reading) 0xF8 no_registers
    ≡ (no_error, reading)
parse-measurement_frame_example =
    parse-measurement_frame 0xF8 0 reading no_registers (omega arith)
      (omega arith, omega arith, omega arith, omega arith, omega arith, omega arith)

-- The request of the protocol's manual for this address.
known_request : build_read_measurement_request 0xF8 ≡ 0xF8 ∷ 4 ∷ 0 ∷ 0 ∷ 0 ∷ 10 ∷ 0x64 ∷ 0x64 ∷ []
unfolding build_read_measurement_request modbus_crc16 crc16_from
known_request = refl

-- Nothing comes at first, and then a measurement.
abbrev late : ℕ → Exchange
late zero = record { is_written = true; response = []; latency_ms = 750 }
late (suc i) = record {
  is_written = true;
  response = measurement_frame 0xF8 0 reading;
  latency_ms = 40;
}

abbrev fresh : MeterMetrics
fresh = record {
  requests = 0;
  successes = 0;
  timeouts = 0;
  crc_errors = 0;
  invalid_frames = 0;
  last_latency_ms = 0;
  consecutive_errors = 0;
  last_error = no_error;
}

poll_ends_example :
    (poll 4 2 late fresh
      ≡ some (first_success 3 late unpolled, counted (first_success 3 late unpolled) fresh))
    × IsCounted
        (first_success 3 late unpolled)
        fresh
        (counted (first_success 3 late unpolled) fresh)
poll_ends_example = poll_ends 2 4 late fresh (omega arith) (omega arith)
