-- ===== src/Meter/Protocol/Frames.antt =====
-- src/meter/PzemProtocol.cpp: a measurement that the meter sends is read back.
use power_monitor_sensor.Common.{
  ℕ, ◌/◌, ◌%◌, ◌^◌, ◌<◌, ◌≡◌, refl, true, List, [], ◌∷◌, ◌++◌, arith, u8, length,
}
use power_monitor_sensor.Common.Bytes.{byte_at}
use power_monitor_sensor.Meter.Protocol.{
  no_error, modbus_crc16, crc_bytes, Registers, read_u16_be, read_register_pair, registers_of,
  has_crc, parse_measurement_response,
}

-- A register, and a pair with the low register first.
abbrev register_bytes : ℕ → List ℕ
register_bytes value = u8 (value / 256) ∷ u8 value ∷ []

abbrev pair_bytes : ℕ → List ℕ
pair_bytes value = register_bytes (value % 2 ^ 16) ++ register_bytes (value / 2 ^ 16)

-- The frame in which the meter at `address` sends these registers and its alarm register, as the
-- protocol has it.
abbrev pub measurement_data : ℕ → ℕ → Registers → List ℕ
measurement_data address alarm r =
    address ∷ 0x04 ∷ 20 ∷ register_bytes r.voltage
    ++ (pair_bytes r.current
        ++ (pair_bytes r.active_power
            ++ (pair_bytes r.raw_energy_wh
                ++ (register_bytes r.frequency
                    ++ (register_bytes r.power_factor ++ register_bytes alarm)))))

unfoldable pub measurement_frame : ℕ → ℕ → Registers → List ℕ
measurement_frame address alarm r =
    measurement_data address alarm r ++ crc_bytes (modbus_crc16 (measurement_data address alarm r))

abbrev pub IsInRange : Registers → Type 0
IsInRange r =
    (r.voltage < 2 ^ 16)
    × (r.current < 2 ^ 32)
    × (r.active_power < 2 ^ 32)
    × (r.raw_energy_wh < 2 ^ 32)
    × (r.frequency < 2 ^ 16)
    × (r.power_factor < 2 ^ 16)

modbus_crc16-lt : (frame : List ℕ) → modbus_crc16 frame < 2 ^ 16
unfolding modbus_crc16
modbus_crc16-lt frame = omega arith

frame-crc : (address alarm : ℕ) (r : Registers) → has_crc (measurement_frame address alarm r) ≡ true
unfolding has_crc measurement_frame
frame-crc address alarm r =
    let small = modbus_crc16-lt (measurement_data address alarm r) in ground arith

pair-value : (value : ℕ) → value < 2 ^ 32 → read_register_pair (pair_bytes value) 0 ≡ value
pair-value value h = omega arith

register-value : (value : ℕ) → value < 2 ^ 16 → read_u16_be (register_bytes value) 0 ≡ value
register-value value h = omega arith

frame-registers :
    (address alarm : ℕ) (r : Registers)
    → IsInRange r
    → registers_of (measurement_frame address alarm r) ≡ r
unfolding registers_of measurement_frame
frame-registers address alarm r (v, c, p, e, f, q) =
    rw
      (
        register-value r.voltage v,
        pair-value r.current c,
        pair-value r.active_power p,
        pair-value r.raw_energy_wh e,
        register-value r.frequency f,
        register-value r.power_factor q,
      )
      refl

frame-shape :
    (address alarm : ℕ) (r : Registers)
    → address < 256
    → (byte_at (measurement_frame address alarm r) 0 ≡ address)
      × (byte_at (measurement_frame address alarm r) 1 ≡ 4)
      × (byte_at (measurement_frame address alarm r) 2 ≡ 20)
      × (length (measurement_frame address alarm r) ≡ 25)
unfolding measurement_frame
frame-shape address alarm r byte = (omega arith, refl, refl, refl)

-- A measurement that the meter sends is read back: the frame of registers in range, from the address
-- that is expected, a byte, parses without an error to those registers, whatever the alarm register.
pub parse-measurement_frame :
    (address alarm : ℕ) (r old : Registers)
    → address < 256
    → IsInRange r
    → parse_measurement_response (measurement_frame address alarm r) address old ≡ (no_error, r)
unfolding parse_measurement_response
parse-measurement_frame address alarm r old byte inside =
    let shape = frame-shape address alarm r byte in
    rw (frame-crc address alarm r, frame-registers address alarm r inside) (ground arith)
