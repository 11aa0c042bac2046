-- ===== src/Meter/Protocol.antt =====
-- src/meter/PzemProtocol.h and .cpp: the Modbus frames of the PZEM-004T, and the errors of
-- src/core/Models.h.
pub mod Frames
use Prim.Native.Nat.{bit_xor}
use power_monitor_sensor.Common.{
  ℕ, zero, suc, ◌+◌, ◌-◌, ◌*◌, ◌/◌, ◌%◌, ◌^◌, Bool, true, false, not, ◌&&◌, ◌||◌, List, [], ◌∷◌,
  ◌++◌, leb, ltb, ◌==◌, u8, u16, length, take, if◌then◌else◌,
}
use power_monitor_sensor.Common.Texts.{Text, codes}
use power_monitor_sensor.Common.Bytes.{byte_at}

pub data MeterError : Type 0 where
  no_error timeout short_frame wrong_address wrong_function exception_response invalid_byte_count
        crc_mismatch implausible_value uart_failure :
      MeterError

abbrev pub meter_error_code : MeterError → Text
meter_error_code no_error = codes "none"
meter_error_code timeout = codes "pzem_timeout"
meter_error_code short_frame = codes "pzem_short_frame"
meter_error_code wrong_address = codes "pzem_wrong_address"
meter_error_code wrong_function = codes "pzem_wrong_function"
meter_error_code exception_response = codes "pzem_exception"
meter_error_code invalid_byte_count = codes "pzem_invalid_byte_count"
meter_error_code crc_mismatch = codes "pzem_crc_mismatch"
meter_error_code implausible_value = codes "pzem_implausible_value"
meter_error_code uart_failure = codes "pzem_uart_failure"

abbrev pub default_address : ℕ
default_address = 0xF8

abbrev pub response_size : ℕ
response_size = 25

abbrev pub crc_bit : ℕ → ℕ
crc_bit crc = if crc % 2 == 1 then bit_xor (crc / 2) 0xA001 else crc / 2

abbrev pub crc_byte : ℕ → ℕ → ℕ
crc_byte crc byte =
    crc_bit
      (crc_bit (crc_bit (crc_bit (crc_bit (crc_bit (crc_bit (crc_bit (bit_xor crc (u8 byte)))))))))

unfoldable pub crc16_from : ℕ → List ℕ → ℕ
crc16_from crc [] = crc
crc16_from crc (byte ∷ frame) = crc16_from (crc_byte crc byte) frame

-- The value is a uint16.
unfoldable pub modbus_crc16 : List ℕ → ℕ
unfolding crc16_from
modbus_crc16 frame = u16 (crc16_from 0xFFFF frame)

-- The low byte first, as requests and responses carry it.
abbrev pub crc_bytes : ℕ → List ℕ
crc_bytes crc = crc % 256 ∷ u8 (crc / 256) ∷ []

unfoldable pub build_read_measurement_request : ℕ → List ℕ
build_read_measurement_request address =
    let request = address ∷ 0x04 ∷ 0x00 ∷ 0x00 ∷ 0x00 ∷ 0x0A ∷ [] in
    request ++ crc_bytes (modbus_crc16 request)

-- The registers that are read, before their scale in floating point.
pub record Registers : Type 0 where
  pub voltage : ℕ
  pub current : ℕ
  pub active_power : ℕ
  pub raw_energy_wh : ℕ
  pub frequency : ℕ
  pub power_factor : ℕ

abbrev pub no_registers : Registers
no_registers = record {
  voltage = 0;
  current = 0;
  active_power = 0;
  raw_energy_wh = 0;
  frequency = 0;
  power_factor = 0;
}

abbrev pub read_u16_be : List ℕ → ℕ → ℕ
read_u16_be frame i = byte_at frame i * 256 + byte_at frame (i + 1)

abbrev pub read_register_pair : List ℕ → ℕ → ℕ
read_register_pair frame i = read_u16_be frame i + read_u16_be frame (i + 2) * 2 ^ 16

-- The six values behind the three bytes of the header.
unfoldable pub registers_of : List ℕ → Registers
registers_of frame = record {
  voltage = read_u16_be frame 3;
  current = read_register_pair frame 5;
  active_power = read_register_pair frame 9;
  raw_energy_wh = read_register_pair frame 13;
  frequency = read_u16_be frame 17;
  power_factor = read_u16_be frame 19;
}

abbrev pub actual_crc : List ℕ → ℕ
actual_crc frame = byte_at frame (length frame - 2) + byte_at frame (length frame - 1) * 256

unfoldable pub has_crc : List ℕ → Bool
has_crc frame = modbus_crc16 (take (length frame - 2) frame) == actual_crc frame

-- The error, and the registers where there is none.
unfoldable pub parse_measurement_response : List ℕ → ℕ → Registers → MeterError × Registers
parse_measurement_response frame address result =
    if ltb (length frame) 5
    then (short_frame, result)
    else (if not (byte_at frame 0 == address)
        then (wrong_address, result)
        else (if leb 128 (byte_at frame 1)
            then (exception_response, result)
            else (if not (byte_at frame 1 == 0x04)
                then (wrong_function, result)
                else (if not (byte_at frame 2 == 20) || not (length frame == response_size)
                    then (invalid_byte_count, result)
                    else (if not (has_crc frame)
                        then (crc_mismatch, result)
                        else (no_error, registers_of frame))))))
