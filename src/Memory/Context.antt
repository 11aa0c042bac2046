-- ===== src/Memory/Context.antt =====
-- include/core/MemoryPressurePolicy.h: operation contexts, states of pressure, and thresholds.
use power_monitor_sensor.Common.{ℕ, ◌*◌, Bool, true, false, ◌&&◌, leb, ◌==◌}
use power_monitor_sensor.Common.Texts.{Text, codes}

pub data MemoryOperationContext : Type 0 where
  idle tls_preparing tls_active ota_active heavy_local_ui : MemoryOperationContext
  diagnostics_active storage_maintenance : MemoryOperationContext

unfoldable pub memory_operation_context_name : MemoryOperationContext → Text
memory_operation_context_name idle = codes "idle"
memory_operation_context_name tls_preparing = codes "tls_preparing"
memory_operation_context_name tls_active = codes "tls_active"
memory_operation_context_name ota_active = codes "ota_active"
memory_operation_context_name heavy_local_ui = codes "heavy_local_ui"
memory_operation_context_name diagnostics_active = codes "diagnostics_active"
memory_operation_context_name storage_maintenance = codes "storage_maintenance"

unfoldable pub is_expected_high_memory_context : MemoryOperationContext → Bool
is_expected_high_memory_context tls_preparing = true
is_expected_high_memory_context tls_active = true
is_expected_high_memory_context ota_active = true
is_expected_high_memory_context _ = false

unfoldable pub memory_operation_transition_allowed :
    MemoryOperationContext → MemoryOperationContext → Bool
memory_operation_transition_allowed tls_preparing tls_active = true
memory_operation_transition_allowed _ _ = false

unfoldable pub requires_post_operation_memory_grace : MemoryOperationContext → Bool
requires_post_operation_memory_grace tls_active = true
requires_post_operation_memory_grace ota_active = true
requires_post_operation_memory_grace _ = false

pub data MemoryPressureState : Type 0 where
  normal pressure_warning fragmented low_total_memory recovering : MemoryPressureState

abbrev pub state_value : MemoryPressureState → ℕ
state_value normal = 0
state_value pressure_warning = 1
state_value fragmented = 2
state_value low_total_memory = 3
state_value recovering = 4

abbrev pub is_state : MemoryPressureState → MemoryPressureState → Bool
is_state s t = state_value s == state_value t

unfoldable pub memory_pressure_state_name : MemoryPressureState → Text
memory_pressure_state_name normal = codes "normal"
memory_pressure_state_name pressure_warning = codes "pressure_warning"
memory_pressure_state_name fragmented = codes "fragmented"
memory_pressure_state_name low_total_memory = codes "low_total_memory"
memory_pressure_state_name recovering = codes "recovering"

unfoldable pub memory_pressure_severity_name : MemoryPressureState → Text
memory_pressure_severity_name normal = codes "normal"
memory_pressure_severity_name low_total_memory = codes "critical"
memory_pressure_severity_name _ = codes "warning"

abbrev pub normal_free : ℕ
normal_free = 68 * 1024

abbrev pub normal_largest : ℕ
normal_largest = 32 * 1024

abbrev pub fragmentation_free : ℕ
fragmentation_free = 64 * 1024

abbrev pub low_total : ℕ
low_total = 56 * 1024

abbrev pub emergency_free : ℕ
emergency_free = 32 * 1024

unfoldable pub memory_tls_ready : ℕ → ℕ → Bool → Bool
memory_tls_ready free_internal largest_internal integrity_ok =
    integrity_ok && leb (64 * 1024) free_internal && leb (32 * 1024) largest_internal
