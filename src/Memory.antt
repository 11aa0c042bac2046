-- ===== src/Memory.antt =====
-- include/core/MemoryPressurePolicy.h: the pressure on internal heap, from periodic readings.
pub mod Context
pub mod Entry
pub mod Recovery
mod Examples
use power_monitor_sensor.Common.{
  ℕ, ◌+◌, ◌-◌, ◌*◌, ◌%◌, ◌^◌, Bool, true, false, not, ◌&&◌, ◌||◌, leb, ltb, ◌==◌, u32, u64,
  if◌then◌else◌,
}
use power_monitor_sensor.Common.Texts.{Text, codes}
use power_monitor_sensor.Memory.Context.{
  MemoryOperationContext, MemoryPressureState, diagnostics_active, emergency_free,
  fragmentation_free, fragmented, heavy_local_ui, idle, is_expected_high_memory_context, is_state,
  low_total, low_total_memory, memory_operation_context_name, memory_operation_transition_allowed,
  memory_pressure_severity_name, memory_pressure_state_name, memory_tls_ready, normal, normal_free,
  normal_largest, ota_active, pressure_warning, recovering, requires_post_operation_memory_grace,
  state_value, storage_maintenance, tls_active, tls_preparing,
}

pub record MemoryPressurePolicy : Type 0 where
  pub state : MemoryPressureState
  pub operation_context : MemoryOperationContext
  pub state_since_ms : ℕ
  pub transitions : ℕ
  pub entry_count : ℕ
  pub recovery_count : ℕ
  pub pressure_episode_started_ms : ℕ
  pub cumulative_pressure_ms : ℕ
  pub longest_pressure_episode_ms : ℕ
  pub lowest_free_internal_bytes : ℕ
  pub lowest_largest_internal_block_bytes : ℕ
  pub fragmentation_entry_count : ℕ
  pub fragmentation_recovery_count : ℕ
  pub fragmentation_episode_started_ms : ℕ
  pub longest_fragmentation_episode_ms : ℕ
  pub free_internal_at_fragmentation_entry_bytes : ℕ
  pub tls_transient_minimum_free_internal_bytes : ℕ
  pub ota_transient_minimum_free_internal_bytes : ℕ
  pub low_samples : ℕ
  pub safe_samples : ℕ
  pub tls_ready : Bool
  pub heap_integrity_ok : Bool

-- The arguments of `update`.
pub record Sample : Type 0 where
  pub free_internal : ℕ
  pub largest_internal : ℕ
  pub now_ms : ℕ
  pub context : MemoryOperationContext
  pub integrity_ok : Bool
  pub last_operation_completed_ms : ℕ
  pub critical_allocation_failed : Bool

unfoldable pub increment : ℕ → ℕ
increment value = if value == 255 then value else value + 1

unfoldable pub record_minimum : ℕ → ℕ → ℕ
record_minimum minimum value = if minimum == 0 || ltb value minimum then value else minimum

-- now_ms == 0U ? 1U : now_ms
abbrev pub nonzero : ℕ → ℕ
nonzero now_ms = if now_ms == 0 then 1 else now_ms

-- newer - older, and 0 where the clock went back.
abbrev pub elapsed : ℕ → ℕ → ℕ
elapsed now_ms started = if leb started now_ms then now_ms - started else 0

unfoldable pub update_fragmentation_episode :
    MemoryPressurePolicy → Bool → ℕ → ℕ → MemoryPressurePolicy
update_fragmentation_episode p is_fragmented free_internal now_ms =
    let started = p.fragmentation_episode_started_ms in
    let duration = elapsed now_ms started in
    if is_fragmented && started == 0
    then record p {
      fragmentation_episode_started_ms = nonzero now_ms;
      free_internal_at_fragmentation_entry_bytes = free_internal;
      fragmentation_entry_count = u32 (p.fragmentation_entry_count + 1);
    }
    else (if not is_fragmented && not (started == 0)
        then record p {
          longest_fragmentation_episode_ms =
              if ltb p.longest_fragmentation_episode_ms duration
              then duration
              else p.longest_fragmentation_episode_ms;
          fragmentation_episode_started_ms = 0;
          fragmentation_recovery_count = u32 (p.fragmentation_recovery_count + 1);
        }
        else p)

-- The three counters that a transition may touch, before the new state is stored.
unfoldable pub begin_episode : MemoryPressurePolicy → MemoryPressureState → ℕ → MemoryPressurePolicy
begin_episode p next now_ms =
    if is_state p.state normal && not (is_state next normal)
    then record p { pressure_episode_started_ms = nonzero now_ms }
    else p

unfoldable pub count_entry : MemoryPressurePolicy → MemoryPressureState → MemoryPressurePolicy
count_entry p next =
    if is_state next low_total_memory && not (is_state p.state low_total_memory)
    then record p { entry_count = u32 (p.entry_count + 1) }
    else p

unfoldable pub end_episode : MemoryPressurePolicy → MemoryPressureState → ℕ → MemoryPressurePolicy
end_episode p next now_ms =
    let started = p.pressure_episode_started_ms in
    let duration = now_ms - started in
    let timed = not (started == 0) && leb started now_ms in
    if is_state next normal && not (is_state p.state normal)
    then record p {
      cumulative_pressure_ms =
          if timed then u64 (p.cumulative_pressure_ms + duration) else p.cumulative_pressure_ms;
      longest_pressure_episode_ms =
          if timed && ltb p.longest_pressure_episode_ms duration
          then duration
          else p.longest_pressure_episode_ms;
      pressure_episode_started_ms = 0;
      recovery_count = u32 (p.recovery_count + 1);
    }
    else p

unfoldable pub transition : MemoryPressurePolicy → MemoryPressureState → ℕ → MemoryPressurePolicy
transition p next now_ms =
    let q = end_episode (count_entry (begin_episode p next now_ms) next) next now_ms in
    if is_state next p.state then p else record q {
      state = next;
      state_since_ms = now_ms;
      transitions = u32 (p.transitions + 1);
      low_samples = if is_state next low_total_memory then 0 else q.low_samples;
      safe_samples = if is_state next recovering || is_state next normal then 0 else q.safe_samples;
    }

-- The first lines of `update`: what is stored of every sample.
unfoldable pub observe : MemoryPressurePolicy → Sample → MemoryPressurePolicy
observe p s = record p {
  operation_context = s.context;
  heap_integrity_ok = s.integrity_ok;
  tls_ready = memory_tls_ready s.free_internal s.largest_internal s.integrity_ok;
  lowest_free_internal_bytes = record_minimum p.lowest_free_internal_bytes s.free_internal;
  lowest_largest_internal_block_bytes =
      record_minimum p.lowest_largest_internal_block_bytes s.largest_internal;
}

abbrev pub hard_fault : Sample → Bool
hard_fault s = not s.integrity_ok || s.critical_allocation_failed

abbrev pub in_post_operation_grace : Sample → Bool
in_post_operation_grace s =
    not (s.last_operation_completed_ms == 0)
    && leb s.last_operation_completed_ms s.now_ms
    && ltb (s.now_ms - s.last_operation_completed_ms) 3000

abbrev pub is_fragmented : Sample → Bool
is_fragmented s = leb fragmentation_free s.free_internal && ltb s.largest_internal normal_largest

abbrev pub is_low : Sample → Bool
is_low s = ltb s.free_internal low_total

abbrev pub is_safe : Sample → Bool
is_safe s = leb normal_free s.free_internal && leb normal_largest s.largest_internal

-- The branch of an expected high-memory context: the transient minimum is kept as evidence.
unfoldable pub note_transient : MemoryPressurePolicy → Sample → MemoryPressurePolicy
note_transient p s = elim s.context [
  | ota_active ↦ record p {
    ota_transient_minimum_free_internal_bytes =
        record_minimum p.ota_transient_minimum_free_internal_bytes s.free_internal;
  }
  | _ ↦ record p {
    tls_transient_minimum_free_internal_bytes =
        record_minimum p.tls_transient_minimum_free_internal_bytes s.free_internal;
  }
]

-- The state that a safe sample leads to.
abbrev pub safe_target : MemoryPressureState → ℕ → MemoryPressureState
safe_target normal n = normal
safe_target pressure_warning n = if leb 3 n then normal else pressure_warning
safe_target fragmented n = if leb 3 n then recovering else fragmented
safe_target low_total_memory n = if leb 3 n then recovering else low_total_memory
safe_target recovering n = if leb 3 n then normal else recovering

-- The state that the last part of `update` moves to, the counters of samples being set.
unfoldable pub target_state : MemoryPressurePolicy → Sample → MemoryPressureState
target_state p s =
    if is_low s
    then (if is_state p.state low_total_memory || leb 3 p.low_samples
        then low_total_memory
        else pressure_warning)
    else (if is_fragmented s
        then fragmented
        else (if is_safe s
            then safe_target p.state p.safe_samples
            else (if is_state p.state low_total_memory then recovering else pressure_warning)))

-- The fragmentation episode and the counters of samples, before the state is chosen.
unfoldable pub count_samples : MemoryPressurePolicy → Sample → MemoryPressurePolicy
count_samples p s =
    let q = update_fragmentation_episode p (is_fragmented s) s.free_internal s.now_ms in
    record q {
      low_samples = if is_low s then increment q.low_samples else 0;
      safe_samples = if is_safe s then increment q.safe_samples else 0;
    }

-- The last part of `update`.
unfoldable pub classify : MemoryPressurePolicy → Sample → MemoryPressurePolicy
classify p s = let q = count_samples p s in transition q (target_state q s) s.now_ms

-- `update` returns the old and the new state too; they are the fields of the two policies.
unfoldable pub update : MemoryPressurePolicy → Sample → MemoryPressurePolicy
update p s =
    let q = observe p s in
    let failed =
      transition (update_fragmentation_episode q false s.free_internal s.now_ms) low_total_memory
        s.now_ms in
    if hard_fault s
    then failed
    else (if is_expected_high_memory_context s.context
        then record (note_transient q s) { low_samples = 0; safe_samples = 0 }
        else (if in_post_operation_grace s
            then record q { low_samples = 0; safe_samples = 0 }
            else (if ltb s.free_internal emergency_free then failed else classify q s)))

abbrev pub fresh_policy : MemoryPressurePolicy
fresh_policy = record {
  state = normal;
  operation_context = idle;
  state_since_ms = 0;
  transitions = 0;
  entry_count = 0;
  recovery_count = 0;
  pressure_episode_started_ms = 0;
  cumulative_pressure_ms = 0;
  longest_pressure_episode_ms = 0;
  lowest_free_internal_bytes = 0;
  lowest_largest_internal_block_bytes = 0;
  fragmentation_entry_count = 0;
  fragmentation_recovery_count = 0;
  fragmentation_episode_started_ms = 0;
  longest_fragmentation_episode_ms = 0;
  free_internal_at_fragmentation_entry_bytes = 0;
  tls_transient_minimum_free_internal_bytes = 0;
  ota_transient_minimum_free_internal_bytes = 0;
  low_samples = 0;
  safe_samples = 0;
  tls_ready = false;
  heap_integrity_ok = true;
}
