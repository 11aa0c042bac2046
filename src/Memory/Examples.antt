-- ===== src/Memory/Examples.antt =====
-- The theorems of the memory policy at concrete readings.
use power_monitor_sensor.Common.{ℕ, ◌≡◌, refl, true, false, [], ◌∷◌, arith}
use power_monitor_sensor.Memory.Context.{
  idle, normal, low_total_memory, is_state, is_expected_high_memory_context, memory_tls_ready,
}
use power_monitor_sensor.Memory.{
  MemoryPressurePolicy, Sample, increment, update, observe, classify, count_samples, target_state,
  transition, begin_episode, count_entry, end_episode, update_fragmentation_episode, note_transient,
  record_minimum, fresh_policy,
}
use power_monitor_sensor.Memory.Recovery.{IsQuiet, run, six_quiet_samples}

abbrev reading : ℕ → ℕ → Sample
reading free largest = record {
  free_internal = free;
  largest_internal = largest;
  now_ms = 60000;
  context = idle;
  integrity_ok = true;
  last_operation_completed_ms = 0;
  critical_allocation_failed = false;
}

abbrev good : Sample
good = reading 80000 40000

abbrev scarce : Sample
scarce = reading 50000 40000

good-IsQuiet : IsQuiet good
unfolding is_expected_high_memory_context
good-IsQuiet = record { no_fault = refl; ordinary = refl; settled = refl; safe = refl }

-- Three low readings in a row.
abbrev alarmed : MemoryPressurePolicy
alarmed = run fresh_policy (scarce ∷ scarce ∷ scarce ∷ [])

memory_opened : ℕ
unfolding run update observe classify count_samples target_state transition begin_episode
    count_entry end_episode update_fragmentation_episode note_transient
    is_expected_high_memory_context increment record_minimum memory_tls_ready
memory_opened = 0

alarmed_low : alarmed.state ≡ low_total_memory
unfolding memory_opened
alarmed_low = refl

six_quiet_samples_example :
    (run alarmed (good ∷ good ∷ good ∷ good ∷ good ∷ good ∷ [])).state ≡ normal
six_quiet_samples_example =
    six_quiet_samples alarmed (good ∷ good ∷ good ∷ good ∷ good ∷ good ∷ [])
      (
        good-IsQuiet,
        (good-IsQuiet, (good-IsQuiet, (good-IsQuiet, (good-IsQuiet, (good-IsQuiet, tt))))),
      )
      (omega arith)

-- Five are not enough here.
five_quiet_samples :
    is_state (run alarmed (good ∷ good ∷ good ∷ good ∷ good ∷ [])).state normal ≡ false
unfolding memory_opened
five_quiet_samples = refl

abbrev twice_low : MemoryPressurePolicy
twice_low = run fresh_policy (scarce ∷ scarce ∷ [])

twice_low_state : is_state twice_low.state low_total_memory ≡ false
unfolding memory_opened
twice_low_state = refl

alarmed_again : (update twice_low scarce).state ≡ low_total_memory
unfolding memory_opened
alarmed_again = refl
