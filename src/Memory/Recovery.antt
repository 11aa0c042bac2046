-- ===== src/Memory/Recovery.antt =====
-- include/core/MemoryPressurePolicy.h: the way of a policy back to `normal`.
use power_monitor_sensor.Common.{
  ℕ, ◌+◌, ◌-◌, ◌≤◌, ◌≡◌, Bool, true, false, ◌||◌, List, [], ◌∷◌, arith, length, All, if◌then◌else◌,
}
use power_monitor_sensor.Memory.Context.{
  MemoryPressureState, normal, pressure_warning, fragmented, low_total_memory, recovering,
  is_expected_high_memory_context, is_state,
}
use power_monitor_sensor.Memory.{
  MemoryPressurePolicy, Sample, in_post_operation_grace, hard_fault, is_safe, is_fragmented,
  count_samples, update, observe, classify, transition, target_state, safe_target, increment,
  update_fragmentation_episode, begin_episode, count_entry, end_episode,
}

-- A sample with no fault, in no operation that uses much memory and not soon after one, whose free
-- memory and largest block are those of a healthy heap.
pub record IsQuiet (s : Sample) : Type 0 where
  pub no_fault : hard_fault s ≡ false
  pub ordinary : is_expected_high_memory_context s.context ≡ false
  pub settled : in_post_operation_grace s ≡ false
  pub safe : is_safe s ≡ true

-- How many safe samples a state with that many already counted may still need.
abbrev pub rank_of : MemoryPressureState → ℕ → ℕ
rank_of normal n = 0
rank_of pressure_warning n = 1 + (2 - n)
rank_of recovering n = 1 + (2 - n)
rank_of fragmented n = 4 + (2 - n)
rank_of low_total_memory n = 4 + (2 - n)

abbrev pub rank : MemoryPressurePolicy → ℕ
rank p = rank_of p.state p.safe_samples

rank_bound : (p : MemoryPressurePolicy) → rank p ≤ 6
rank_bound p = ground arith

transition_fields :
    (p : MemoryPressurePolicy) (next : MemoryPressureState) (now_ms : ℕ)
    → rank_of (transition p next now_ms).state (transition p next now_ms).safe_samples ≡ (
        if is_state next p.state
        then rank_of next p.safe_samples
        else rank_of next
            (if is_state next recovering || is_state next normal then 0 else p.safe_samples))
unfolding transition begin_episode count_entry end_episode
transition_fields p next now_ms = ground arith

fragmentation_keeps :
    (p : MemoryPressurePolicy) (b : Bool) (free now_ms : ℕ)
    → ((update_fragmentation_episode p b free now_ms).state ≡ p.state)
      × ((update_fragmentation_episode p b free now_ms).safe_samples ≡ p.safe_samples)
unfolding update_fragmentation_episode
fragmentation_keeps p b free now_ms = ground arith

safe_rank :
    (state : MemoryPressureState) (n : ℕ)
    → (if is_state (safe_target state (increment n)) state
        then rank_of (safe_target state (increment n)) (increment n)
        else rank_of (safe_target state (increment n)) (
            if is_state (safe_target state (increment n)) recovering
              || is_state (safe_target state (increment n)) normal
            then 0
            else increment n))
      ≤ rank_of state n - 1
unfolding increment
safe_rank normal n = omega arith
safe_rank pressure_warning n = ground arith
safe_rank fragmented n = ground arith
safe_rank low_total_memory n = ground arith
safe_rank recovering n = ground arith

counted :
    (p : MemoryPressurePolicy) (s : Sample)
    → is_safe s ≡ true
    → ((count_samples p s).state ≡ p.state)
      × ((count_samples p s).safe_samples ≡ increment p.safe_samples)
unfolding count_samples
counted p s h = ground (arith, fragmentation_keeps p (is_fragmented s) s.free_internal s.now_ms)

safe_target_state :
    (p : MemoryPressurePolicy) (s : Sample)
    → is_safe s ≡ true
    → target_state p s ≡ safe_target p.state p.safe_samples
unfolding target_state
safe_target_state p s h = ground arith

rank-classify :
    (p : MemoryPressurePolicy) (s : Sample) → is_safe s ≡ true → rank (classify p s) ≤ rank p - 1
unfolding classify
rank-classify p s h =
    rw
      (
        transition_fields (count_samples p s) (target_state (count_samples p s) s) s.now_ms,
        safe_target_state (count_samples p s) s h,
        (counted p s h).0,
        (counted p s h).1,
      )
      (safe_rank p.state p.safe_samples)

-- A quiet sample lowers the rank, until it is 0.
rank-update : (p : MemoryPressurePolicy) (s : Sample) → IsQuiet s → rank (update p s) ≤ rank p - 1
unfolding update observe
rank-update p s quiet = ground (arith, rank-classify (observe p s) s quiet.safe, quiet)

-- The policy after the samples, in order.
unfoldable pub run : MemoryPressurePolicy → List Sample → MemoryPressurePolicy
run p [] = p
run p (s ∷ samples) = run (update p s) samples

rank-run :
    (p : MemoryPressurePolicy) (samples : List Sample)
    → All IsQuiet samples
    → rank (run p samples) ≤ rank p - length samples
unfolding run
rank-run p [] quiet = omega arith
rank-run p (s ∷ samples) quiet =
    omega (arith, rank-run (update p s) samples quiet.1, rank-update p s quiet.0)

rank_normal : (p : MemoryPressurePolicy) → rank p ≡ 0 → p.state ≡ normal
rank_normal p h = ground arith

-- Whatever the state and its counters, six or more samples in a row with no fault, outside the
-- operations that use much memory and their grace period, and with free memory and a largest block
-- of the healthy size, lead to `normal`.
pub six_quiet_samples :
    (p : MemoryPressurePolicy) (samples : List Sample)
    → All IsQuiet samples
    → 6 ≤ length samples
    → (run p samples).state ≡ normal
six_quiet_samples p samples quiet enough =
    rank_normal (run p samples) (omega (arith, rank-run p samples quiet, rank_bound p))
