-- ===== src/Memory/Entry.antt =====
-- include/core/MemoryPressurePolicy.h: when a policy reports low memory, and what its episode timer says.
use power_monitor_sensor.Common.{
  ℕ, ◌≤◌, ◌<◌, ◌≡◌, refl, ◌≢◌, ◌⊎◌, Bool, true, false, List, [], ◌∷◌, arith, ◌==◌, if◌then◌else◌,
}
use power_monitor_sensor.Memory.Context.{
  MemoryPressureState, normal, low_total_memory, is_expected_high_memory_context, is_state,
  emergency_free,
}
use power_monitor_sensor.Memory.{
  MemoryPressurePolicy, Sample, in_post_operation_grace, hard_fault, is_low, count_samples, update,
  observe, classify, transition, target_state, nonzero, increment, update_fragmentation_episode,
  begin_episode, count_entry, end_episode, note_transient, fresh_policy,
}
use power_monitor_sensor.Memory.Recovery.{run}

transition_state :
    (p : MemoryPressurePolicy) (next : MemoryPressureState) (now_ms : ℕ)
    → (transition p next now_ms).state ≡ next
unfolding transition begin_episode count_entry end_episode
transition_state p next now_ms = ground arith

counted_low :
    (p : MemoryPressurePolicy) (s : Sample)
    → ((count_samples p s).state ≡ p.state)
      × ((count_samples p s).low_samples ≡ (if is_low s then increment p.low_samples else 0))
unfolding count_samples update_fragmentation_episode
counted_low p s = ground arith

low_target :
    (p : MemoryPressurePolicy) (s : Sample)
    → target_state p s ≡ low_total_memory
    → (p.state ≡ low_total_memory) ⊎ ((is_low s ≡ true) × (3 ≤ p.low_samples))
unfolding target_state
low_target p s h = ground arith

-- What a report of low memory may rest on.
pub record HasLowEvidence (p : MemoryPressurePolicy) (s : Sample) : Type 0 where
  pub ordinary : is_expected_high_memory_context s.context ≡ false
  pub settled : in_post_operation_grace s ≡ false
  pub scarce : (s.free_internal < emergency_free) ⊎ ((is_low s ≡ true) × (2 ≤ p.low_samples))

classify_low :
    (p : MemoryPressurePolicy) (s : Sample)
    → (classify p s).state ≡ low_total_memory
    → (p.state ≡ low_total_memory) ⊎ ((is_low s ≡ true) × (2 ≤ p.low_samples))
unfolding classify increment
classify_low p s h = ground (
  arith,
  transition_state (count_samples p s) (target_state (count_samples p s) s) s.now_ms,
  low_target (count_samples p s) s,
  counted_low p s,
)

-- A sample brings the policy into `low_total_memory` only on a hard fault, or outside the operations
-- that use much memory and their grace period, with less free than the emergency floor or with a
-- third low reading in a row.
pub low_total_memory_entry :
    (p : MemoryPressurePolicy) (s : Sample)
    → p.state ≢ low_total_memory
    → (update p s).state ≡ low_total_memory
    → (hard_fault s ≡ true) ⊎ HasLowEvidence p s
unfolding update observe note_transient
low_total_memory_entry p s other h = ground (arith, classify_low (observe p s) s)

-- The timer of the episode of pressure runs exactly outside `normal`.
abbrev pub EpisodeTimed : MemoryPressurePolicy → Type 0
EpisodeTimed p = is_state p.state normal ≡ (p.pressure_episode_started_ms == 0)

transition_started :
    (p : MemoryPressurePolicy) (next : MemoryPressureState) (now_ms : ℕ)
    → (transition p next now_ms).pressure_episode_started_ms ≡ (
        if is_state next p.state
        then p.pressure_episode_started_ms
        else (if is_state next normal
            then 0
            else (if is_state p.state normal
                then nonzero now_ms
                else p.pressure_episode_started_ms)))
unfolding transition begin_episode count_entry end_episode
transition_started p next now_ms = ground arith

transition-EpisodeTimed :
    (p : MemoryPressurePolicy) (next : MemoryPressureState) (now_ms : ℕ)
    → EpisodeTimed p
    → EpisodeTimed (transition p next now_ms)
transition-EpisodeTimed p next now_ms h =
    rw (transition_started p next now_ms, transition_state p next now_ms) (ground arith)

counted_episode :
    (p : MemoryPressurePolicy) (s : Sample) → EpisodeTimed p → EpisodeTimed (count_samples p s)
unfolding count_samples update_fragmentation_episode
counted_episode p s h = ground arith

classify-EpisodeTimed :
    (p : MemoryPressurePolicy) (s : Sample) → EpisodeTimed p → EpisodeTimed (classify p s)
unfolding classify
classify-EpisodeTimed p s h =
    transition-EpisodeTimed (count_samples p s) (target_state (count_samples p s) s) s.now_ms
      (counted_episode p s h)

fragmentation_episode :
    (p : MemoryPressurePolicy) (b : Bool) (free now_ms : ℕ)
    → EpisodeTimed p
    → EpisodeTimed (update_fragmentation_episode p b free now_ms)
unfolding update_fragmentation_episode
fragmentation_episode p b free now_ms h = ground arith

update-EpisodeTimed :
    (p : MemoryPressurePolicy) (s : Sample) → EpisodeTimed p → EpisodeTimed (update p s)
unfolding update observe note_transient
update-EpisodeTimed p s h = ground (
  arith,
  classify-EpisodeTimed (observe p s) s h,
  transition-EpisodeTimed
      (update_fragmentation_episode (observe p s) false s.free_internal s.now_ms) low_total_memory
      s.now_ms (fragmentation_episode (observe p s) false s.free_internal s.now_ms h),
)

run-EpisodeTimed :
    (p : MemoryPressurePolicy) (samples : List Sample)
    → EpisodeTimed p
    → EpisodeTimed (run p samples)
unfolding run
run-EpisodeTimed p [] h = h
run-EpisodeTimed p (s ∷ samples) h =
    run-EpisodeTimed (update p s) samples (update-EpisodeTimed p s h)

-- After any samples since the start, the timer of the episode of pressure is stopped exactly in the
-- state `normal`.
pub EpisodeTimed-always : (samples : List Sample) → EpisodeTimed (run fresh_policy samples)
EpisodeTimed-always samples = run-EpisodeTimed fresh_policy samples refl
