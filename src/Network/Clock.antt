-- ===== src/Network/Clock.antt =====
-- src/network/ClockPolicy.h and src/network/ClockService.h and .cpp: when a time from SNTP is
-- trusted. The atomic words are read and written by the one task that updates the clock.
pub mod Steps
pub mod Samples
pub mod Trust
mod Examples
use power_monitor_sensor.Common.{
  ℕ, ◌+◌, ◌-◌, ◌*◌, ◌≡◌, Bool, true, false, not, ◌&&◌, ◌||◌, leb, ltb, ◌==◌, u8, u32, u64,
  if◌then◌else◌,
}

pub data CandidateDisposition : Type 0 where
  accept require_confirmation reject_implausible : CandidateDisposition

abbrev pub minimum_utc_ms : ℕ
minimum_utc_ms = 1704067200000

abbrev pub maximum_utc_ms : ℕ
maximum_utc_ms = 4102444800000

abbrev pub rollback_tolerance_ms : ℕ
rollback_tolerance_ms = 300000

abbrev pub maximum_anchored_forward_step_ms : ℕ
maximum_anchored_forward_step_ms = 45 * 24 * 60 * 60 * 1000

abbrev pub maximum_initial_build_advance_ms : ℕ
maximum_initial_build_advance_ms = 400 * 24 * 60 * 60 * 1000

abbrev pub maximum_initial_build_rollback_ms : ℕ
maximum_initial_build_rollback_ms = 30 * 24 * 60 * 60 * 1000

abbrev pub candidate_consistency_tolerance_ms : ℕ
candidate_consistency_tolerance_ms = 300000

abbrev pub required_consistent_samples : ℕ
required_consistent_samples = 3

abbrev pub exceeds : ℕ → ℕ → ℕ → Bool
exceeds newer older allowance = ltb older newer && ltb allowance (newer - older)

unfoldable pub classify_candidate : ℕ → ℕ → ℕ → CandidateDisposition
classify_candidate candidate_utc_ms previous_trusted_utc_ms build_utc_ms =
    if ltb candidate_utc_ms minimum_utc_ms || ltb maximum_utc_ms candidate_utc_ms
    then reject_implausible
    else (if not (previous_trusted_utc_ms == 0)
        then (if exceeds previous_trusted_utc_ms candidate_utc_ms rollback_tolerance_ms
              || exceeds candidate_utc_ms previous_trusted_utc_ms maximum_anchored_forward_step_ms
            then require_confirmation
            else accept)
        else (if not (build_utc_ms == 0)
              && (exceeds build_utc_ms candidate_utc_ms maximum_initial_build_rollback_ms
                  || exceeds candidate_utc_ms build_utc_ms maximum_initial_build_advance_ms)
            then require_confirmation
            else accept))

unfoldable pub candidates_consistent : ℕ → ℕ → ℕ → ℕ → Bool
candidates_consistent previous_utc_ms previous_monotonic_ms utc_ms monotonic_ms =
    let utc_elapsed = utc_ms - previous_utc_ms in
    let monotonic_elapsed = monotonic_ms - previous_monotonic_ms in
    let difference =
      if ltb monotonic_elapsed utc_elapsed
      then utc_elapsed - monotonic_elapsed
      else monotonic_elapsed - utc_elapsed in
    if previous_utc_ms == 0 || ltb monotonic_ms previous_monotonic_ms || ltb utc_ms previous_utc_ms
    then false
    else leb difference candidate_consistency_tolerance_ms

pub record ClockService : Type 0 where
  pub synchronized : Bool
  pub sntp_confirmed : Bool
  pub last_trusted_utc_ms : ℕ
  pub persisted_trusted_utc_ms : ℕ
  pub last_sync_monotonic_ms : ℕ
  pub last_persist_monotonic_ms : ℕ
  pub pending_candidate_utc_ms : ℕ
  pub pending_candidate_monotonic_ms : ℕ
  pub sync_count : ℕ
  pub pending_candidate_count : ℕ

-- What one update meets: the system time in seconds (one before 1970 counts as 0, and is implausible
-- too), whether SNTP completed since the last one, the monotonic clock where the candidate is taken,
-- where the last persisting is compared, and where it is noted, and whether the preferences open and
-- take the time.
pub record Sample : Type 0 where
  pub now : ℕ
  pub completed : Bool
  pub monotonic_ms : ℕ
  pub persist_check_ms : ℕ
  pub persist_done_ms : ℕ
  pub preferences_open : Bool
  pub put_works : Bool

-- The service after `begin`, with the persisted time, or 0 where there is none.
abbrev pub begin : ℕ → ClockService
begin persisted = record {
  synchronized = false;
  sntp_confirmed = false;
  last_trusted_utc_ms = persisted;
  persisted_trusted_utc_ms = persisted;
  last_sync_monotonic_ms = 0;
  last_persist_monotonic_ms = 0;
  pending_candidate_utc_ms = 0;
  pending_candidate_monotonic_ms = 0;
  sync_count = 0;
  pending_candidate_count = 0;
}

unfoldable pub plausible : Sample → Bool
plausible sample = leb 1704067200 sample.now

unfoldable pub candidate_utc_ms : Sample → ℕ
unfolding plausible
candidate_utc_ms sample = if plausible sample then u64 (sample.now * 1000) else 0

-- The pending candidate becomes this one.
unfoldable pub confirming : ClockService → Sample → ClockService
unfolding candidates_consistent candidate_utc_ms
confirming c sample = record c {
  pending_candidate_count =
      if candidates_consistent c.pending_candidate_utc_ms c.pending_candidate_monotonic_ms
        (candidate_utc_ms sample) sample.monotonic_ms
      then u8 (c.pending_candidate_count + 1)
      else 1;
  pending_candidate_utc_ms = candidate_utc_ms sample;
  pending_candidate_monotonic_ms = sample.monotonic_ms;
}

unfoldable pub accepting : ClockService → Sample → ClockService
accepting c sample = record c {
  sntp_confirmed = true;
  last_sync_monotonic_ms = sample.monotonic_ms;
  sync_count = u32 (c.sync_count + 1);
  pending_candidate_utc_ms = 0;
  pending_candidate_monotonic_ms = 0;
  pending_candidate_count = 0;
}

unfoldable pub revoking : ClockService → ClockService
revoking c = record c { sntp_confirmed = false }

unfoldable pub confirmed : ClockService → Sample → ClockService
unfolding accepting revoking
confirmed pending sample =
    if leb required_consistent_samples pending.pending_candidate_count
    then accepting pending sample
    else revoking pending

unfoldable pub classified : CandidateDisposition → ClockService → Sample → ClockService
unfolding accepting revoking confirming confirmed plausible
classified reject_implausible c sample = revoking c
classified require_confirmation c sample = confirmed (confirming c sample) sample
classified accept c sample = if plausible sample then accepting c sample else c

-- The persisting of a trusted time, once in an hour.
unfoldable pub persisting : ClockService → Sample → ClockService
persisting c sample =
    if c.last_persist_monotonic_ms == 0
      || leb (u64 (c.last_persist_monotonic_ms + 3600000)) sample.persist_check_ms
    then record c {
      persisted_trusted_utc_ms =
          if sample.preferences_open && sample.put_works
          then c.last_trusted_utc_ms
          else c.persisted_trusted_utc_ms;
      last_persist_monotonic_ms = sample.persist_done_ms;
    }
    else c

unfoldable pub publishing : ClockService → Sample → ClockService
unfolding plausible persisting
publishing c sample =
    if plausible sample && c.sntp_confirmed
    then persisting
        (record c { synchronized = true; last_trusted_utc_ms = u64 (sample.now * 1000) }) sample
    else record c { synchronized = false }

-- `build_utc_ms` is BUILD_UNIX_SECONDS * 1000, which the build generates.
unfoldable pub sampled :
    (build_utc_ms : ℕ) (completed : Bool) → ClockService → Sample → ClockService
unfolding classify_candidate candidate_utc_ms classified
sampled build_utc_ms false c sample = c
sampled build_utc_ms true c sample =
    classified (classify_candidate (candidate_utc_ms sample) c.last_trusted_utc_ms build_utc_ms) c
      sample

unfoldable pub update : (build_utc_ms : ℕ) → ClockService → Sample → ClockService
unfolding sampled publishing
update build_utc_ms c sample = publishing (sampled build_utc_ms sample.completed c sample) sample

unfoldable pub utc_ms : ClockService → (now : ℕ) → ℕ
utc_ms c now = if c.synchronized then u64 (now * 1000) else 0
