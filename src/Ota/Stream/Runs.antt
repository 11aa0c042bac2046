-- ===== src/Ota/Stream/Runs.antt =====
-- src/ota/OtaUpdatePolicy.cpp, StreamTracker: which downloads end well: the tracker against a description of the whole run of events.
use power_monitor_sensor.Common.{
  ℕ, ◌+◌, ◌^◌, ◌≤◌, ◌<◌, ◌≡◌, refl, ◌↔◌, inl, inr, Bool, true, false, ◌&&◌, List, [], ◌∷◌, arith,
  Bool-cases,
}
use power_monitor_sensor.Ota.Stream.{
  intact, StreamTracker, new_tracker, accept, finish, Event, chunk, timed_out, connection_lost,
  on_event, feed,
}

-- The bytes of a run, and whether it is of chunks that were all written.
abbrev pub total : List Event → ℕ
total [] = 0
total (chunk bytes written ∷ es) = bytes + total es
total (timed_out ∷ es) = total es
total (connection_lost ∷ es) = total es

abbrev pub all_written : List Event → Bool
all_written [] = true
all_written (chunk bytes written ∷ es) = written && all_written es
all_written (timed_out ∷ es) = false
all_written (connection_lost ∷ es) = false

-- Nothing mends a failed tracker.
feed-failed : (t : StreamTracker) (es : List Event) → intact t.failure ≡ false → feed t es ≡ t
unfolding feed on_event
feed-failed t [] h = refl
feed-failed t (e ∷ es) h = rw (unchanged e) (feed-failed t es h)
  where
    unchanged : (e : Event) → on_event t e ≡ t
    unchanged (chunk bytes written) = ground arith
    unchanged timed_out = ground arith
    unchanged connection_lost = ground arith

-- What a run does to an intact tracker: it stays intact exactly if all is written and fits.
record Fed (t u : StreamTracker) (es : List Event) : Type 0 where
  good :
      intact u.failure ≡ true
      → (all_written es ≡ true)
        × (u.received ≡ t.received + total es)
        × (t.received + total es ≤ t.expected_size)
  full : all_written es ≡ true → t.received + total es ≤ t.expected_size → intact u.failure ≡ true
  size : u.expected_size ≡ t.expected_size

chunk-Fed :
    (t : StreamTracker) (bytes : ℕ) (written : Bool)
    → intact t.failure ≡ true
    → t.received ≤ t.expected_size
    → t.expected_size < 2 ^ 32
    → Fed t (accept t bytes written).0 (chunk bytes written ∷ [])
unfolding accept
chunk-Fed t bytes written ok le small = ground arith

-- The tracker behind the first event, and the rest of the run.
Fed-cons :
    (t : StreamTracker) (bytes : ℕ) (written : Bool) (es : List Event) (v u : StreamTracker)
    → Fed t v (chunk bytes written ∷ [])
    → (intact v.failure ≡ true → Fed v u es)
    → (intact v.failure ≡ false → u ≡ v)
    → Fed t u (chunk bytes written ∷ es)
Fed-cons t bytes written es v u first rest stuck = elim (Bool-cases (intact v.failure)) [
  | inl good ↦ ground (arith, rest good, first)
  | inr failed ↦ ground (arith, stuck failed, first)
]

aborted-Fed :
    (t u : StreamTracker) (e : Event) (es : List Event)
    → all_written (e ∷ es) ≡ false
    → intact u.failure ≡ false
    → u.expected_size ≡ t.expected_size
    → Fed t u (e ∷ es)
aborted-Fed t u e es w h k = record {
  good = λ g. ground arith;
  full = λ a b. ground arith;
  size = k;
}

feed-Fed :
    (t : StreamTracker) (es : List Event)
    → intact t.failure ≡ true
    → t.received ≤ t.expected_size
    → t.expected_size < 2 ^ 32
    → Fed t (feed t es) es
unfolding feed on_event
feed-Fed t [] ok le small = record {
  good = λ g. (refl, omega arith, omega arith);
  full = λ a b. ok;
  size = refl;
}
feed-Fed t (chunk bytes written ∷ es) ok le small =
    let first = chunk-Fed t bytes written ok le small in
    let v = (accept t bytes written).0 in
    Fed-cons t bytes written es v (feed v es) first
      (λ good.
        feed-Fed v es good (omega (arith, first.good good, first.size)) (omega (arith, first.size)))
      (λ failed. feed-failed v es failed)
feed-Fed t (timed_out ∷ es) ok le small = ground (arith, feed-failed (on_event t timed_out) es)
feed-Fed t (connection_lost ∷ es) ok le small =
    ground (arith, feed-failed (on_event t connection_lost) es)

finish-intact :
    (t : StreamTracker) (sha extra : Bool)
    → ((finish t sha extra).1 ≡ true) ↔ (
        (intact t.failure ≡ true) × (t.received ≡ t.expected_size) × (sha ≡ true) × (extra ≡ false))
unfolding finish
finish-intact t sha extra = ground arith

-- A download of `size` bytes ends well exactly if every event was a chunk that was written to the
-- partition, the chunks add up to `size`, the digest matches and no bytes follow.
pub stream_completes :
    (size : ℕ) (es : List Event) (sha extra : Bool)
    → size < 2 ^ 32
    → ((finish (feed (new_tracker size) es) sha extra).1 ≡ true)
      ↔ ((all_written es ≡ true) × (total es ≡ size) × (sha ≡ true) × (extra ≡ false))
stream_completes size es sha extra small =
    let fed = feed-Fed (new_tracker size) es refl (omega arith) small in
    let ended = finish-intact (feed (new_tracker size) es) sha extra in
    (
      λ h. ground (arith, ended.0 h, fed.good (ended.0 h).0, fed.size),
      λ h.
          let good = fed.full h.0 (omega (arith, h.1)) in
          ended.1 (good, omega (arith, (fed.good good).1, fed.size, h.1), h.2, h.3),
    )
