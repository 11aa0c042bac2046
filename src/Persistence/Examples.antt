-- ===== src/Persistence/Examples.antt =====
-- The theorems of the configuration store at concrete stores and payloads.
use power_monitor_sensor.Common.{ℕ, ◌+◌, ◌≡◌, refl, none, some, List, [], ◌∷◌, arith}
use power_monitor_sensor.Persistence.Records.{a, encode_record, encode_marker}
use power_monitor_sensor.Persistence.Store.{
  done, refused, lost, ignored, BlobStore, load_active, target_slot, commit,
}
use power_monitor_sensor.Persistence.Store.Choice.{found, OldOrNew}
use power_monitor_sensor.Persistence.Store.Ends.{largest_generation, IsStorable}
use power_monitor_sensor.Persistence.Store.Recovery.{commit_interrupted}
use power_monitor_sensor.Persistence.Store.Success.{commit_works}

abbrev blank : BlobStore
blank = record { slot_a = none; slot_b = none; active = none; outcomes = [] }

abbrev payload : List ℕ
payload = 1 ∷ 2 ∷ 3 ∷ []

blank-IsStorable : IsStorable blank payload
unfolding power_monitor_sensor.Persistence.Store.decoded
blank-IsStorable = (refl, omega arith, omega arith)

commit_works_example :
    ((commit blank payload).1
      ≡ some (target_slot (load_active blank), largest_generation blank + 1))
    × (found (load_active (commit blank payload).0)
        ≡ some (target_slot (load_active blank), largest_generation blank + 1, payload))
commit_works_example = commit_works blank payload refl blank-IsStorable

-- The slot is written, the marker loses its old value, and the power is gone.
abbrev interrupted : BlobStore
interrupted = record {
  slot_a = some (encode_record 5 payload);
  slot_b = none;
  active = some (encode_marker a 5);
  outcomes = done ∷ lost ∷ refused ∷ [];
}

commit_interrupted_example :
    OldOrNew
      (target_slot (load_active interrupted))
      (largest_generation interrupted + 1)
      (4 ∷ [])
      (load_active interrupted)
      (load_active (commit interrupted (4 ∷ [])).0)
commit_interrupted_example = commit_interrupted interrupted (4 ∷ [])
