-- ===== src/Leases/Examples.antt =====
-- The theorem of the response slots at two slots.
use power_monitor_sensor.Common.{◌≡◌, ◌≢◌, refl, some, [], ◌∷◌, arith}
use power_monitor_sensor.Leases.{
  StatusResponsePool, Lease, new_slots, first_free, acquire, release_slot, release, release_call,
  acquire_call, apply, apply_all,
}
use power_monitor_sensor.Leases.Exclusive.{leased_once}

abbrev two_slots : StatusResponsePool
two_slots = record { slots = new_slots 2; active = 0; exhaustions = 0 }

abbrev first_lease : Lease
first_lease = record { index = 0; generation = 1 }

abbrev second_lease : Lease
second_lease = record { index = 1; generation = 2 }

first_given : (acquire two_slots).1 ≡ some first_lease
unfolding acquire first_free new_slots
first_given = refl

-- The other slot is leased and given back in between.
second_given :
    (acquire (
      apply_all
        (acquire two_slots).0
        (acquire_call ∷ release_call (record { index = 1; generation = 1 }) ∷ []))).1
    ≡ some second_lease
unfolding acquire first_free new_slots apply_all apply release release_slot
second_given = refl

leased_once_example : second_lease.index ≢ first_lease.index
leased_once_example =
    leased_once two_slots first_lease second_lease
      (acquire_call ∷ release_call (record { index = 1; generation = 1 }) ∷ []) first_given
      (tt, (λ e. absurd (omega arith), tt)) second_given
