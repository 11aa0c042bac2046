-- ===== src/Leases.antt =====
-- include/api/StatusResponsePool.h: the slots for responses of the status page, and their leases. Each
-- call is one step here: a lease is released once, so no release of a slot runs between the two
-- atomic accesses of an acquisition of it.
pub mod Exclusive
mod Examples
use power_monitor_sensor.Common.{
  ℕ, zero, suc, ◌+◌, ◌-◌, ◌^◌, Bool, true, false, not, ◌&&◌, ◌||◌, Option, none, some, List, [],
  ◌∷◌, ◌==◌, u32, u64, get_elem?, set, if◌then◌else◌,
}

-- The body of a slot is left out: it belongs to the holder of the lease.
pub record Slot : Type 0 where
  pub in_use : Bool
  pub generation : ℕ

pub record StatusResponsePool : Type 0 where
  pub slots : List Slot
  pub active : ℕ
  pub exhaustions : ℕ

pub record Lease : Type 0 where
  pub index : ℕ
  pub generation : ℕ

unfoldable pub new_slots : ℕ → List Slot
new_slots zero = []
new_slots (suc count) = record { in_use = false; generation = 0 } ∷ new_slots count

-- The first slot whose compare_exchange_strong succeeds.
unfoldable pub first_free : List Slot → Option ℕ
first_free [] = none
first_free (slot ∷ slots) =
    let rest = first_free slots in
    if slot.in_use then elim rest [ none ↦ none | some index ↦ some (suc index) ] else some 0

abbrev pub generation_at : List Slot → ℕ → ℕ
generation_at slots index = elim (get_elem? slots index) [ none ↦ 0 | some slot ↦ slot.generation ]

unfoldable pub acquire : StatusResponsePool → StatusResponsePool × Option Lease
acquire pool = elim (first_free pool.slots) [
  | none ↦ (record pool { exhaustions = u64 (pool.exhaustions + 1) }, none)
  | some index ↦
      let generation = u32 (generation_at pool.slots index + 1) in
      (
        record pool {
          slots = set pool.slots index (record { in_use = true; generation = generation });
          active = u32 (pool.active + 1);
        },
        some (record { index = index; generation = generation }),
      )
]

-- Subtraction on a uint32.
abbrev pub one_less : ℕ → ℕ
one_less active = u32 (active + 2 ^ 32 - 1)

-- The slot at the index, if there is one, and what the release does to it.
unfoldable pub release_slot : StatusResponsePool → Lease → Option Slot → StatusResponsePool
release_slot pool lease none = pool
release_slot pool lease (some slot) =
    if not (slot.generation == lease.generation) || not slot.in_use then pool else record pool {
      slots = set pool.slots lease.index (record { in_use = false; generation = slot.generation });
      active = one_less pool.active;
    }

unfoldable pub release : StatusResponsePool → Lease → StatusResponsePool
release pool lease = release_slot pool lease (get_elem? pool.slots lease.index)

pub data Call : Type 0 where
  acquire_call : Call
  release_call : Lease → Call

unfoldable pub apply : StatusResponsePool → Call → StatusResponsePool
apply pool acquire_call = (acquire pool).0
apply pool (release_call lease) = release pool lease

unfoldable pub apply_all : StatusResponsePool → List Call → StatusResponsePool
apply_all pool [] = pool
apply_all pool (call ∷ calls) = apply_all (apply pool call) calls
