-- ===== src/Leases/Exclusive.antt =====
-- include/api/StatusResponsePool.h: a leased slot is not leased again before its release.
use power_monitor_sensor.Common.{
  ℕ, zero, suc, ◌≡◌, refl, sym, ap, ◌∙◌, ◌≢◌, Bool, true, false, not, ◌||◌, Option, none, some,
  List, [], ◌∷◌, arith, ◌==◌, get_elem?, set, Bool-cases, Option-cases, inl, inr, All,
}
use power_monitor_sensor.Leases.{
  Slot, StatusResponsePool, Lease, first_free, acquire, release_slot, release, Call, acquire_call,
  release_call, apply, apply_all,
}

-- The lease's slot is in use, by this lease.
abbrev Held : StatusResponsePool → Lease → Type 0
Held pool lease =
    get_elem? pool.slots lease.index
    ≡ some (record { in_use = true; generation = lease.generation })

set_other :
    (slots : List Slot) (i j : ℕ) (slot : Slot)
    → i ≢ j
    → get_elem? (set slots i slot) j ≡ get_elem? slots j
set_other [] i j slot n = refl
set_other (first ∷ slots) zero zero slot n = absurd (n refl)
set_other (first ∷ slots) zero (suc j) slot n = refl
set_other (first ∷ slots) (suc i) zero slot n = refl
set_other (first ∷ slots) (suc i) (suc j) slot n = set_other slots i j slot (λ e. n (ap suc e))

-- The slot that is given out is one of the slots, and not in use.
free_unused :
    (slots : List Slot) (index : ℕ)
    → first_free slots ≡ some index
    → (slot : Slot) × (get_elem? slots index ≡ some slot) × (slot.in_use ≡ false)
unfolding first_free
free_unused [] index h = cc
free_unused (first ∷ slots) index h = elim (Bool-cases first.in_use) [
  | inr free ↦ at_zero index (rw free at h) free
  | inl busy ↦ elim (Option-cases (first_free slots)) [
    | inl full ↦ let wrong = (rw (busy, full) at h) in cc
    | inr (place, found) ↦
        at_suc place index (rw (busy, found) at h) (free_unused slots place found)
  ]
]
  where
    at_zero :
        (index : ℕ)
        → some 0 ≡ some index
        → first.in_use ≡ false
        → (slot : Slot) × (get_elem? (first ∷ slots) index ≡ some slot) × (slot.in_use ≡ false)
    at_zero zero e free = (first, refl, free)
    at_zero (suc index) e free = let wrong : 0 ≡ suc index = cc in absurd (omega arith)

    at_suc :
        (place index : ℕ)
        → some (suc place) ≡ some index
        → ((slot : Slot) × (get_elem? slots place ≡ some slot) × (slot.in_use ≡ false))
        → (slot : Slot) × (get_elem? (first ∷ slots) index ≡ some slot) × (slot.in_use ≡ false)
    at_suc place zero e found = let wrong : suc place ≡ 0 = cc in absurd (omega arith)
    at_suc place (suc index) e (slot, there, free) =
        let same : place ≡ index = cc in
        (slot, ap (λ (n : ℕ). get_elem? slots n) (sym same) ∙ there, free)

set_self :
    (slots : List Slot) (i : ℕ) (old new : Slot)
    → get_elem? slots i ≡ some old
    → get_elem? (set slots i new) i ≡ some new
set_self [] i old new h = cc
set_self (first ∷ slots) zero old new h = refl
set_self (first ∷ slots) (suc i) old new h = set_self slots i old new h

abbrev is_used : Option Slot → Bool
is_used none = false
is_used (some slot) = slot.in_use

abbrev version_of : Option Slot → ℕ
version_of none = 0
version_of (some slot) = slot.generation

-- A slot that is free is not the leased one.
apart :
    (slots : List Slot) (index : ℕ) (slot : Slot) (pool : StatusResponsePool) (lease : Lease)
    → pool.slots ≡ slots
    → get_elem? slots index ≡ some slot
    → slot.in_use ≡ false
    → Held pool lease
    → index ≢ lease.index
apart slots index slot pool lease same there free held e =
    let used : is_used (get_elem? slots index) ≡ true = rw (e, sym same, held) refl in
    let unused : is_used (get_elem? slots index) ≡ false = rw there free in cc

-- The call does not release this lease.
abbrev pub Keeps : Lease → Call → Type 0
Keeps lease acquire_call = Unit
Keeps lease (release_call other) = other.index ≡ lease.index → other.generation ≢ lease.generation

acquire-Held :
    (pool : StatusResponsePool) (lease : Lease) → Held pool lease → Held (acquire pool).0 lease
unfolding acquire
acquire-Held pool lease held = elim (Option-cases (first_free pool.slots)) [
  | inl full ↦ rw (acquire, full) held
  | inr (index, found) ↦
      let (slot, there, free) = free_unused pool.slots index found in
      let elsewhere = apart pool.slots index slot pool lease refl there free held in
      rw (acquire, found) (set_other pool.slots index lease.index _ elsewhere ∙ held)
]

release-Held :
    (pool : StatusResponsePool) (lease other : Lease)
    → Keeps lease (release_call other)
    → Held pool lease
    → Held (release pool other) lease
unfolding release release_slot
release-Held pool lease other keeps held = elim (Option-cases (get_elem? pool.slots other.index)) [
  | inl outside ↦ rw outside held
  | inr (slot, there) ↦
      elim (Bool-cases (not (slot.generation == other.generation) || not slot.in_use)) [
        | inl stale ↦ rw (there, stale) held
        | inr current ↦
            let elsewhere : other.index ≢ lease.index = λ (e : other.index ≡ lease.index).
              let here : version_of (get_elem? pool.slots other.index) ≡ lease.generation =
                rw (e, held) refl in
              let stands : version_of (get_elem? pool.slots other.index) ≡ slot.generation =
                rw there refl in
              let equal : slot.generation ≡ other.generation = ground arith in
              keeps e (omega arith) in
            rw (there, current) (set_other pool.slots other.index lease.index _ elsewhere ∙ held)
      ]
]

apply_all-Held :
    (pool : StatusResponsePool) (lease : Lease) (calls : List Call)
    → All (Keeps lease) calls
    → Held pool lease
    → Held (apply_all pool calls) lease
unfolding apply_all apply
apply_all-Held pool lease [] keeps held = held
apply_all-Held pool lease (acquire_call ∷ calls) keeps held =
    apply_all-Held (acquire pool).0 lease calls keeps.1 (acquire-Held pool lease held)
apply_all-Held pool lease (release_call other ∷ calls) keeps held =
    apply_all-Held (release pool other) lease calls keeps.1
      (release-Held pool lease other keeps.0 held)

index_of : Option Lease → ℕ
index_of none = 0
index_of (some lease) = lease.index

generation_of : Option Lease → ℕ
generation_of none = 0
generation_of (some lease) = lease.generation

stored :
    (slots : List Slot) (index : ℕ) (slot : Slot) (lease : Lease) (generation : ℕ)
    → get_elem? slots index ≡ some slot
    → some (record { index = index; generation = generation }) ≡ some lease
    → get_elem? (set slots index (record { in_use = true; generation = generation })) lease.index
      ≡ some (record { in_use = true; generation = lease.generation })
unfolding index_of generation_of
stored slots index slot lease generation there e =
    let place : index ≡ lease.index = ap index_of e in
    let version : generation ≡ lease.generation = ap generation_of e in
    rw (sym place, sym version) (set_self slots index slot _ there)

acquired-Held :
    (pool : StatusResponsePool) (lease : Lease)
    → (acquire pool).1 ≡ some lease
    → Held (acquire pool).0 lease
unfolding acquire
acquired-Held pool lease h = elim (Option-cases (first_free pool.slots)) [
  | inl full ↦ let wrong = (rw (acquire, full) at h) in cc
  | inr (index, found) ↦
      let (slot, there, free) = free_unused pool.slots index found in
      let given = (rw (acquire, found) at h) in
      rw (acquire, found) (stored pool.slots index slot lease _ there given)
]

-- A leased slot is not leased again: after `acquire` has given a lease, and after any calls none of
-- which releases that lease, the next lease is of another slot. A release with an old generation
-- of the slot may be among those calls.
pub leased_once :
    (pool : StatusResponsePool) (lease next : Lease) (calls : List Call)
    → (acquire pool).1 ≡ some lease
    → All (Keeps lease) calls
    → (acquire (apply_all (acquire pool).0 calls)).1 ≡ some next
    → next.index ≢ lease.index
unfolding index_of acquire
leased_once pool lease next calls given keeps again =
    let later = apply_all (acquire pool).0 calls in
    let held = apply_all-Held (acquire pool).0 lease calls keeps (acquired-Held pool lease given) in
    elim (Option-cases (first_free later.slots)) [
      | inl full ↦ let wrong = (rw (acquire, full) at again) in cc
      | inr (index, found) ↦
          let (slot, there, free) = free_unused later.slots index found in
          let elsewhere = apart later.slots index slot later lease refl there free held in
          λ (e : next.index ≡ lease.index).
            elsewhere (ap index_of (rw (acquire, found) at again) ∙ e)
    ]
