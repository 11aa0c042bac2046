-- ===== src/Persistence/Store/Choice.antt =====
-- src/config/AtomicConfigStore.cpp: which slot is loaded while a commit is under way.
use power_monitor_sensor.Common.{ℕ, ◌<◌, ◌≡◌, ◌⊎◌, false, Option, none, some, List, arith}
use power_monitor_sensor.Persistence.Records.{Slot, a, b}
use power_monitor_sensor.Persistence.Store.{
  LoadResult, generation_of, loaded, newest_valid, select, target_slot,
}

-- What is loaded, whichever way it was chosen.
abbrev pub found : Option LoadResult → Option (Slot × ℕ × List ℕ)
found none = none
found (some r) = some (r.slot, r.generation, r.payload)

-- `select`, with the slot to be written before the other one.
abbrev pub select_at :
    Slot → Option (ℕ × List ℕ) → Option (ℕ × List ℕ) → Option (Slot × ℕ) → Option LoadResult
select_at a in_target in_other marker = select in_target in_other marker
select_at b in_target in_other marker = select in_other in_target marker

-- The contents of the slot to be written and of the marker that a commit may leave.
abbrev pub MayLeave :
    Slot
    → ℕ
    → List ℕ
    → Option (ℕ × List ℕ)
    → Option (Slot × ℕ)
    → Option (ℕ × List ℕ)
    → Option (Slot × ℕ)
    → Type 0
MayLeave target generation payload in_target marker in_target' marker' =
    ((marker' ≡ marker)
      × ((in_target' ≡ in_target)
          ⊎ ((in_target' ≡ none) ⊎ (in_target' ≡ some (generation, payload)))))
    ⊎ (((in_target' ≡ none) ⊎ (in_target' ≡ some (generation, payload)))
        × ((marker' ≡ none) ⊎ (marker' ≡ some (target, generation))))

-- The loaded value stays, or is the new one.
abbrev pub OldOrNew : Slot → ℕ → List ℕ → Option LoadResult → Option LoadResult → Type 0
OldOrNew target generation payload before after =
    (found after ≡ found before) ⊎ (found after ≡ some (target, generation, payload))

choose_a :
    (in_target in_other in_target' : Option (ℕ × List ℕ)) (marker marker' : Option (Slot × ℕ))
    (generation : ℕ) (payload : List ℕ)
    → target_slot (select_at a in_target in_other marker) ≡ a
    → generation_of in_target < generation
    → generation_of in_other < generation
    → MayLeave a generation payload in_target marker in_target' marker'
    → OldOrNew a generation payload
        (select_at a in_target in_other marker)
        (select_at a in_target' in_other marker')
unfolding select newest_valid
choose_a in_target none in_target' none marker' generation payload t lt lo m = ground arith
choose_a in_target none in_target' (some (a, g)) marker' generation payload t lt lo m = ground arith
choose_a in_target none in_target' (some (b, g)) marker' generation payload t lt lo m = ground arith
choose_a in_target (some o) in_target' none marker' generation payload t lt lo m = ground arith
choose_a in_target (some o) in_target' (some (a, g)) marker' generation payload t lt lo m =
    ground arith
choose_a in_target (some o) in_target' (some (b, g)) marker' generation payload t lt lo m =
    ground arith

choose_b :
    (in_target in_other in_target' : Option (ℕ × List ℕ)) (marker marker' : Option (Slot × ℕ))
    (generation : ℕ) (payload : List ℕ)
    → target_slot (select_at b in_target in_other marker) ≡ b
    → generation_of in_target < generation
    → generation_of in_other < generation
    → MayLeave b generation payload in_target marker in_target' marker'
    → OldOrNew b generation payload
        (select_at b in_target in_other marker)
        (select_at b in_target' in_other marker')
unfolding select newest_valid
choose_b in_target none in_target' none marker' generation payload t lt lo m = ground arith
choose_b in_target none in_target' (some (a, g)) marker' generation payload t lt lo m = ground arith
choose_b in_target none in_target' (some (b, g)) marker' generation payload t lt lo m = ground arith
choose_b in_target (some o) in_target' none marker' generation payload t lt lo m = ground arith
choose_b in_target (some o) in_target' (some (a, g)) marker' generation payload t lt lo m =
    ground arith
choose_b in_target (some o) in_target' (some (b, g)) marker' generation payload t lt lo m =
    ground arith

pub choose :
    (target : Slot) (in_target in_other in_target' : Option (ℕ × List ℕ))
    (marker marker' : Option (Slot × ℕ)) (generation : ℕ) (payload : List ℕ)
    → target_slot (select_at target in_target in_other marker) ≡ target
    → generation_of in_target < generation
    → generation_of in_other < generation
    → MayLeave target generation payload in_target marker in_target' marker'
    → OldOrNew target generation payload
        (select_at target in_target in_other marker)
        (select_at target in_target' in_other marker')
choose a = choose_a
choose b = choose_b

-- A marked slot with the marker's generation is loaded.
pub choose_marked :
    (target : Slot) (in_other : Option (ℕ × List ℕ)) (generation : ℕ) (payload : List ℕ)
    → select_at target (some (generation, payload)) in_other (some (target, generation))
      ≡ loaded false target (some (generation, payload))
unfolding select
choose_marked a in_other generation payload = ground arith
choose_marked b in_other generation payload = ground arith
