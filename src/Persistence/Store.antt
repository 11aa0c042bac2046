-- ===== src/Persistence/Store.antt =====
-- src/config/AtomicConfigStore.cpp: loading, committing and rolling back, over a store that may fail.
pub mod Views
pub mod Choice
pub mod Ends
pub mod Recovery
pub mod Success
use power_monitor_sensor.Common.{
  ℕ, ◌+◌, ◌-◌, ◌^◌, max, Bool, true, false, not, ◌&&◌, ◌||◌, Option, none, some, List, [], ◌∷◌, ltb,
  leb, ◌==◌, length, is_empty, if◌then◌else◌,
}
use power_monitor_sensor.Common.Texts.{text_eq}
use power_monitor_sensor.Persistence.Records.{
  Slot, a, b, slot_code, encode_record, decode_record, encode_marker, decode_marker,
  maximum_payload_size,
}

-- What becomes of a write or an erasure: it takes effect; it is refused; it is refused and the old
-- value is gone; or it is reported to have worked and has changed nothing.
pub data Outcome : Type 0 where
  done refused lost ignored : Outcome

-- The three values of the keys, and the outcomes of the operations to come, `done` from the end of
-- the list on. A loss of power is a list that refuses all the rest.
pub record BlobStore : Type 0 where
  pub slot_a : Option (List ℕ)
  pub slot_b : Option (List ℕ)
  pub active : Option (List ℕ)
  pub outcomes : List Outcome

pub data Key : Type 0 where
  key_a key_b key_active : Key

abbrev pub slot_key : Slot → Key
slot_key a = key_a
slot_key b = key_b

abbrev pub read : BlobStore → Key → Option (List ℕ)
read s key_a = s.slot_a
read s key_b = s.slot_b
read s key_active = s.active

abbrev pub put : BlobStore → Key → Option (List ℕ) → BlobStore
put s key_a value = record s { slot_a = value }
put s key_b value = record s { slot_b = value }
put s key_active value = record s { active = value }

abbrev pub next_outcome : List Outcome → Outcome
next_outcome [] = done
next_outcome (outcome ∷ outcomes) = outcome

abbrev pub later_outcomes : List Outcome → List Outcome
later_outcomes [] = []
later_outcomes (outcome ∷ outcomes) = outcomes

abbrev pub consume : BlobStore → BlobStore
consume s = record s { outcomes = later_outcomes s.outcomes }

unfoldable pub write : BlobStore → Key → List ℕ → BlobStore × Bool
write s key value = elim (next_outcome s.outcomes) [
  | done ↦ (put (consume s) key (some value), true)
  | refused ↦ (consume s, false)
  | lost ↦ (put (consume s) key none, false)
  | ignored ↦ (consume s, true)
]

unfoldable pub erase : BlobStore → Key → BlobStore
erase s key = elim (next_outcome s.outcomes) [
  | done ↦ put (consume s) key none
  | refused ↦ consume s
  | lost ↦ put (consume s) key none
  | ignored ↦ consume s
]

abbrev pub holds : Option (List ℕ) → List ℕ → Bool
holds none value = false
holds (some stored) value = text_eq stored value

unfoldable pub write_verified : BlobStore → Key → List ℕ → BlobStore × Bool
write_verified s key encoded =
    let (written, reported) = write s key encoded in
    if not reported then (written, false) else (written, holds (read written key) encoded)

-- A slot's generation and payload, if it is valid.
unfoldable pub decoded : Option (List ℕ) → Option (ℕ × List ℕ)
decoded none = none
decoded (some encoded) = decode_record encoded

unfoldable pub marked : Option (List ℕ) → Option (Slot × ℕ)
marked none = none
marked (some encoded) = decode_marker encoded

pub record LoadResult : Type 0 where
  pub recovered_fallback : Bool
  pub slot : Slot
  pub generation : ℕ
  pub payload : List ℕ

abbrev pub loaded : Bool → Slot → Option (ℕ × List ℕ) → Option LoadResult
loaded fallback slot none = none
loaded fallback slot (some (generation, payload)) = some (record {
  recovered_fallback = fallback;
  slot = slot;
  generation = generation;
  payload = payload;
})

abbrev pub generation_of : Option (ℕ × List ℕ) → ℕ
generation_of none = 0
generation_of (some (generation, payload)) = generation

abbrev pub is_valid : Option (ℕ × List ℕ) → Bool
is_valid none = false
is_valid (some slot) = true

unfoldable pub newest_valid : Option (ℕ × List ℕ) → Option (ℕ × List ℕ) → Option LoadResult
newest_valid in_a in_b =
    if not (is_valid in_a)
    then loaded true b in_b
    else (if not (is_valid in_b) || leb (generation_of in_b) (generation_of in_a)
        then loaded true a in_a
        else loaded true b in_b)

abbrev pub in_slot : Slot → Option (ℕ × List ℕ) → Option (ℕ × List ℕ) → Option (ℕ × List ℕ)
in_slot a in_a in_b = in_a
in_slot b in_a in_b = in_b

-- `loadActive` once the three values are decoded.
unfoldable pub select :
    Option (ℕ × List ℕ) → Option (ℕ × List ℕ) → Option (Slot × ℕ) → Option LoadResult
unfolding newest_valid
select in_a in_b none = newest_valid in_a in_b
select in_a in_b (some (slot, generation)) =
    let content = in_slot slot in_a in_b in
    if is_valid content && generation_of content == generation
    then loaded false slot content
    else newest_valid in_a in_b

unfoldable pub load_active : BlobStore → Option LoadResult
load_active s = select (decoded s.slot_a) (decoded s.slot_b) (marked s.active)

abbrev pub other : Slot → Slot
other a = b
other b = a

-- The slot that a commit overwrites.
abbrev pub target_slot : Option LoadResult → Slot
target_slot none = a
target_slot (some current) = other current.slot

abbrev pub same_slot : Slot → Slot → Bool
same_slot x y = slot_code x == slot_code y

abbrev pub is_loaded : Option LoadResult → Slot → ℕ → List ℕ → Bool
is_loaded none slot generation payload = false
is_loaded (some r) slot generation payload =
    same_slot r.slot slot && r.generation == generation && text_eq r.payload payload

abbrev pub is_content : Option (ℕ × List ℕ) → ℕ → List ℕ → Bool
is_content none generation payload = false
is_content (some (g, p)) generation payload = g == generation && text_eq p payload

-- After a commit that cannot be loaded: the previous marker, or none.
unfoldable pub restore_marker : BlobStore → Option LoadResult → BlobStore
restore_marker s none = erase s key_active
restore_marker s (some current) =
    (write_verified s key_active (encode_marker current.slot current.generation)).0

-- The end of `commit`, behind the write of the marker.
unfoldable pub verify_commit :
    BlobStore → Option LoadResult → Slot → ℕ → List ℕ → BlobStore × Option (Slot × ℕ)
verify_commit s current target generation payload =
    if is_loaded (load_active s) target generation payload
    then (s, some (target, generation))
    else (restore_marker (erase s (slot_key target)) current, none)

unfoldable pub commit_marker :
    BlobStore → Option LoadResult → Slot → ℕ → List ℕ → BlobStore × Option (Slot × ℕ)
commit_marker s current target generation payload =
    let (written, is_marked) = write_verified s key_active (encode_marker target generation) in
    if not is_marked
    then (erase written (slot_key target), none)
    else verify_commit written current target generation payload

unfoldable pub commit_slot :
    BlobStore → Option LoadResult → Slot → ℕ → List ℕ → BlobStore × Option (Slot × ℕ)
commit_slot s current target generation payload =
    let (written, is_written) =
      write_verified s (slot_key target) (encode_record generation payload) in
    if not is_written
      || not (is_content (decoded (read written (slot_key target))) generation payload)
    then (erase written (slot_key target), none)
    else commit_marker written current target generation payload

-- The result is that of the code's CommitResult, `none` where it returns false.
unfoldable pub commit : BlobStore → List ℕ → BlobStore × Option (Slot × ℕ)
commit s payload =
    let current = load_active s in
    let largest = max (generation_of (decoded s.slot_a)) (generation_of (decoded s.slot_b)) in
    let committed = commit_slot s current (target_slot current) (largest + 1) payload in
    if is_empty payload || ltb maximum_payload_size (length payload) || largest == 2 ^ 64 - 1
    then (s, none)
    else committed

-- The slot that is not `current`'s.
abbrev pub other_content : BlobStore → LoadResult → Option (ℕ × List ℕ)
other_content s current = decoded (read s (slot_key (other current.slot)))

abbrev pub load_previous_of : BlobStore → ℕ → Option LoadResult → Option LoadResult
load_previous_of s expected_current_generation none = none
load_previous_of s expected_current_generation (some current) =
    let content = other_content s current in
    if not (current.generation == expected_current_generation)
      || not (is_valid content)
      || leb current.generation (generation_of content)
    then none
    else loaded false (other current.slot) content

unfoldable pub load_previous : BlobStore → ℕ → Option LoadResult
load_previous s expected_current_generation =
    load_previous_of s expected_current_generation (load_active s)

-- The store, and the result where the code returns true.
abbrev pub rollback_to : BlobStore → Option LoadResult → BlobStore × Option LoadResult
rollback_to s none = (s, none)
rollback_to s (some previous) =
    let (written, is_written) =
      write_verified s key_active (encode_marker previous.slot previous.generation) in
    let result = load_active written in
    if is_written && is_loaded result previous.slot previous.generation previous.payload
    then (written, result)
    else (written, none)

unfoldable pub rollback_to_previous : BlobStore → ℕ → BlobStore × Option LoadResult
rollback_to_previous s expected_current_generation =
    rollback_to s (load_previous s expected_current_generation)
