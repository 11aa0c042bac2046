-- ===== src/Persistence/Store/Success.antt =====
-- src/config/AtomicConfigStore.cpp: a commit when every operation of the store works.
use power_monitor_sensor.Common.{
  ℕ, ◌+◌, ◌-◌, ◌^◌, ◌≤◌, ◌<◌, ◌≡◌, refl, ◌∙◌, inl, inr, true, false, ◌||◌, Option, some, List, [],
  arith, ltb, ◌==◌, length,
}
use power_monitor_sensor.Common.Texts.{text_eq_refl}
use power_monitor_sensor.Persistence.Records.{
  Slot, encode_record, encode_marker, maximum_payload_size,
}
use power_monitor_sensor.Persistence.Store.{
  BlobStore, Key, key_a, key_b, key_active, slot_key, write, write_verified, LoadResult,
  load_active, other, target_slot, is_content, verify_commit, commit_marker, commit_slot, commit,
}
use power_monitor_sensor.Persistence.Store.Views.{
  content, marker, slot_written, marker_written, marker_written-same,
}
use power_monitor_sensor.Persistence.Store.Choice.{found, choose_marked}
use power_monitor_sensor.Persistence.Store.Ends.{
  load_at, Ends, is_loaded_written, largest_generation, IsStorable, generation_small, storable-Ends,
}

-- A write that takes effect is verified, and so is the next one.
write_works :
    (s : BlobStore) (key : Key) (value : List ℕ)
    → s.outcomes ≡ []
    → ((write_verified s key value).1 ≡ true) × ((write_verified s key value).0.outcomes ≡ [])
unfolding write_verified write
write_works s key_a value e = ground (arith, text_eq_refl value)
write_works s key_b value e = ground (arith, text_eq_refl value)
write_works s key_active value e = ground (arith, text_eq_refl value)

commit_slot_works :
    (generation : ℕ) (payload : List ℕ)
    → 0 < generation
    → generation < 2 ^ 64
    → length payload ≤ maximum_payload_size
    → (s : BlobStore) (current : Option LoadResult) (target : Slot) → s.outcomes ≡ []
    → (commit_slot s current target generation payload).1 ≡ some (target, generation)
unfolding commit_slot commit_marker verify_commit
commit_slot_works generation payload positive small short s current target e =
    let w = write_verified s (slot_key target) (encode_record generation payload) in
    let first = write_works s (slot_key target) (encode_record generation payload) e in
    let stored : content w.0 target ≡ some (generation, payload) =
      ground (arith, slot_written generation payload positive small short s target) in
    let right : is_content (content w.0 target) generation payload ≡ true =
      rw stored (ground (arith, text_eq_refl payload)) in
    let v = write_verified w.0 key_active (encode_marker target generation) in
    let second = write_works w.0 key_active (encode_marker target generation) first.1 in
    let told : marker v.0 ≡ some (target, generation) =
      ground (arith, marker_written generation payload positive small w.0 target) in
    let fits =
      is_loaded_written generation payload positive small short v.0 target
        (marker_written-same w.0 target (encode_marker target generation) ∙ stored) told in
    rw (first.0, right, second.0, fits) refl

answered :
    (s : BlobStore) (payload : List ℕ)
    → s.outcomes ≡ []
    → IsStorable s payload
    → (commit s payload).1 ≡ some (target_slot (load_active s), largest_generation s + 1)
unfolding commit
answered s payload e (filled, short, room) =
    rw (filled, test_false)
      (commit_slot_works (largest_generation s + 1) payload (omega arith) (generation_small s room)
        short s (load_active s) (target_slot (load_active s)) e)
  where
    test_false :
        (ltb maximum_payload_size (length payload) || largest_generation s == 2 ^ 64 - 1) ≡ false
    test_false = ground arith

found_marked :
    (s : BlobStore) (target : Slot) (generation : ℕ) (payload : List ℕ)
    → content s target ≡ some (generation, payload)
    → marker s ≡ some (target, generation)
    → found (load_active s) ≡ some (target, generation, payload)
found_marked s target generation payload stored told =
    rw
      (
        load_at s target,
        stored,
        told,
        choose_marked target (content s (other target)) generation payload,
      )
      refl

-- A commit of a payload of a legal size, with a generation left and every operation of the store
-- working, answers, and what is loaded from then on is that payload with the next generation.
pub commit_works :
    (s : BlobStore) (payload : List ℕ)
    → s.outcomes ≡ []
    → IsStorable s payload
    → ((commit s payload).1 ≡ some (target_slot (load_active s), largest_generation s + 1))
      × (found (load_active (commit s payload).0)
          ≡ some (target_slot (load_active s), largest_generation s + 1, payload))
commit_works s payload e storable =
    (answered s payload e storable, loads (storable-Ends s payload storable))
  where
    loads :
        Ends s (commit s payload) (target_slot (load_active s)) (largest_generation s + 1) payload
        → found (load_active (commit s payload).0)
          ≡ some (target_slot (load_active s), largest_generation s + 1, payload)
    loads (same, inr (unanswered, left)) = let answer = answered s payload e storable in cc
    loads (same, inl (given, stored, told)) =
        found_marked (commit s payload).0 (target_slot (load_active s)) (largest_generation s + 1)
          payload stored told
