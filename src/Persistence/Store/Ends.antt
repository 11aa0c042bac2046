-- ===== src/Persistence/Store/Ends.antt =====
-- src/config/AtomicConfigStore.cpp: what the store holds at the end of a commit.
use power_monitor_sensor.Common.{
  ℕ, ◌+◌, ◌-◌, ◌^◌, ◌≤◌, ◌<◌, max, ◌≡◌, refl, ◌∙◌, ◌≢◌, ◌⊎◌, inl, inr, true, false, ◌||◌, Option,
  none, some, List, arith, ltb, ◌==◌, length, is_empty, Bool-cases,
}
use power_monitor_sensor.Common.Bytes.{u64_at-lt}
use power_monitor_sensor.Common.Texts.{text_eq_refl}
use power_monitor_sensor.Persistence.Records.{
  Slot, a, b, encode_record, decode_record, encode_marker, maximum_payload_size,
}
use power_monitor_sensor.Persistence.Store.{
  BlobStore, key_active, slot_key, write_verified, decoded, LoadResult, generation_of, load_active,
  other, target_slot, is_loaded, is_content, verify_commit, commit_marker, commit_slot, commit,
}
use power_monitor_sensor.Persistence.Store.Views.{
  content, marker, slot_written, marker_written, slot_erased, SameBeside, slot_written-SameBeside,
  slot_erased-SameBeside, marker_written-same,
}
use power_monitor_sensor.Persistence.Store.Choice.{select_at, MayLeave, choose_marked}

pub load_at :
    (s : BlobStore) (target : Slot)
    → load_active s ≡ select_at target (content s target) (content s (other target)) (marker s)
unfolding load_active
load_at s a = refl
load_at s b = refl

-- What a commit to `target` in `s` may end with: the answer, with the slot and the marker written, or
-- no answer, with what it may leave of them.
abbrev pub Ends : BlobStore → BlobStore × Option (Slot × ℕ) → Slot → ℕ → List ℕ → Type 0
Ends s r target generation payload =
    (content r.0 (other target) ≡ content s (other target))
    × (((r.1 ≡ some (target, generation))
          × (content r.0 target ≡ some (generation, payload))
          × (marker r.0 ≡ some (target, generation)))
        ⊎ ((r.1 ≡ none)
            × MayLeave target generation payload (content s target) (marker s) (content r.0 target)
                (marker r.0)))

module _ (generation : ℕ) (payload : List ℕ) (positive : 0 < generation)
    (small : generation < 2 ^ 64) (short : length payload ≤ maximum_payload_size) where
  pub is_loaded_written :
      (s : BlobStore) (target : Slot)
      → content s target ≡ some (generation, payload)
      → marker s ≡ some (target, generation)
      → is_loaded (load_active s) target generation payload ≡ true
  is_loaded_written s a stored told =
      rw (load_at s a, stored, told, choose_marked a (content s b) generation payload)
        (ground (arith, text_eq_refl payload))
  is_loaded_written s b stored told =
      rw (load_at s b, stored, told, choose_marked b (content s a) generation payload)
        (ground (arith, text_eq_refl payload))

  commit_marker-Ends :
      (s written : BlobStore) (current : Option LoadResult) (target : Slot)
      → content written target ≡ some (generation, payload)
      → SameBeside s written target
      → Ends s (commit_marker written current target generation payload) target generation payload
  unfolding commit_marker verify_commit
  commit_marker-Ends s written current target stored beside =
      let same =
        λ (slot : Slot). marker_written-same written slot (encode_marker target generation) in
      let w = write_verified written key_active (encode_marker target generation) in
      elim (marker_written generation payload positive small written target) [
        | inl (ok, told) ↦
            let fits = is_loaded_written w.0 target (same target ∙ stored) told in
            rw (ok, fits) (same (other target) ∙ beside.0, inl (refl, same target ∙ stored, told))
        | inr (failed, m) ↦ rw failed (
            ground (
              arith,
              stored,
              beside,
              m,
              same target,
              same (other target),
              slot_erased w.0 target,
              slot_erased-SameBeside w.0 target,
            ))
      ]

  commit_slot-Ends :
      (s : BlobStore) (current : Option LoadResult) (target : Slot)
      → Ends s (commit_slot s current target generation payload) target generation payload
  unfolding commit_slot
  commit_slot-Ends s current target =
      let w = write_verified s (slot_key target) (encode_record generation payload) in
      let beside = slot_written-SameBeside s target (encode_record generation payload) in
      elim (slot_written generation payload positive small short s target) [
        | inl (ok, stored) ↦
            let right : is_content (content w.0 target) generation payload ≡ true =
              rw stored (ground (arith, text_eq_refl payload)) in
            rw (ok, right) (commit_marker-Ends s w.0 current target stored beside)
        | inr (failed, m) ↦
            rw failed (ground (arith, slot_erased w.0 target, slot_erased-SameBeside w.0 target))
      ]

decoded_bound : (value : Option (List ℕ)) → generation_of (decoded value) < 2 ^ 64
unfolding decoded decode_record
decoded_bound none = omega arith
decoded_bound (some encoded) = ground (arith, u64_at-lt encoded 8)

abbrev pub largest_generation : BlobStore → ℕ
largest_generation s = max (generation_of (decoded s.slot_a)) (generation_of (decoded s.slot_b))

abbrev pub IsStorable : BlobStore → List ℕ → Type 0
IsStorable s payload =
    (is_empty payload ≡ false)
    × (length payload ≤ maximum_payload_size)
    × (largest_generation s ≢ 2 ^ 64 - 1)

pub generation_small :
    (s : BlobStore) → largest_generation s ≢ 2 ^ 64 - 1 → largest_generation s + 1 < 2 ^ 64
generation_small s h = omega (arith, decoded_bound s.slot_a, decoded_bound s.slot_b)

pub content-le :
    (s : BlobStore) (slot : Slot) → generation_of (content s slot) < largest_generation s + 1
content-le s a = omega arith
content-le s b = omega arith

pub storable-Ends :
    (s : BlobStore) (payload : List ℕ)
    → IsStorable s payload
    → Ends s (commit s payload) (target_slot (load_active s)) (largest_generation s + 1) payload
unfolding commit
storable-Ends s payload (filled, short, room) =
    rw (filled, test_false)
      (commit_slot-Ends (largest_generation s + 1) payload (omega arith) (generation_small s room)
        short s (load_active s) (target_slot (load_active s)))
  where
    test_false :
        (ltb maximum_payload_size (length payload) || largest_generation s == 2 ^ 64 - 1) ≡ false
    test_false = ground arith

-- `commit` returns false at once, or goes on.
pub commit_cases :
    (s : BlobStore) (payload : List ℕ) → (commit s payload ≡ (s, none)) ⊎ IsStorable s payload
unfolding commit
commit_cases s payload =
    elim (Bool-cases (
      is_empty payload
      || ltb maximum_payload_size (length payload)
      || largest_generation s == 2 ^ 64 - 1)) [
        | inl refused ↦ inl (rw refused refl)
        | inr going ↦ inr (ground arith)
      ]
