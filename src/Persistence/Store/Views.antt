-- ===== src/Persistence/Store/Views.antt =====
-- src/config/AtomicConfigStore.cpp: what the writes and erasures of a commit leave in the store.
use power_monitor_sensor.Common.{
  ℕ, ◌^◌, ◌≤◌, ◌<◌, ◌≡◌, refl, ap, ◌⊎◌, inl, inr, true, false, Option, none, some, List, arith,
  ◌==◌, length,
}
use power_monitor_sensor.Common.Texts.{text_eq_refl, text_eq_iff}
use power_monitor_sensor.Persistence.Records.{
  Slot, a, b, encode_record, encode_marker, maximum_payload_size,
}
use power_monitor_sensor.Persistence.Records.RoundTrip.{decode-encode_record, decode-encode_marker}
use power_monitor_sensor.Persistence.Store.{
  BlobStore, Key, key_a, key_b, key_active, slot_key, read, write, erase, holds, write_verified,
  decoded, marked, other,
}

abbrev pub key_code : Key → ℕ
key_code key_a = 0
key_code key_b = 1
key_code key_active = 2

holds-some :
    (stored : Option (List ℕ)) (value : List ℕ) → holds stored value ≡ true → stored ≡ some value
holds-some none value h = cc
holds-some (some old) value h = ground (arith, text_eq_iff old value)

-- A verified write has put the value there; a failed one has left the old value, or none.
pub write_verified_cases :
    (s : BlobStore) (key : Key) (value : List ℕ)
    → (((write_verified s key value).1 ≡ true)
        × (read (write_verified s key value).0 key ≡ some value))
      ⊎ (((write_verified s key value).1 ≡ false)
          × ((read (write_verified s key value).0 key ≡ read s key)
              ⊎ (read (write_verified s key value).0 key ≡ none)))
unfolding write_verified write
write_verified_cases s key_a value = ground (arith, holds-some s.slot_a value, text_eq_refl value)
write_verified_cases s key_b value = ground (arith, holds-some s.slot_b value, text_eq_refl value)
write_verified_cases s key_active value =
    ground (arith, holds-some s.active value, text_eq_refl value)

pub read-write_verified :
    (s : BlobStore) (key k : Key) (value : List ℕ)
    → (key_code key == key_code k) ≡ false
    → read (write_verified s key value).0 k ≡ read s k
unfolding write_verified write
read-write_verified s key_a k value h = ground arith
read-write_verified s key_b k value h = ground arith
read-write_verified s key_active k value h = ground arith

pub erase_cases :
    (s : BlobStore) (key : Key)
    → (read (erase s key) key ≡ none) ⊎ (read (erase s key) key ≡ read s key)
unfolding erase
erase_cases s key_a = ground arith
erase_cases s key_b = ground arith
erase_cases s key_active = ground arith

pub read-erase :
    (s : BlobStore) (key k : Key)
    → (key_code key == key_code k) ≡ false
    → read (erase s key) k ≡ read s k
unfolding erase
read-erase s key_a k h = ground arith
read-erase s key_b k h = ground arith
read-erase s key_active k h = ground arith

-- The slot to be written, the marker and the other slot, decoded.
abbrev pub content : BlobStore → Slot → Option (ℕ × List ℕ)
content s slot = decoded (read s (slot_key slot))

abbrev pub marker : BlobStore → Option (Slot × ℕ)
marker s = marked s.active

module _ (generation : ℕ) (payload : List ℕ) (positive : 0 < generation)
    (small : generation < 2 ^ 64) where
  decoded_record :
      length payload ≤ maximum_payload_size
      → (stored : Option (List ℕ)) → stored ≡ some (encode_record generation payload)
      → decoded stored ≡ some (generation, payload)
  unfolding decoded
  decoded_record short stored e =
      rw e (decode-encode_record generation payload positive small short)

  marked_marker :
      (target : Slot) (stored : Option (List ℕ))
      → stored ≡ some (encode_marker target generation)
      → marked stored ≡ some (target, generation)
  unfolding marked
  marked_marker target stored e = rw e (decode-encode_marker target generation positive small)

  -- The three writes and erasures of a commit, seen through the decoding.
  pub slot_written :
      length payload ≤ maximum_payload_size
      → (s : BlobStore) (target : Slot)
      → (((write_verified s (slot_key target) (encode_record generation payload)).1 ≡ true)
          × (content
                (write_verified s (slot_key target) (encode_record generation payload)).0
                target
              ≡ some (generation, payload)))
        ⊎ (((write_verified s (slot_key target) (encode_record generation payload)).1 ≡ false)
            × ((content
                    (write_verified s (slot_key target) (encode_record generation payload)).0
                    target
                  ≡ content s target)
                ⊎ (content
                      (write_verified s (slot_key target) (encode_record generation payload)).0
                      target
                    ≡ none)))
  unfolding decoded
  slot_written short s target =
      elim (write_verified_cases s (slot_key target) (encode_record generation payload)) [
        | inl (ok, e) ↦ inl (ok, decoded_record short _ e)
        | inr (failed, inl e) ↦ inr (failed, inl (rw e refl))
        | inr (failed, inr e) ↦ inr (failed, inr (rw e refl))
      ]

  pub marker_written :
      (s : BlobStore) (target : Slot)
      → (((write_verified s key_active (encode_marker target generation)).1 ≡ true)
          × (marker (write_verified s key_active (encode_marker target generation)).0
              ≡ some (target, generation)))
        ⊎ (((write_verified s key_active (encode_marker target generation)).1 ≡ false)
            × ((marker (write_verified s key_active (encode_marker target generation)).0 ≡ marker s)
                ⊎ (marker (write_verified s key_active (encode_marker target generation)).0
                    ≡ none)))
  unfolding marked
  marker_written s target =
      elim (write_verified_cases s key_active (encode_marker target generation)) [
        | inl (ok, e) ↦ inl (ok, marked_marker target _ e)
        | inr (failed, inl e) ↦ inr (failed, inl (rw e refl))
        | inr (failed, inr e) ↦ inr (failed, inr (rw e refl))
      ]

pub slot_erased :
    (s : BlobStore) (target : Slot)
    → (content (erase s (slot_key target)) target ≡ none)
      ⊎ (content (erase s (slot_key target)) target ≡ content s target)
unfolding decoded
slot_erased s target = elim (erase_cases s (slot_key target)) [
  | inl e ↦ inl (rw e refl)
  | inr e ↦ inr (rw e refl)
]

-- The other slot and the marker are as they were.
abbrev pub SameBeside : BlobStore → BlobStore → Slot → Type 0
SameBeside s s' target =
    (content s' (other target) ≡ content s (other target)) × (marker s' ≡ marker s)

pub slot_written-SameBeside :
    (s : BlobStore) (target : Slot) (value : List ℕ)
    → SameBeside s (write_verified s (slot_key target) value).0 target
slot_written-SameBeside s a value = (
  ap decoded (read-write_verified s key_a key_b value refl),
  ap marked (read-write_verified s key_a key_active value refl),
)
slot_written-SameBeside s b value = (
  ap decoded (read-write_verified s key_b key_a value refl),
  ap marked (read-write_verified s key_b key_active value refl),
)

pub slot_erased-SameBeside :
    (s : BlobStore) (target : Slot) → SameBeside s (erase s (slot_key target)) target
slot_erased-SameBeside s a =
    (ap decoded (read-erase s key_a key_b refl), ap marked (read-erase s key_a key_active refl))
slot_erased-SameBeside s b =
    (ap decoded (read-erase s key_b key_a refl), ap marked (read-erase s key_b key_active refl))

pub marker_written-same :
    (s : BlobStore) (slot : Slot) (value : List ℕ)
    → content (write_verified s key_active value).0 slot ≡ content s slot
marker_written-same s a value = ap decoded (read-write_verified s key_active key_a value refl)
marker_written-same s b value = ap decoded (read-write_verified s key_active key_b value refl)
