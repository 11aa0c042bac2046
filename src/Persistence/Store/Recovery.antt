-- ===== src/Persistence/Store/Recovery.antt =====
-- src/config/AtomicConfigStore.cpp: a commit that fails or is cut off.
use power_monitor_sensor.Common.{ℕ, ◌+◌, ◌≡◌, refl, sym, ap, ◌∙◌, inl, inr, List}
use power_monitor_sensor.Persistence.Records.{Slot}
use power_monitor_sensor.Persistence.Store.{BlobStore, load_active, other, target_slot, commit}
use power_monitor_sensor.Persistence.Store.Views.{content, marker}
use power_monitor_sensor.Persistence.Store.Choice.{MayLeave, OldOrNew, choose}
use power_monitor_sensor.Persistence.Store.Ends.{
  load_at, Ends, largest_generation, content-le, storable-Ends, commit_cases,
}

loaded_after :
    (s s' : BlobStore) (target : Slot) (generation : ℕ) (payload : List ℕ)
    → target_slot (load_active s) ≡ target
    → generation ≡ largest_generation s + 1
    → content s' (other target) ≡ content s (other target)
    → MayLeave target generation payload
        (content s target)
        (marker s)
        (content s' target)
        (marker s')
    → OldOrNew target generation payload (load_active s) (load_active s')
loaded_after s s' target generation payload t g same left =
    rw (load_at s target, load_at s' target, same)
      (choose target (content s target) (content s (other target)) (content s' target) (marker s)
        (marker s') generation payload (ap target_slot (sym (load_at s target)) ∙ t)
        (rw g (content-le s target)) (rw g (content-le s (other target))) left)

-- Whatever writes and erasures of a commit fail, and wherever it is cut off, what is loaded
-- afterwards is what was loaded before, or the new payload with the next generation.
pub commit_interrupted :
    (s : BlobStore) (payload : List ℕ)
    → OldOrNew
        (target_slot (load_active s))
        (largest_generation s + 1)
        payload
        (load_active s)
        (load_active (commit s payload).0)
commit_interrupted s payload = elim (commit_cases s payload) [
  | inl refused ↦ rw refused (inl refl)
  | inr storable ↦ ended (storable-Ends s payload storable)
]
  where
    ended :
        Ends s (commit s payload) (target_slot (load_active s)) (largest_generation s + 1) payload
        → OldOrNew
            (target_slot (load_active s))
            (largest_generation s + 1)
            payload
            (load_active s)
            (load_active (commit s payload).0)
    ended (same, inl (answer, stored, told)) =
        loaded_after s (commit s payload).0 (target_slot (load_active s)) (largest_generation s + 1)
          payload refl refl same (inr (inr stored, inr told))
    ended (same, inr (unanswered, left)) =
        loaded_after s (commit s payload).0 (target_slot (load_active s)) (largest_generation s + 1)
          payload refl refl same left
