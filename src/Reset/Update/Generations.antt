-- ===== src/Reset/Update/Generations.antt =====
-- src/reset/DataResetPolicy.cpp: chains of accepted updates across operations, and their generations.
use power_monitor_sensor.Common.{ℕ, zero, suc, ◌≤◌, ◌<◌, ◌≡◌, true, arith}
use power_monitor_sensor.Reset.State.{State, Checkpoint, completed, can_transition}
use power_monitor_sensor.Reset.Record.{PrepareRequest, Record, prepare_requests_equal}
use power_monitor_sensor.Reset.Update.{valid_record_update, valid_succession}

-- `Stored n r s`: the store goes from `r` to `s` by `n` accepted updates, of any operations.
pub data Stored : ℕ → Record → Record → Type 0 where
  start : {r : Record} → Stored zero r r
  stored :
      {n : ℕ} {r s t : Record} → Stored n r s → valid_record_update s t ≡ true → Stored (suc n) r t

requests_generation :
    (p q : PrepareRequest)
    → prepare_requests_equal p q ≡ true
    → p.target_generation ≡ q.target_generation
unfolding prepare_requests_equal
requests_generation p q h = ground arith

completed_stays : (a b : State) (c : Checkpoint) → a ≡ completed → can_transition a b c ≡ true → ⊥
unfolding can_transition
completed_stays a b c h k = ground arith

update_generation :
    (s t : Record)
    → valid_record_update s t ≡ true
    → (s.prepare.target_generation ≤ t.prepare.target_generation)
      × (s.state ≡ completed → s.prepare.target_generation < t.prepare.target_generation)
unfolding valid_record_update valid_succession
update_generation s t h =
    ground
      (arith, requests_generation s.prepare t.prepare, completed_stays s.state t.state t.checkpoint)

-- Along every chain of accepted updates, of one operation or of several, the target generation of
-- the stored record never falls.
pub generation_le :
    {n : ℕ} {r t : Record}
    → Stored n r t
    → r.prepare.target_generation ≤ t.prepare.target_generation
generation_le start = omega arith
generation_le (stored {s = s} {t = t} u v) = omega (arith, generation_le u, update_generation s t v)

-- Every record that the store accepts behind a completed one has a greater target generation.
pub completed-generation-lt :
    {n : ℕ} {r t : Record}
    → r.state ≡ completed
    → Stored (suc n) r t
    → r.prepare.target_generation < t.prepare.target_generation
completed-generation-lt c (stored {n = zero} {s = s} {t = t} start v) =
    (update_generation s t v).1 c
completed-generation-lt c (stored {n = suc n} {s = s} {t = t} u v) =
    omega (arith, completed-generation-lt c u, (update_generation s t v).0)
