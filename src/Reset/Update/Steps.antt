-- ===== src/Reset/Update/Steps.antt =====
-- src/reset/DataResetPolicy.cpp: chains of accepted updates within one reset operation.
use power_monitor_sensor.Common.{
  ℕ, zero, suc, ◌+◌, ◌*◌, ◌≤◌, ◌≡◌, refl, ◌≢◌, true, false, arith, Bool-cases, inl, inr,
}
use power_monitor_sensor.Common.Texts.{text_eq}
use power_monitor_sensor.Reset.State.{
  State, Checkpoint, cancelled, checkpoint_value, terminal_state, can_transition,
  can_advance_checkpoint, commit_point_reached,
}
use power_monitor_sensor.Reset.Record.{Record, commit_evidence_equal}
use power_monitor_sensor.Reset.Update.{valid_record_update, keeps_record}

-- `Updates n r s`: the store goes from `r` to `s` by `n` accepted updates of one operation.
pub data Updates : ℕ → Record → Record → Type 0 where
  here : {r : Record} → Updates zero r r
  updated :
      {n : ℕ} {r s t : Record}
      → Updates n r s
      → valid_record_update s t ≡ true
      → text_eq s.prepare.operation_id t.prepare.operation_id ≡ true
      → Updates (suc n) r t

-- What one update of the same operation keeps.
pub record Kept (s t : Record) : Type 0 where
  pub moved : can_transition s.state t.state t.checkpoint ≡ true
  pub advanced : can_advance_checkpoint s.checkpoint t.checkpoint ≡ true
  pub readings : s.readings_deleted ≤ t.readings_deleted
  pub indexes : s.indexes_deleted ≤ t.indexes_deleted
  pub exports : s.exports_deleted ≤ t.exports_deleted
  pub backlog : s.backlog_entries_deleted ≤ t.backlog_entries_deleted
  pub evidence : commit_point_reached s.checkpoint ≡ true → commit_evidence_equal s t ≡ true

pub update-Kept :
    (s t : Record)
    → valid_record_update s t ≡ true
    → text_eq s.prepare.operation_id t.prepare.operation_id ≡ true
    → Kept s t
unfolding valid_record_update keeps_record
update-Kept s t h same = ground arith

-- A transition behind the commit point stays behind it, and cancels nothing.
commit_point_kept :
    (a b : State) (c d : Checkpoint)
    → can_transition a b d ≡ true
    → can_advance_checkpoint c d ≡ true
    → commit_point_reached c ≡ true
    → (commit_point_reached d ≡ true) × (b ≢ cancelled)
unfolding can_transition can_advance_checkpoint commit_point_reached
commit_point_kept a b c d h k p = ground arith

checkpoint_advances :
    (c d : Checkpoint)
    → can_advance_checkpoint c d ≡ true
    → (checkpoint_value c ≤ checkpoint_value d) × (checkpoint_value d ≤ checkpoint_value c + 10)
unfolding can_advance_checkpoint
checkpoint_advances c d h = ground arith

terminal_kept :
    (a b : State) (c : Checkpoint) → terminal_state a ≡ true → can_transition a b c ≡ true → ⊥
unfolding can_transition
terminal_kept a b c h k = ground arith

-- Once committed, what the commit fixed.
pub record Committed (r t : Record) : Type 0 where
  pub past : commit_point_reached t.checkpoint ≡ true
  pub live : t.state ≢ cancelled
  pub boundary : t.approved_boundary ≡ r.approved_boundary
  pub floor : t.new_sequence_floor ≡ r.new_sequence_floor
  pub next : t.new_next_sequence ≡ r.new_next_sequence
  pub energy : t.commit_pzem_energy_wh ≡ r.commit_pzem_energy_wh
  pub baseline : t.application_energy_baseline_wh ≡ r.application_energy_baseline_wh

commit_evidence_fields :
    (s t : Record)
    → commit_evidence_equal s t ≡ true
    → (t.approved_boundary ≡ s.approved_boundary)
      × (t.new_sequence_floor ≡ s.new_sequence_floor)
      × (t.new_next_sequence ≡ s.new_next_sequence)
      × (t.commit_pzem_energy_wh ≡ s.commit_pzem_energy_wh)
      × (t.application_energy_baseline_wh ≡ s.application_energy_baseline_wh)
unfolding commit_evidence_equal
commit_evidence_fields s t h = ground arith

update-Committed : (r s t : Record) → Committed r s → Kept s t → Committed r t
update-Committed r s t c k = ground (
  arith,
  commit_point_kept s.state t.state s.checkpoint t.checkpoint k.moved k.advanced c.past,
  commit_evidence_fields s t (k.evidence c.past),
)

-- From a record behind the commit point that is not cancelled, no chain of accepted updates of the
-- operation gets back before that point, cancels it, or changes the boundary, the sequence numbers
-- or the energy values that the commit fixed.
pub commit_irrevocable :
    {n : ℕ} {r t : Record}
    → commit_point_reached r.checkpoint ≡ true
    → r.state ≢ cancelled
    → Updates n r t
    → Committed r t
commit_irrevocable p live here = record {
  past = p;
  live = live;
  boundary = refl;
  floor = refl;
  next = refl;
  energy = refl;
  baseline = refl;
}
commit_irrevocable p live (updated {r = r} {s = s} {t = t} u h same) =
    update-Committed r s t (commit_irrevocable p live u) (update-Kept s t h same)

-- Over `n` accepted updates of one operation the checkpoint never goes back and moves at most `n`
-- places, and no counter of deleted data falls.
pub checkpoints_in_order :
    {n : ℕ} {r t : Record}
    → Updates n r t
    → (checkpoint_value r.checkpoint ≤ checkpoint_value t.checkpoint)
      × (checkpoint_value t.checkpoint ≤ checkpoint_value r.checkpoint + 10 * n)
      × (r.readings_deleted ≤ t.readings_deleted)
      × (r.indexes_deleted ≤ t.indexes_deleted)
      × (r.exports_deleted ≤ t.exports_deleted)
      × (r.backlog_entries_deleted ≤ t.backlog_entries_deleted)
checkpoints_in_order here = omega arith
checkpoints_in_order (updated {s = s} {t = t} u h same) = omega (
  arith,
  checkpoints_in_order u,
  update-Kept s t h same,
  checkpoint_advances s.checkpoint t.checkpoint (update-Kept s t h same).advanced,
)

-- A completed or cancelled record is the last of its operation: no record of the same operation is
-- accepted behind it.
pub terminal-update :
    (r t : Record)
    → terminal_state r.state ≡ true
    → text_eq r.prepare.operation_id t.prepare.operation_id ≡ true
    → valid_record_update r t ≡ false
terminal-update r t h same = elim (Bool-cases (valid_record_update r t)) [
  | inl v ↦ absurd (terminal_kept r.state t.state t.checkpoint h (update-Kept r t v same).moved)
  | inr refused ↦ refused
]
