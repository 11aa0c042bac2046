-- ===== src/Reset/State.antt =====
-- src/reset/DataResetPolicy.h and .cpp: states, checkpoints, gates and the transitions between them.
use power_monitor_sensor.Common.{
  ℕ, ◌+◌, Bool, true, false, not, ◌&&◌, ◌||◌, Option, none, some, List, [], ◌∷◌, leb, ◌==◌,
  if◌then◌else◌, suc,
}
use power_monitor_sensor.Common.Texts.{Text, codes, text_eq}

pub data State : Type 0 where
  idle preparing prepared committing completed cancelled attention_required : State

pub data Checkpoint : Type 0 where
  none_yet commit_authorized sequence_advanced cursors_advanced : Checkpoint
  readings_cleared baseline_installed verified all_completed : Checkpoint

-- The enumerators' numbers, by which == and >= compare.
abbrev pub state_value : State → ℕ
state_value idle = 0
state_value preparing = 1
state_value prepared = 2
state_value committing = 3
state_value completed = 4
state_value cancelled = 5
state_value attention_required = 6

abbrev pub checkpoint_value : Checkpoint → ℕ
checkpoint_value none_yet = 0
checkpoint_value commit_authorized = 10
checkpoint_value sequence_advanced = 20
checkpoint_value cursors_advanced = 30
checkpoint_value readings_cleared = 40
checkpoint_value baseline_installed = 50
checkpoint_value verified = 60
checkpoint_value all_completed = 70

abbrev pub is_state : State → State → Bool
is_state s t = state_value s == state_value t

abbrev pub is_checkpoint : Checkpoint → Checkpoint → Bool
is_checkpoint c d = checkpoint_value c == checkpoint_value d

-- c >= d
abbrev pub reaches : Checkpoint → Checkpoint → Bool
reaches c d = leb (checkpoint_value d) (checkpoint_value c)

abbrev pub state_names : List (State × Text)
state_names =
    (idle, codes "idle")
    ∷ (preparing, codes "preparing")
    ∷ (prepared, codes "prepared")
    ∷ (committing, codes "committing")
    ∷ (completed, codes "completed")
    ∷ (cancelled, codes "cancelled")
    ∷ (attention_required, codes "attention_required")
    ∷ []

abbrev pub checkpoint_names : List (Checkpoint × Text)
checkpoint_names =
    (none_yet, codes "none")
    ∷ (commit_authorized, codes "commit_authorized")
    ∷ (sequence_advanced, codes "sequence_advanced")
    ∷ (cursors_advanced, codes "cursors_advanced")
    ∷ (readings_cleared, codes "readings_cleared")
    ∷ (baseline_installed, codes "baseline_installed")
    ∷ (verified, codes "verified")
    ∷ (all_completed, codes "completed")
    ∷ []

-- The loops over the two tables: by enumerator, and by name.
abbrev pub name_in {ℓ} : {A : Type ℓ} → (A → A → Bool) → List (A × Text) → A → Text
name_in eq [] a = codes "unknown"
name_in eq ((b, name) ∷ entries) a = if eq b a then name else name_in eq entries a

abbrev pub parse_in {ℓ} : {A : Type ℓ} → List (A × Text) → Text → Option A
parse_in [] value = none
parse_in ((b, name) ∷ entries) value = if text_eq value name then some b else parse_in entries value

unfoldable pub state_name : State → Text
state_name = name_in is_state state_names

unfoldable pub parse_state : Text → Option State
parse_state = parse_in state_names

unfoldable pub checkpoint_name : Checkpoint → Text
checkpoint_name = name_in is_checkpoint checkpoint_names

unfoldable pub parse_checkpoint : Text → Option Checkpoint
parse_checkpoint = parse_in checkpoint_names

-- The position in the table; `none` stands for -1.
abbrev pub index_in : ℕ → List (Checkpoint × Text) → Checkpoint → Option ℕ
index_in index [] c = none
index_in index ((d, name) ∷ entries) c =
    if is_checkpoint d c then some index else index_in (suc index) entries c

unfoldable pub checkpoint_index : Checkpoint → Option ℕ
checkpoint_index = index_in 0 checkpoint_names

-- index >= 0
abbrev pub is_found : Option ℕ → Bool
is_found none = false
is_found (some index) = true

-- Two table positions compared as ints, -1 below all.
abbrev pub at_least : Option ℕ → Option ℕ → Bool
at_least i none = true
at_least none (some j) = false
at_least (some i) (some j) = leb j i

abbrev pub same_or_next : Option ℕ → Option ℕ → Bool
same_or_next (some current) (some proposed) = proposed == current || proposed == current + 1
same_or_next _ _ = false

pub record GateSnapshot : Type 0 where
  pub configuration_frozen : Bool
  pub record_writes_enabled : Bool
  pub reset_admission_active : Bool

unfoldable pub terminal_state : State → Bool
terminal_state state = is_state state completed || is_state state cancelled

unfoldable pub cancellable_state : State → Bool
cancellable_state state =
    is_state state preparing || is_state state prepared || is_state state attention_required

unfoldable pub commit_point_reached : Checkpoint → Bool
unfolding checkpoint_index
commit_point_reached checkpoint =
    at_least (checkpoint_index checkpoint) (checkpoint_index commit_authorized)

unfoldable pub reading_gate_required : State → Checkpoint → Bool
reading_gate_required state checkpoint =
    is_state state preparing
    || is_state state prepared
    || is_state state committing
    || is_state state attention_required

unfoldable pub gates_released : GateSnapshot → Bool
gates_released gates =
    not gates.configuration_frozen
    && gates.record_writes_enabled
    && not gates.reset_admission_active

unfoldable pub completion_externally_visible : State → Checkpoint → GateSnapshot → Bool
unfolding gates_released
completion_externally_visible state checkpoint gates =
    is_state state completed && is_checkpoint checkpoint all_completed && gates_released gates

unfoldable pub cancellation_externally_visible : State → Checkpoint → GateSnapshot → Bool
unfolding gates_released
cancellation_externally_visible state checkpoint gates =
    is_state state cancelled && is_checkpoint checkpoint none_yet && gates_released gates

unfoldable pub resume_state_for_checkpoint : Checkpoint → State
resume_state_for_checkpoint checkpoint =
    if is_checkpoint checkpoint none_yet
    then prepared
    else (if is_checkpoint checkpoint all_completed then completed else committing)

-- The switch of `validStateCheckpoint`.
abbrev pub valid_checkpoint_for : State → Checkpoint → Bool
valid_checkpoint_for idle c = is_checkpoint c none_yet
valid_checkpoint_for preparing c = is_checkpoint c none_yet
valid_checkpoint_for prepared c = is_checkpoint c none_yet
valid_checkpoint_for cancelled c = is_checkpoint c none_yet
valid_checkpoint_for committing c = reaches c commit_authorized && reaches verified c
valid_checkpoint_for completed c = is_checkpoint c all_completed
valid_checkpoint_for attention_required c = reaches c none_yet && reaches verified c

unfoldable pub valid_state_checkpoint : State → Checkpoint → Bool
unfolding checkpoint_index
valid_state_checkpoint state checkpoint =
    if not (is_found (checkpoint_index checkpoint))
    then false
    else valid_checkpoint_for state checkpoint

-- The switch of `canTransition`, on the state that is left.
unfoldable pub leaves : State → State → Checkpoint → Bool
unfolding resume_state_for_checkpoint
leaves idle to c = is_state to preparing
leaves preparing to c = is_state to prepared || is_state to cancelled
leaves prepared to c =
    (is_state to committing && is_checkpoint c commit_authorized)
    || is_state to cancelled
    || (is_state to attention_required && is_checkpoint c none_yet)
leaves committing to c =
    (is_state to completed && is_checkpoint c all_completed) || is_state to attention_required
leaves attention_required to c =
    is_state to (resume_state_for_checkpoint c)
    || (is_state to cancelled && is_checkpoint c none_yet)
leaves completed to c = false
leaves cancelled to c = false

unfoldable pub can_transition : State → State → Checkpoint → Bool
unfolding valid_state_checkpoint terminal_state leaves
can_transition from to checkpoint =
    if not (valid_state_checkpoint to checkpoint)
    then false
    else (if is_state from to then not (terminal_state from) else leaves from to checkpoint)

unfoldable pub can_advance_checkpoint : Checkpoint → Checkpoint → Bool
unfolding checkpoint_index
can_advance_checkpoint current proposed =
    is_found (checkpoint_index current)
    && is_found (checkpoint_index proposed)
    && same_or_next (checkpoint_index current) (checkpoint_index proposed)
