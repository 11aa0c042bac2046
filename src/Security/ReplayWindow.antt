-- ===== src/Security/ReplayWindow.antt =====
-- include/security/AuthReplayWindow.h: the digests that were accepted a short time ago.
pub mod Protection
use power_monitor_sensor.Common.{
  ℕ, zero, suc, ◌+◌, ◌-◌, Bool, true, false, not, ◌&&◌, ◌||◌, List, [], ◌∷◌, leb, ltb, any,
  if◌then◌else◌,
}
use power_monitor_sensor.Common.Int.{ℤ, pos, leb_ℤ, distance}
use power_monitor_sensor.Common.Texts.{Text, text_eq}

pub data ReplayRememberResult : Type 0 where
  accepted replayed capacity_exceeded : ReplayRememberResult

-- A digest is an array of bytes.
pub record Entry : Type 0 where
  pub used : Bool
  pub digest : Text
  pub accepted_at : ℤ

abbrev pub empty_entry : Entry
empty_entry = record { used = false; digest = []; accepted_at = pos 0 }

-- One call of `remember`.
pub record Request : Type 0 where
  pub digest : Text
  pub accepted_at : ℤ
  pub window_seconds : ℕ

-- The difference of two int64 values in order fits in a uint64.
abbrev pub elapsed : ℤ → ℤ → ℕ
elapsed now since = if leb_ℤ since now then distance now since else 0

-- entry = {} where its age is above the window.
unfoldable pub aged : Request → Entry → Entry
aged r entry =
    if entry.used && ltb r.window_seconds (elapsed r.accepted_at entry.accepted_at)
    then empty_entry
    else entry

abbrev pub matches : Request → Entry → Bool
matches r entry = entry.used && text_eq entry.digest r.digest

-- The loop, with the entries it leaves behind and whether it returned `replayed`; then the entries
-- that follow are left as they are.
unfoldable pub visit : Request → List Entry → List Entry × Bool
visit r [] = ([], false)
visit r (entry ∷ entries) =
    let rest = visit r entries in
    if matches r (aged r entry)
    then (aged r entry ∷ entries, true)
    else (aged r entry ∷ rest.0, rest.1)

-- `available != nullptr` behind the loop, which is the first entry not used then.
unfoldable pub is_available : List Entry → Bool
is_available [] = false
is_available (entry ∷ entries) = not entry.used || is_available entries

-- The three assignments to *available.
unfoldable pub store : Request → List Entry → List Entry
store r [] = []
store r (entry ∷ entries) =
    let rest = store r entries in
    if not entry.used
    then record { used = true; digest = r.digest; accepted_at = r.accepted_at } ∷ entries
    else entry ∷ rest

unfoldable pub remember : List Entry → Request → List Entry × ReplayRememberResult
remember entries r =
    let visited = visit r entries in
    if visited.1
    then (visited.0, replayed)
    else (if not (is_available visited.0)
        then (visited.0, capacity_exceeded)
        else (store r visited.0, accepted))

-- A window of `capacity` entries, before any call.
unfoldable pub new_window : ℕ → List Entry
new_window zero = []
new_window (suc capacity) = empty_entry ∷ new_window capacity

-- The window after the calls, in order.
unfoldable pub remember_all : List Entry → List Request → List Entry
remember_all entries [] = entries
remember_all entries (r ∷ rs) = remember_all (remember entries r).0 rs
