-- ===== src/Security/Examples.antt =====
-- The theorems of the replay window at concrete requests.
use power_monitor_sensor.Common.{ℕ, ◌≡◌, refl, ◌↔◌, true, List, [], ◌∷◌, arith, all}
use power_monitor_sensor.Common.Int.{pos}
use power_monitor_sensor.Common.Texts.{text_eq}
use power_monitor_sensor.Security.ReplayWindow.{
  accepted, replayed, capacity_exceeded, Entry, Request, aged, visit, is_available, store, remember,
  new_window, remember_all,
}
use power_monitor_sensor.Security.ReplayWindow.Protection.{
  accepted_once, is_busy, capacity_exceeded_exact,
}

abbrev request : ℕ → ℕ → Request
request nonce seconds = record {
  digest = nonce ∷ [];
  accepted_at = pos seconds;
  window_seconds = 300;
}

abbrev slots : List Entry
slots = new_window 2

first_accepted : (remember slots (request 7 1000)).1 ≡ accepted
unfolding remember visit aged is_available store new_window
first_accepted = refl

-- Another request in between, and the first one again 100 seconds later.
accepted_once_example :
    (remember
      (remember_all (remember slots (request 7 1000)).0 (request 8 1050 ∷ []))
      (request 7 1100)).1
    ≡ replayed
accepted_once_example =
    accepted_once slots (request 7 1000) (request 7 1100) (request 8 1050 ∷ []) first_accepted refl
      (omega arith, tt) (omega arith)

-- Behind the window the slot is free again.
accepted_again : (remember (remember slots (request 7 1000)).0 (request 7 1301)).1 ≡ accepted
unfolding remember visit aged is_available store new_window
accepted_again = refl

abbrev full : List Entry
full = remember_all slots (request 7 1000 ∷ request 8 1050 ∷ [])

capacity_exceeded_exact_example :
    ((remember full (request 9 1100)).1 ≡ capacity_exceeded)
    ↔ (all (is_busy (request 9 1100)) full ≡ true)
capacity_exceeded_exact_example = capacity_exceeded_exact (request 9 1100) full

third_refused : (remember full (request 9 1100)).1 ≡ capacity_exceeded
unfolding remember visit aged is_available store new_window remember_all text_eq
third_refused = refl
