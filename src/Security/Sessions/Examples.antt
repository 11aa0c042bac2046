-- ===== src/Security/Sessions/Examples.antt =====
-- The theorems of the sessions at concrete calls, with a digest that is the token itself.
use power_monitor_sensor.Common.{◌≤◌, ◌<◌, ◌≡◌, refl, true, false, List, [], ◌∷◌, arith}
use power_monitor_sensor.Common.Texts.{Text, text_eq}
use power_monitor_sensor.Security.Sessions.{
  invalid, ok, elevation_required, new_manager, empty_entries, find, purge_expired, purged,
  update_peak, is_available, place,
}
use power_monitor_sensor.Security.Sessions.Calls.{
  open_session, create, find_existing, validate, validate_mutation, invalidate,
}
use power_monitor_sensor.Security.Sessions.Entries.{is_present}
use power_monitor_sensor.Security.Sessions.History.{
  Call, open_call, validate_call, apply, apply_all, draws_none, is_never_drawn, is_collision_free,
}
use power_monitor_sensor.Security.Sessions.Revocation.{revoked_forever}
use power_monitor_sensor.Security.Sessions.Opening.{open_accepted}

abbrev itself : Text → Text
itself token = token

-- Two sessions of ten minutes.
abbrev history : List Call
history = open_call [] (1 ∷ []) (7 ∷ []) 0 600 ∷ open_call [] (2 ∷ []) (8 ∷ []) 50 600 ∷ []

abbrev later : List Call
later = validate_call (2 ∷ []) 200 false ∷ open_call (1 ∷ []) (3 ∷ []) (9 ∷ []) 300 600 ∷ []

history-free : is_collision_free itself new_manager history ≡ true
unfolding is_collision_free draws_none is_present empty_entries apply open_session find_existing
    find create purge_expired purged is_available place update_peak text_eq
history-free = refl

first_ended : (invalidate itself (apply_all itself new_manager history) (1 ∷ []) 100).1 ≡ true
unfolding invalidate empty_entries apply_all apply open_session find_existing find create
    purge_expired purged is_available place update_peak text_eq
first_ended = refl

later_drawn : is_never_drawn itself (1 ∷ []) later ≡ true
unfolding is_never_drawn draws_none text_eq
later_drawn = refl

revoked_forever_example :
    ((validate itself
        (apply_all itself
          (invalidate itself (apply_all itself new_manager history) (1 ∷ []) 100).0
          later)
        (1 ∷ [])
        400
        false).1
      ≡ invalid)
    × ((validate_mutation itself
          (apply_all itself
            (invalidate itself (apply_all itself new_manager history) (1 ∷ []) 100).0
            later)
          (1 ∷ [])
          (7 ∷ [])
          400
          false).1
        ≡ invalid)
revoked_forever_example =
    revoked_forever itself history later (1 ∷ []) (7 ∷ []) 100 400 false history-free first_ended
      later_drawn

nothing_known : is_present (1 ∷ []) new_manager.entries ≡ false
unfolding is_present empty_entries
nothing_known = refl

room_left : (open_session itself new_manager [] (1 ∷ []) (7 ∷ []) 0 600).1.capacity_reached ≡ false
unfolding open_session find_existing create purge_expired purged is_available empty_entries
room_left = refl

still_early : 400 < (open_session itself new_manager [] (1 ∷ []) (7 ∷ []) 0 600).1.expires_ms
unfolding open_session find_existing create purge_expired purged is_available empty_entries
still_early = omega arith

open_accepted_example :
    ((validate_mutation itself
        (open_session itself new_manager [] (1 ∷ []) (7 ∷ []) 0 600).0
        (open_session itself new_manager [] (1 ∷ []) (7 ∷ []) 0 600).1.token
        (7 ∷ [])
        400
        false).1
      ≡ ok)
    × (0 ≤ 400
        → (open_session itself new_manager [] (1 ∷ []) (7 ∷ []) 0 600).1.elevated ≡ false
        → (validate itself
            (open_session itself new_manager [] (1 ∷ []) (7 ∷ []) 0 600).0
            (open_session itself new_manager [] (1 ∷ []) (7 ∷ []) 0 600).1.token
            400
            true).1
          ≡ elevation_required)
open_accepted_example =
    open_accepted itself new_manager [] (1 ∷ []) (7 ∷ []) 0 600 400 refl refl nothing_known
      room_left still_early
