-- ===== src/Network/Examples.antt =====
-- The theorems of the network policies at concrete calls.
use power_monitor_sensor.Common.{◌≡◌, refl, true, false, none, some, [], ◌∷◌, arith, if◌then◌else◌}
use power_monitor_sensor.Common.Int.{pos}
use power_monitor_sensor.Common.Texts.{codes, text_eq}
use power_monitor_sensor.Network.Endpoint.{lookup, update, empty_cache, after_reports}
use power_monitor_sensor.Network.Endpoint.Failures.{lookup-after_reports, fails_twice}
use power_monitor_sensor.Network.Floor.{
  advance, classify_acknowledgement, sequence_cursor_contract_valid,
}
use power_monitor_sensor.Network.Limits.{
  maximum_response_bytes, response_length_allowed, response_allocation_available,
}

lookup-after_reports_example :
    lookup
      (after_reports
        (update empty_cache (codes "pm.local") 443 167772161)
        (false ∷ true ∷ false ∷ []))
      (codes "pm.local")
      443
    ≡ (if fails_twice false (false ∷ true ∷ false ∷ []) then none else some 167772161)
lookup-after_reports_example =
    lookup-after_reports empty_cache (codes "pm.local") 443 167772161 (false ∷ true ∷ false ∷ [])
      (omega arith)

address_kept : fails_twice false (false ∷ true ∷ false ∷ []) ≡ false
unfolding fails_twice
address_kept = refl

cursor_valid : sequence_cursor_contract_valid 35 35 38 39 ≡ true
unfolding sequence_cursor_contract_valid
cursor_valid = refl

cursor_advances : classify_acknowledgement 30 41 35 ≡ advance
unfolding classify_acknowledgement
cursor_advances = refl

heartbeat_allowed :
    response_length_allowed (codes "/api/v1/device-heartbeats") (pos 2000) (pos 200) ≡ true
unfolding response_length_allowed maximum_response_bytes text_eq
heartbeat_allowed = refl

heartbeat_room : response_allocation_available 70000 40000 (pos 2000) ≡ true
unfolding response_allocation_available
heartbeat_room = refl
