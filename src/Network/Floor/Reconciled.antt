-- ===== src/Network/Floor/Reconciled.antt =====
-- src/network/ServerSyncPolicy.h: the sequence floor that the local and the server's cursors require.
use power_monitor_sensor.Common.{ℕ, ◌^◌, ◌≤◌, ◌<◌, ◌≡◌, ◌↔◌, true, arith}
use power_monitor_sensor.Network.Floor.{
  advance, classify_acknowledgement, required_sequence_floor, sequence_cursor_contract_valid,
}

-- The required floor lies at or below a number exactly if all six of the sequences it is made of do.
pub required_sequence_floor_least :
    (records journal acknowledged seen server prepared bound : ℕ)
    → (required_sequence_floor records journal acknowledged seen server prepared ≤ bound) ↔ (
        (records ≤ bound)
        × (journal ≤ bound)
        × (acknowledged ≤ bound)
        × (seen ≤ bound)
        × (server ≤ bound)
        × (prepared ≤ bound))
unfolding required_sequence_floor
required_sequence_floor_least records journal acknowledged seen server prepared bound = ground arith

-- Where the server's cursor has a valid contract and its acknowledgement advances the local one
-- within the stored sequences, the acknowledgement does not fall, acknowledges only sequences that
-- are stored and that the server has seen, and the server's next sequence does not wrap.
pub advance_sound :
    (acknowledged newest top nested seen next : ℕ)
    → seen < 2 ^ 64
    → sequence_cursor_contract_valid top nested seen next ≡ true
    → classify_acknowledgement acknowledged newest top ≡ advance
    → (acknowledged < top) × (top ≤ newest) × (top ≤ seen) × (seen < next) × (next < 2 ^ 64)
unfolding sequence_cursor_contract_valid classify_acknowledgement
advance_sound acknowledged newest top nested seen next small valid h = ground arith
