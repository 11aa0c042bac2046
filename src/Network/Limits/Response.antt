-- ===== src/Network/Limits/Response.antt =====
-- src/network/ServerSyncPolicy.cpp: the responses that are read into memory.
use power_monitor_sensor.Common.{ℕ, ◌+◌, ◌≤◌, ◌≡◌, ◌⊎◌, true, arith}
use power_monitor_sensor.Common.Int.{ℤ, pos, negsuc, pos_part}
use power_monitor_sensor.Common.Texts.{Text}
use power_monitor_sensor.Network.Limits.{
  largest_response, post_response_reserve, maximum_response_bytes, response_length_allowed,
  response_body_fits_buffer, response_allocation_available,
}

maximum_bound : (endpoint : Text) → maximum_response_bytes endpoint ≤ largest_response
unfolding maximum_response_bytes
maximum_bound endpoint = ground arith

-- What a response that is read leaves behind: it fits in the buffer, and unless it has no body, in
-- one free block, with the reserve left over.
pub record Fits (endpoint : Text) (size : ℤ) (free largest : ℕ) : Type 0 where
  pub length_bound : pos_part size ≤ maximum_response_bytes endpoint
  pub buffer : response_body_fits_buffer size largest_response ≡ true
  pub room :
      (pos_part size ≡ 0)
      ⊎ ((pos_part size + post_response_reserve ≤ free) × (pos_part size ≤ largest))

-- A response whose length is allowed and for which memory is available is no longer than its endpoint
-- may answer, fits in the common buffer, and leaves the reserve of internal memory free.
pub allowed_response-Fits :
    (endpoint : Text) (size status : ℤ) (free largest : ℕ)
    → response_length_allowed endpoint size status ≡ true
    → response_allocation_available free largest size ≡ true
    → Fits endpoint size free largest
unfolding response_length_allowed response_allocation_available response_body_fits_buffer
allowed_response-Fits endpoint (pos size) status free largest allowed room =
    ground (arith, maximum_bound endpoint)
allowed_response-Fits endpoint (negsuc size) status free largest allowed room = ground arith
