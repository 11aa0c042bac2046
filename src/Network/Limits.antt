-- ===== src/Network/Limits.antt =====
-- src/network/ServerSyncPolicy.cpp: the memory and length limits of a request, and HTTP statuses.
pub mod Response
use power_monitor_sensor.Common.{
  ℕ, ◌+◌, ◌*◌, ◌/◌, min, Bool, true, false, not, ◌&&◌, ◌||◌, leb, ltb, ◌==◌, if◌then◌else◌,
}
use power_monitor_sensor.Common.Int.{ℤ, pos, negsuc, pos_part, leb_ℤ}
use power_monitor_sensor.Common.Texts.{Text, codes, text_eq}

pub data TlsMemoryAdmission : Type 0 where
  available low_total_memory fragmented : TlsMemoryAdmission

pub data HttpDisposition : Type 0 where
  success authentication_rejected rate_limited retryable permanent_failure : HttpDisposition
  transport_failure : HttpDisposition

-- kMaximumResponseBytes
abbrev pub largest_response : ℕ
largest_response = 24 * 1024

-- kMinimumPostResponseInternalHeapBytes
abbrev pub post_response_reserve : ℕ
post_response_reserve = 24 * 1024

unfoldable pub stack_margin_percent : ℕ → ℕ → ℕ
stack_margin_percent allocated_bytes high_water_bytes =
    if allocated_bytes == 0 then 0 else min allocated_bytes high_water_bytes * 100 / allocated_bytes

unfoldable pub stack_margin_healthy : ℕ → ℕ → ℕ → Bool
stack_margin_healthy allocated_bytes high_water_bytes minimum_margin_percent =
    not (allocated_bytes == 0)
    && leb minimum_margin_percent (stack_margin_percent allocated_bytes high_water_bytes)

unfoldable pub tls_memory_reserve_available : ℕ → ℕ → Bool
tls_memory_reserve_available free_internal_bytes largest_internal_block_bytes =
    leb (64 * 1024) free_internal_bytes && leb (32 * 1024) largest_internal_block_bytes

-- The two fields of the snapshot that the code reads.
unfoldable pub classify_tls_memory : ℕ → ℕ → TlsMemoryAdmission
classify_tls_memory free_internal_bytes largest_internal_block_bytes =
    if ltb free_internal_bytes (64 * 1024)
    then low_total_memory
    else (if ltb largest_internal_block_bytes (32 * 1024) then fragmented else available)

unfoldable pub maximum_response_bytes : Text → ℕ
maximum_response_bytes endpoint =
    if text_eq endpoint (codes "/api/v1/device-heartbeats")
    then 8 * 1024
    else (if text_eq endpoint (codes "/api/v1/device-enrollment/claim")
        then 16 * 1024
        else (if text_eq endpoint (codes "/api/v1/device-readings/batch")
            then 12 * 1024
            else (if text_eq endpoint (codes "/api/v1/device-events/batch")
                then 8 * 1024
                else largest_response)))

unfoldable pub maximum_request_bytes : Text → ℕ
maximum_request_bytes endpoint =
    if text_eq endpoint (codes "/api/v1/device-readings/batch")
    then 8 * 1024 + 4 * 1024
    else (if text_eq endpoint (codes "/api/v1/device-events/batch")
        then 16 * 1024 + 4 * 1024
        else 8 * 1024)

abbrev pub not_negative : ℤ → Bool
not_negative = leb_ℤ (pos 0)

-- response_size <= 0
abbrev pub not_positive : ℤ → Bool
not_positive size = leb_ℤ size (pos 0)

-- status == 204
abbrev pub is_no_content : ℤ → Bool
is_no_content (pos status) = status == 204
is_no_content (negsuc status) = false

-- The overload that takes an endpoint.
unfoldable pub response_length_allowed : Text → ℤ → ℤ → Bool
response_length_allowed endpoint response_size status =
    if is_no_content status
    then not_positive response_size
    else not_negative response_size
      && leb (pos_part response_size) (maximum_response_bytes endpoint)

unfoldable pub response_body_fits_buffer : ℤ → ℕ → Bool
response_body_fits_buffer response_size capacity =
    not_positive response_size || leb (pos_part response_size) capacity

unfoldable pub response_allocation_available : ℕ → ℕ → ℤ → Bool
response_allocation_available free_internal_bytes largest_internal_block_bytes response_size =
    not_positive response_size
    || (leb (pos_part response_size + post_response_reserve) free_internal_bytes
        && leb (pos_part response_size) largest_internal_block_bytes)

-- The tests of a status that is not negative.
unfoldable pub classify_status : ℕ → HttpDisposition
classify_status status =
    if leb 200 status && ltb status 300
    then success
    else (if status == 401 || status == 403
        then authentication_rejected
        else (if status == 429
            then rate_limited
            else (if status == 408
                  || status == 425
                  || status == 502
                  || status == 503
                  || status == 504
                  || leb 500 status
                then retryable
                else permanent_failure)))

unfoldable pub classify_http_status : ℤ → HttpDisposition
classify_http_status (negsuc status) = transport_failure
classify_http_status (pos status) = classify_status status
