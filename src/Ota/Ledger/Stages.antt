-- ===== src/Ota/Ledger/Stages.antt =====
-- src/ota/OtaStageLedger.h and .cpp: the stages of an update, their names and contexts.
use power_monitor_sensor.Common.Texts.{Text, codes}

pub data Stage : Type 0 where
  boot workflow_lock_acquired transport_lease_acquired manifest_preparing : Stage
  manifest_request manifest_response_received manifest_parsed manifest_authenticated : Stage
  manifest_milestone_reported download_milestone_reported report_preparing : Stage
  report_request download_preparing firmware_request firmware_response_headers : Stage
  image_metadata_received image_metadata_validated update_begin_completed : Stage
  first_bytes_written streaming stream_complete sha_finalized hash_verified : Stage
  protocol_marker_verified http_transport_destroyed update_end_beginning : Stage
  update_end_completed boot_partition_verification boot_partition_selected : Stage
  recovery_record_persisted recovery_readback_verified boot_partition_restored : Stage
  partition_written reboot_milestone_reported reboot_scheduled post_boot_image_detected : Stage
  post_boot_validation_retryable post_boot_validated rollback_mark_requested : Stage
  rollback_mark_failed rollback_detected failure_persisted failed : Stage

unfoldable pub stage_name : Stage → Text
stage_name boot = codes "boot"
stage_name workflow_lock_acquired = codes "workflow_lock_acquired"
stage_name transport_lease_acquired = codes "transport_lease_acquired"
stage_name manifest_preparing = codes "manifest_preparing"
stage_name manifest_request = codes "manifest_request"
stage_name manifest_response_received = codes "manifest_response_received"
stage_name manifest_parsed = codes "manifest_parsed"
stage_name manifest_authenticated = codes "manifest_authenticated"
stage_name manifest_milestone_reported = codes "manifest_milestone_reported"
stage_name download_milestone_reported = codes "download_milestone_reported"
stage_name report_preparing = codes "report_preparing"
stage_name report_request = codes "report_request"
stage_name download_preparing = codes "download_preparing"
stage_name firmware_request = codes "firmware_request"
stage_name firmware_response_headers = codes "firmware_response_headers"
stage_name image_metadata_received = codes "image_metadata_received"
stage_name image_metadata_validated = codes "image_metadata_validated"
stage_name update_begin_completed = codes "update_begin_completed"
stage_name first_bytes_written = codes "first_bytes_written"
stage_name streaming = codes "streaming"
stage_name stream_complete = codes "stream_complete"
stage_name sha_finalized = codes "sha_finalized"
stage_name hash_verified = codes "hash_verified"
stage_name protocol_marker_verified = codes "protocol_marker_verified"
stage_name http_transport_destroyed = codes "http_transport_destroyed"
stage_name update_end_beginning = codes "update_end_beginning"
stage_name update_end_completed = codes "update_end_completed"
stage_name boot_partition_verification = codes "boot_partition_verification"
stage_name boot_partition_selected = codes "boot_partition_selected"
stage_name recovery_record_persisted = codes "recovery_record_persisted"
stage_name recovery_readback_verified = codes "recovery_readback_verified"
stage_name boot_partition_restored = codes "boot_partition_restored"
stage_name partition_written = codes "partition_written"
stage_name reboot_milestone_reported = codes "reboot_milestone_reported"
stage_name reboot_scheduled = codes "reboot_scheduled"
stage_name post_boot_image_detected = codes "post_boot_image_detected"
stage_name post_boot_validation_retryable = codes "post_boot_validation_retryable"
stage_name post_boot_validated = codes "post_boot_validated"
stage_name rollback_mark_requested = codes "rollback_mark_requested"
stage_name rollback_mark_failed = codes "rollback_mark_failed"
stage_name rollback_detected = codes "rollback_detected"
stage_name failure_persisted = codes "failure_persisted"
stage_name failed = codes "failed"

unfoldable pub default_context : Stage → Text
default_context manifest_preparing = codes "tls_preparing"
default_context report_preparing = codes "tls_preparing"
default_context download_preparing = codes "tls_preparing"
default_context transport_lease_acquired = codes "tls_preparing"
default_context manifest_request = codes "tls_active"
default_context manifest_response_received = codes "tls_active"
default_context report_request = codes "tls_active"
default_context firmware_request = codes "tls_active"
default_context firmware_response_headers = codes "tls_active"
default_context image_metadata_received = codes "tls_active"
default_context image_metadata_validated = codes "tls_active"
default_context update_begin_completed = codes "tls_active"
default_context first_bytes_written = codes "tls_active"
default_context streaming = codes "tls_active"
default_context stream_complete = codes "tls_active"
default_context sha_finalized = codes "tls_active"
default_context boot = codes "idle"
default_context post_boot_image_detected = codes "idle"
default_context post_boot_validation_retryable = codes "idle"
default_context post_boot_validated = codes "idle"
default_context rollback_mark_requested = codes "idle"
default_context rollback_mark_failed = codes "idle"
default_context rollback_detected = codes "idle"
default_context _ = codes "ota_active"
