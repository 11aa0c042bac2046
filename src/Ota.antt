-- ===== src/Ota.antt =====
-- src/ota/OtaUpdatePolicy.h and .cpp: the policy of a firmware update.
pub mod Stream
pub mod PostBoot
pub mod Partition
pub mod Milestones
pub mod Version
pub mod Ledger
pub mod Manifest
pub mod Calendar
mod Examples
