-- ===== src/Storage.antt =====
-- src/storage/StoragePolicy.h and .cpp, SyncCoverage.h: retention, cleanup and coverage.
pub mod Pressure
pub mod Segments
pub mod Cleanup
pub mod Coverage
mod Examples
