-- ===== src/Persistence.antt =====
-- src/config/AtomicConfigStore.h and .cpp: two slots and a marker that are replaced atomically.
pub mod Records
pub mod Store
mod Examples
