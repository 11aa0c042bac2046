-- ===== src/Provisioning.antt =====
-- src/config/ProvisioningTransaction.cpp: the journal of a provisioning transaction.
pub mod Journal
mod Examples
