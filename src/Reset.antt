-- ===== src/Reset.antt =====
-- src/reset/DataResetPolicy.h and .cpp: the policy of a data reset, its record and its gates.
pub mod Capacity
pub mod State
pub mod Boundary
pub mod Format
pub mod Record
pub mod Validity
pub mod Update
pub mod Request
pub mod Approval
pub mod Admission
mod Samples
mod Examples
