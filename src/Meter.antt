-- ===== src/Meter.antt =====
-- src/meter: the frames of the power meter and the polls of it.
pub mod Protocol
pub mod Poll
mod Examples
