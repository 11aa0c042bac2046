-- ===== src/Security.antt =====
-- include/security/AuthReplayWindow.h: the window against replays of signed requests.
pub mod ReplayWindow
pub mod Compare
pub mod Authenticator
pub mod Sessions
pub mod Canonical
mod Examples
