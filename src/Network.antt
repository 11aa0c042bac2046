-- ===== src/Network.antt =====
-- src/network: the policies of the connection to the server.
pub mod Endpoint
pub mod Floor
pub mod Limits
pub mod Backoff
pub mod Clock
mod Examples
