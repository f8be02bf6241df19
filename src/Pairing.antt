-- ===== src/Pairing.antt =====
-- Automatic pairing with a host's Sunshine server.
pub mod Push
pub mod Attempts
pub mod Relay
mod Examples
