-- ===== src/Tokens.antt =====
-- The three services over the `tokens` table.
pub mod Store
pub mod Connect
pub mod Agent
pub mod Session
pub mod Issuing
pub mod Unique
pub mod Exclusive
pub mod Replay
pub mod Consuming
pub mod Rotation
pub mod Logout
mod Examples
