-- ===== src/Agent.antt =====
-- The agent on a host: what it collects, its heartbeat loop, and its registration as a service.
pub mod Session
pub mod Gpu
pub mod System
pub mod Logging
pub mod Config
pub mod Client
pub mod Heartbeat
pub mod Cli
pub mod Service
mod Examples
