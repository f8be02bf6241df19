-- ===== src/Hosts.antt =====
-- The status of the hosts and the events about it.
pub mod Events
pub mod Status
pub mod Lookup
pub mod Monitor
pub mod Metrics
pub mod Queues
pub mod Evaluation
pub mod Ticks
pub mod Stream
mod Examples
