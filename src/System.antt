-- ===== src/System.antt =====
-- The broker as a whole: the invariant of its database under every sequence of requests.
pub mod Growing
pub mod Invariant
pub mod Services
pub mod Endpoints
pub mod Reach
pub mod Running
pub mod Keys
pub mod Storing
pub mod Answers
pub mod InstantUse
pub mod Delivery
pub mod Monitoring
mod Examples
