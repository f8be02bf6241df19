-- ===== src/Boot.antt =====
-- The process around the broker: its start and its end, the engine that it holds, and the schema
-- of its database.
pub mod Engine
pub mod Lifespan
pub mod Health
pub mod Schema
mod Examples
