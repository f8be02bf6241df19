-- ===== src/Domain.antt =====
-- broker/app/domain, core/config.py and the columns' types.
pub mod Time
pub mod Range
pub mod Settings
pub mod Rows
pub mod Audit
pub mod Db
