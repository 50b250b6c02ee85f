-- ===== src/Zlog.antt =====
-- The package zlog: a log file that is opened under a dated name, and the clearing of old ones.
pub mod Names
pub mod Retention
pub mod Logger
pub mod Mill
pub mod Caller
pub mod Compress
pub mod Setup
mod Sorting
mod Examples
mod Runs
